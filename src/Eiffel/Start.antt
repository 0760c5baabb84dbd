-- ===== src/Eiffel/Start.antt =====
-- `Init` and `Enqueue` of Eiffel.
use flow_bundler.Common.{
  ℕ, replicate, get_or, get_or-replicate_lt, set, length-replicate, ◌+◌, ◌*◌, ◌^◌, ◌≤◌, ◌<◌, ◌≡◌,
  ◌⊎◌, refl, ap, List, [], ◌∷◌, u32, inl, inr, arith, Bool-cases,
}
use flow_bundler.Packet.{Packet}
use flow_bundler.BitMap.Links.{slot}
use flow_bundler.Platform.{
  Platform, InitError, Refused, EarlyPassed, PortPassed, early_error_cases, port_error_cases,
}
use flow_bundler.ListBucket.{ListShared, ListBucket, new_bucket}
use flow_bundler.FlowBundler.State.{known_flow, next_stamp, no_flow}
use flow_bundler.BitMap.Size.{Created, create-Created}
use flow_bundler.Eiffel.{
  Eiffel, bucket_at, drop_packet_insert, enqueue_one, enqueue, EiffelArg, failed, ready,
  initial_state, init,
}
use flow_bundler.Eiffel.Marks.{IsHalf}
use flow_bundler.Eiffel.Calendar.{IsEiffel, drop_packet_insert-IsEiffel}

new-IsHalf :
    (n max_bytes : ℕ) (map : List (List ℕ))
    → n < 2 ^ 62
    → Created n map
    → IsHalf n (record { queue = replicate n (new_bucket max_bytes); map = map })
unfolding bucket_at
new-IsHalf n max_bytes map small c = record {
  buckets = length-replicate n (new_bucket max_bytes);
  linked = c.linked;
  enough = c.enough;
  small = small;
  within = λ i used. absurd (used (c.clear i));
  marked = λ i hi used. absurd (
      used (
        ap (λ (b : ListBucket). b.node_num)
          (get_or-replicate_lt n i (new_bucket max_bytes) (new_bucket 0) hi)));
}

-- A module as `Init` leaves it: both halves have only empty buckets and no mark, and the times of the halves
-- are one horizon apart.
pub record Fresh (arg : EiffelArg) (now : ℕ) (st : Eiffel) : Type 0 where
  pub no_packets :
      (i : ℕ)
      → i < arg.slots
      → ((bucket_at st.main i).nodes ≡ []) × ((bucket_at st.buffer i).nodes ≡ [])
  pub no_marks : (i : ℕ) → (slot st.main.map i ≡ 0) × (slot st.buffer.map i ≡ 0)
  pub length_of : st.horizon ≡ u32 (arg.granularity * arg.slots)
  pub times : (st.main_ts ≡ now) × (st.buffer_ts ≡ now + st.horizon)

-- For a granularity that is not 0, 1 to 2 ^ 60 slots, and a clock that is a horizon away from its wrap-around:
-- `Init` returns. It fails with the first of its checks that fails, of the task, the generate burst, which has
-- to fit into a batch, the name of the port, the port, and its queues; or it makes two halves with empty
-- buckets and no marks, whose bitmaps have a slot for each bucket, one horizon apart, the product of
-- granularity and slots as a 32-bit number.
pub eiffel_init_lem :
    (platform : Platform) (arg : EiffelArg) (statics : ListShared) (now uuid : ℕ)
    → 0 < arg.granularity
    → 0 < arg.slots
    → arg.slots ≤ 2 ^ 60
    → now + 2 ^ 32 < 2 ^ 64
    → let out = init platform arg statics now uuid in
      ((e : InitError) × (out ≡ failed e) × Refused platform arg.generate_burst e)
      ⊎ ((st : Eiffel) × (out ≡ ready st)
          × EarlyPassed platform arg.generate_burst
          × PortPassed platform
          × IsEiffel arg.slots st
          × Fresh arg now st)
unfolding init initial_state bucket_at
eiffel_init_lem platform arg statics now uuid step some_slot most early =
    elim (early_error_cases platform arg.generate_burst) [
      | inl (e, is, why) ↦ inl (e, rw (is, init) refl, inl why)
      | inr (first, passed) ↦
          let (map, made, c) = create-Created arg.slots some_slot most in
          elim (port_error_cases platform) [
            | inl (e, is, why) ↦ inl (e, rw (first, made, is, init) refl, inr (passed, why))
            | inr (late, port) ↦
                let max_bytes = u32 (arg.max_pkts_kbytes * 1000) in
                let h = new-IsHalf arg.slots max_bytes map (omega arith) c in
                let empty : (i : ℕ)
                    → i < arg.slots
                    → (get_or (replicate arg.slots (new_bucket max_bytes)) i (new_bucket 0)).nodes
                      ≡ [] =
                  λ i hi.
                    ap (λ (b : ListBucket). b.nodes)
                      (get_or-replicate_lt arg.slots i (new_bucket max_bytes) (new_bucket 0) hi) in
                inr (
                  initial_state arg statics now uuid map,
                  rw (first, made, late, init) refl,
                  passed,
                  port,
                  record {
                    some_bucket = some_slot;
                    step = step;
                    reach = omega arith;
                    phase = omega arith;
                    main_half = h;
                    buffer_half = h;
                  },
                  record {
                    no_packets = λ i hi. (empty i hi, empty i hi);
                    no_marks = λ i. (c.clear i, c.clear i);
                    length_of = omega arith;
                    times = (refl, omega arith);
                  },
                )
          ]
    ]

times-drop_packet_insert :
    (st : Eiffel) (packet : Packet) (send_time flow_id : ℕ)
    → let st' = (drop_packet_insert st packet send_time flow_id).2 in
      (st'.main_ts ≡ st.main_ts) × (st'.horizon ≡ st.horizon)
unfolding drop_packet_insert
times-drop_packet_insert st packet send_time flow_id = (ground arith, ground arith)

enqueue_one-IsEiffel :
    (n : ℕ) (st : Eiffel) (now : ℕ) (pkt : Packet)
    → IsEiffel n st
    → st.main_ts + st.horizon + st.horizon < 2 ^ 64
    → let st' = (enqueue_one st now pkt).1 in
      IsEiffel n st' × (st'.main_ts + st'.horizon + st'.horizon < 2 ^ 64)
unfolding enqueue_one
enqueue_one-IsEiffel n st now pkt v fits =
    let info = known_flow (get_or st.flow_info pkt.src no_flow) now in
    let st1 = record st { flow_info = set st.flow_info pkt.src info } in
    let stamp = next_stamp info pkt.total_len now in
    let v1 : IsEiffel n st1 = record {
      some_bucket = v.some_bucket;
      step = v.step;
      reach = v.reach;
      phase = v.phase;
      main_half = v.main_half;
      buffer_half = v.buffer_half;
    } in
    let w = drop_packet_insert-IsEiffel n st1 pkt stamp pkt.src v1 fits in
    let (main, horizon) = times-drop_packet_insert st1 pkt stamp pkt.src in
    elim (Bool-cases (drop_packet_insert st1 pkt stamp pkt.src).0) [
      | inl done ↦
          rw (done, enqueue_one)
            (
              record {
                some_bucket = w.some_bucket;
                step = w.step;
                reach = w.reach;
                phase = w.phase;
                main_half = w.main_half;
                buffer_half = w.buffer_half;
              },
              omega (arith, main, horizon),
            )
      | inr full ↦ rw (full, enqueue_one) (w, omega (arith, main, horizon))
    ]

-- `Enqueue` keeps every bucket with a packet marked. The clock must be two horizons away from its
-- wrap-around.
pub eiffel_enqueue-IsEiffel :
    (n : ℕ) (st : Eiffel) (batch : List (ℕ × Packet))
    → IsEiffel n st
    → st.main_ts + st.horizon + st.horizon < 2 ^ 64
    → IsEiffel n (enqueue st batch).1
unfolding enqueue
eiffel_enqueue-IsEiffel n st [] v fits = v
eiffel_enqueue-IsEiffel n st ((now, pkt) ∷ rest) v fits =
    let (v1, fits1) = enqueue_one-IsEiffel n st now pkt v fits in
    eiffel_enqueue-IsEiffel n (enqueue_one st now pkt).1 rest v1 fits1
