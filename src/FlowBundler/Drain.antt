-- ===== src/FlowBundler/Drain.antt =====
-- `Dequeue` ends, and takes off the counters exactly the packets that left.
use flow_bundler.Common.{
  ℕ, zero, suc, ◌+◌, ◌-◌, ◌*◌, ◌/◌, ◌^◌, ◌%◌, ◌≤◌, ◌<◌, ◌≡◌, ◌≢◌, ◌⊎◌, refl, ap, ◌∙◌, u32, u64,
  shl64, ltb, leb, ◌==◌, not, ◌&&◌, get_or, inl, inr, arith, false, Bool-cases, leb→le, some,
}
use flow_bundler.EasyMap.{Doubles}
use flow_bundler.Packet.{PacketBatch, clear, set_cnt}
use flow_bundler.HbListBucket.{dequeue_packet_bulk}
use flow_bundler.HbListBucket.Numbers.{node_num-dequeue_packet_bulk}
use flow_bundler.FlowBundler.Geometry.{IsGeometry, find_real_location}
use flow_bundler.FlowBundler.State.{
  FlowBundler, get_bucket, set_bucket, note_dequeue, dequeue_loop, dequeue, rounded,
}
use flow_bundler.Common.Bits.Masks.{two-pow-pos, two-pow-le}
use native.Mathlib.Nat.{div-add-mod, mod-lt}
use flow_bundler.FlowBundler.Counted.{
  Counted, row, queue_total, removed_shared, n_packets_total-note_dequeue, rewritten,
  find_real_location-inside,
}

-- How the loop of `Dequeue` ends: with `k` packets taken, or past `now` with nothing taken.
pub record Ended (now dequeue_num : ℕ) (st : FlowBundler) (out : ℕ × FlowBundler × PacketBatch)
    : Type 0 where
  pub counted : Counted out.1
  pub total :
      ((0 < out.0) × (out.1.n_packets_total + out.0 ≡ st.n_packets_total))
      ⊎ (((out.0 ≡ dequeue_num) ⊎ (out.0 ≡ 0))
          × (out.1.n_packets_total ≡ st.n_packets_total)
          × (now < out.1.head_time))

-- The head moves on from a state whose counters are those of `st`.
weaken :
    (now dequeue_num first : ℕ) (st st' : FlowBundler) (out : ℕ × FlowBundler × PacketBatch)
    → st'.n_packets_total ≡ st.n_packets_total
    → (dequeue_num ≡ first) ⊎ (dequeue_num ≡ 0)
    → Ended now dequeue_num st' out
    → Ended now first st out
weaken now dequeue_num first st st' out same from e = record {
  counted = e.counted;
  total = elim e.total [
    | inl (pos, sum) ↦ inl (pos, omega arith)
    | inr (inl k, sum, after) ↦
        inr (elim from [ inl x ↦ inl (k ∙ x) | inr x ↦ inr (k ∙ x) ], sum ∙ same, after)
    | inr (inr k, sum, after) ↦ inr (inr k, sum ∙ same, after)
  ];
}

module _ (fp : Doubles) (now burst granularity : ℕ) (pos : 0 < granularity)
    (fits : now + granularity < 2 ^ 64) where
  -- Fuel for the rounds up to `now` is enough.
  pub dequeue_loop-Ended :
      (fuel dequeue_num : ℕ) (st : FlowBundler) (batch : PacketBatch)
      → IsGeometry st.geometry
      → Counted st
      → now < st.head_time + fuel * granularity
      → (out : ℕ × FlowBundler × PacketBatch) × (dequeue_loop fp
            (suc fuel)
            now
            burst
            granularity
            dequeue_num
            st
            batch
          ≡ some out)
        × Ended now dequeue_num st out
  unfolding dequeue_loop set_bucket
  dequeue_loop-Ended zero dequeue_num st batch valid v enough =
      let late : leb st.head_time now ≡ false = ground arith in
      (
        (dequeue_num, st, batch),
        rw (late, dequeue_loop) refl,
        record { counted = v; total = inr (inl refl, refl, omega arith) },
      )
  dequeue_loop-Ended (suc fuel) dequeue_num st batch valid v enough =
      let loc = find_real_location st.geometry st.highest_rate_qid st.head_time in
      let b = get_bucket st loc in
      let out = dequeue_packet_bulk fp st.shared b batch burst (u32 loc.bucket_id) in
      let k = out.0 in
      let inside = find_real_location-inside st.geometry st.highest_rate_qid st.head_time valid in
      let r = row st loc v inside.0 inside.1 in
      let t = queue_total st loc v inside.0 inside.1 in
      let s = v.small in
      let numbers =
        node_num-dequeue_packet_bulk fp st.shared b batch burst (u32 loc.bucket_id) (omega arith) in
      let later = λ (x : FlowBundler). record x { head_time = u64 (x.head_time + granularity) } in
      let taken = record (set_bucket st loc out.2) { shared = out.1 } in
      let removed_total : (note_dequeue taken loc.queue_id k).n_packets_total + k
          ≡ st.n_packets_total =
        omega (arith, n_packets_total-note_dequeue taken loc.queue_id k) in
      let further : st.head_time ≤ now
          → now < u64 (st.head_time + granularity) + fuel * granularity =
        λ h. omega arith in
      elim (Bool-cases (leb st.head_time now)) [
        | inr late ↦ (
          (dequeue_num, st, batch),
          rw (late, dequeue_loop) refl,
          record { counted = v; total = inr (inl refl, refl, ground arith) },
        )
        | inl due ↦
            elim (Bool-cases
              (ltb 0 (get_or st.n_packets loc.queue_id 0) && not (b.node_num == 0))) [
                | inr idle ↦
                    (let (o, e, w) =
                        dequeue_loop-Ended fuel dequeue_num (later st) batch valid v
                          (further (leb→le st.head_time now due)) in
                      (
                        o,
                        rw (due, idle, dequeue_loop) e,
                        weaken now dequeue_num dequeue_num st (later st) o refl (inl refl) w,
                      ))
                | inl busy ↦ elim (Bool-cases (ltb 0 k && ltb k (2 ^ 31))) [
                  | inl got ↦ (
                    (k, note_dequeue taken loc.queue_id k, out.3),
                    rw (due, busy, got, dequeue_loop) refl,
                    record {
                      counted =
                          removed_shared st loc out.1 out.2 k v inside.0 inside.1 numbers.0
                            numbers.2;
                      total = inl (ground arith, removed_total);
                    },
                  )
                  | inr nothing ↦
                      (let zero_taken : k ≡ 0 = ground arith in
                        let (o, e, w) =
                          dequeue_loop-Ended fuel k (later taken) out.3 valid
                            (rewritten st loc out.2 v inside.0 inside.1 (omega arith))
                            (further (leb→le st.head_time now due)) in
                        (
                          o,
                          rw (due, busy, nothing, dequeue_loop) e,
                          weaken now k dequeue_num st (later taken) o refl (inr zero_taken) w,
                        ))
                ]
              ]
      ]

-- What `Dequeue` leaves behind.
pub record Dequeued (now garbage : ℕ) (st : FlowBundler) (batch : PacketBatch) (st' : FlowBundler)
    (batch' : PacketBatch) : Type 0 where
  pub counted : Counted st'
  pub outcome :
      ((st.n_packets_total ≡ 0) × (st' ≡ record st { head_time = now }) × (batch' ≡ clear batch))
      ⊎ ((batch'.cnt ≡ st'.last_dequeued)
          × (((0 < st'.last_dequeued)
                × (st'.n_packets_total + st'.last_dequeued ≡ st.n_packets_total))
              ⊎ (((st'.last_dequeued ≡ u32 garbage) ⊎ (st'.last_dequeued ≡ 0))
                  × (st'.n_packets_total ≡ st.n_packets_total)
                  × (now < st'.head_time))))

module _ (fp : Doubles) (st : FlowBundler) (batch : PacketBatch) (now garbage : ℕ) where
  abbrev granularity : ℕ
  granularity = shl64 1 (u32 (st.highest_rate_qid + st.geometry.min_gran_scale))

  granularity_pos :
      st.highest_rate_qid + st.geometry.min_gran_scale < 63
      → (0 < granularity) × (granularity < 2 ^ 63)
  granularity_pos h =
      let s : u32 (st.highest_rate_qid + st.geometry.min_gran_scale) % 64
          ≡ st.highest_rate_qid + st.geometry.min_gran_scale =
        omega arith in
      let le : 2 ^ (st.highest_rate_qid + st.geometry.min_gran_scale) ≤ 2 ^ 62 =
        two-pow-le (st.highest_rate_qid + st.geometry.min_gran_scale) 62 (omega arith) in
      rw s (omega (arith, two-pow-pos (st.highest_rate_qid + st.geometry.min_gran_scale)))

  -- With counters, bitmap and buckets in agreement, a clock before 2 ^ 63 and, if there are packets, a
  -- granularity of the head's queue below 2 ^ 63, `Dequeue` returns, and they are in agreement after it.
  -- Either the calendar was empty, and only its head moved to the clock, or as many packets left it as the
  -- batch counts, or none left it and its head passed the clock; the batch then counts 0 or what the
  -- variable `dequeue_num` happened to hold.
  pub dequeue_lem :
      IsGeometry st.geometry
      → Counted st
      → (st.n_packets_total ≢ 0 → st.highest_rate_qid + st.geometry.min_gran_scale < 63)
      → now < 2 ^ 63
      → (out : FlowBundler × PacketBatch) × (dequeue fp st batch now garbage ≡ some out)
        × Dequeued now garbage st batch out.0 out.1
  unfolding dequeue
  dequeue_lem valid v fits early = elim (Bool-cases (st.n_packets_total == 0)) [
    | inl idle ↦ (
      (record st { head_time = now }, clear batch),
      rw (idle, dequeue) refl,
      record { counted = v; outcome = inl (ground arith, refl, refl) },
    )
    | inr busy ↦
        let size = granularity_pos (fits (ground (arith, busy))) in
        let start = (rounded st).head_time in
        let enough : now < start + suc ((now - start) / granularity) * granularity =
          omega (arith, div-add-mod (now - start) granularity, mod-lt (now - start) size.0) in
        let (o, e, w) =
          dequeue_loop-Ended fp now st.dequeue_burst granularity size.0
            (omega (arith, size.1, early)) (suc ((now - start) / granularity)) garbage (rounded st)
            (clear batch) valid v enough in
        let exact : o.0 ≤ st.n_packets_total → u32 o.0 ≡ o.0 = λ h. omega (arith, v.small) in
        (
          (record o.1 { last_dequeued = u32 o.0 }, set_cnt o.2 (u32 o.0)),
          rw (busy, e, dequeue) refl,
          record {
            counted = w.counted;
            outcome = inr (
              refl,
              elim w.total [
                | inl (some_taken, sum) ↦ inl (rw (exact (omega arith)) (some_taken, sum))
                | inr (inl k, sum, after) ↦ inr (inl (ap u32 k), sum, after)
                | inr (inr k, sum, after) ↦ inr (inr (ap u32 k), sum, after)
              ],
            );
          },
        )
  ]
