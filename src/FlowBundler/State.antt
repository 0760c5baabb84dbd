-- ===== src/FlowBundler/State.antt =====
-- bess/core/modules/flowbundler.{h,cc}: the module's state, `Insert`, `Enqueue` and `Dequeue`. What
-- the clock says is an argument of each call, one reading for each packet.
use flow_bundler.Common.{
  ℕ, zero, suc, ◌+◌, ◌-◌, ◌*◌, ◌/◌, ◌^◌, List, [], ◌∷◌, bit_and, bit_or, u32, u64, sub32, sub64,
  shl64, shr64, not64, ltb, leb, ◌==◌, not, ◌&&◌, if◌then◌else◌, get_or, set, Bool, true, false,
  Option, none, some,
}
use flow_bundler.Common.Bits.Scan.{ffs64, clz64}
use flow_bundler.FlowBundler.Geometry.{
  Geometry, Location, queue_num, rate_scale, find_queue_index, find_real_location,
}
use flow_bundler.EasyMap.{Doubles}
use flow_bundler.EasyMap
use flow_bundler.Packet.{Packet, PacketBatch, clear, set_cnt}
use flow_bundler.HbListBucket.{
  Shared, HbListBucket, empty_bucket, enqueue_packet, dequeue_packet_bulk,
}

-- bess/core/utils/flow.h
pub record FlowInfo : Type 0 where
  pub last_stamp : ℕ  -- uint64_t
  pub rate : ℕ  -- uint64_t

abbrev pub default_flow_rate : ℕ
default_flow_rate = 200

pub record FlowBundler : Type 0 where
  pub geometry : Geometry
  pub default_rate : ℕ  -- uint32_t
  pub generate_burst : ℕ  -- uint32_t
  pub max_bytes_per_flow : ℕ  -- uint32_t
  pub m_queue : List (List HbListBucket)
  pub n_packets : List ℕ  -- uint32_t
  pub n_packets_total : ℕ  -- uint64_t
  pub bitmap : ℕ  -- uint64_t
  pub head_time : ℕ  -- uint64_t
  pub highest_rate_qid : ℕ  -- uint32_t
  pub dequeue_burst : ℕ  -- uint32_t
  pub last_dequeued : ℕ  -- uint32_t
  pub flow_info : List FlowInfo
  pub shared : Shared
  pub total_enqueue_pkts_num : ℕ  -- uint64_t

-- `(~0) << queue_id`
abbrev pub head_time_mask : ℕ → ℕ
head_time_mask queue_id = shl64 (2 ^ 64 - 1) queue_id

-- `head_time = (head_time) & HeadTimeMask(highest_rate_qid)`
abbrev pub rounded : FlowBundler → FlowBundler
rounded st = record st { head_time = bit_and st.head_time (head_time_mask st.highest_rate_qid) }

-- `(*m_queue)[queue_id][bucket_id]`
unfoldable pub get_bucket : FlowBundler → Location → HbListBucket
get_bucket st loc =
    get_or (get_or st.m_queue loc.queue_id []) loc.bucket_id (empty_bucket st.max_bytes_per_flow)

unfoldable pub set_bucket : FlowBundler → Location → HbListBucket → FlowBundler
set_bucket st loc b = record st {
  m_queue = set st.m_queue loc.queue_id (set (get_or st.m_queue loc.queue_id []) loc.bucket_id b);
}

-- The first packet after an idle time moves the head of the calendar to it.
unfoldable pub anchor : FlowBundler → ℕ → ℕ → FlowBundler
anchor st queue_id send_time =
    if st.bitmap == 0
    then record st {
      head_time = bit_and send_time (head_time_mask queue_id);
      highest_rate_qid = queue_id;
    }
    else st

-- The queue for a time beyond the horizon of the packet's own queue is a coarser one.
unfoldable pub fit_queue : FlowBundler → ℕ → ℕ → ℕ
fit_queue st queue_id actual_time =
    let g = st.geometry in
    let granularity = shl64 1 (u32 (queue_id + g.min_gran_scale)) in
    let horizon = sub64 (shl64 granularity g.bucket_num_scale) granularity in
    if ltb (u64 (st.head_time + horizon)) actual_time
    then u32 (
        queue_id
        + 64
        - clz64 (
            shr64 (sub64 actual_time st.head_time)
              (u32 (queue_id + g.min_gran_scale + g.bucket_num_scale))))
    else queue_id

unfoldable pub note_packet : FlowBundler → ℕ → FlowBundler
note_packet st q = record st {
  n_packets = set st.n_packets q (u32 (get_or st.n_packets q 0 + 1));
  n_packets_total = u64 (st.n_packets_total + 1);
  bitmap = bit_or st.bitmap (shl64 1 q);
}

-- `true` for the result 0, `false` for -1.
unfoldable pub insert : FlowBundler → Packet → ℕ → ℕ → ℕ → ℕ → Bool × FlowBundler
insert st packet queue_id send_time flow_id hash_id =
    let st1 = anchor st queue_id send_time in
    let actual_time = if ltb send_time st1.head_time then st1.head_time else send_time in
    let loc = find_real_location st.geometry (fit_queue st1 queue_id actual_time) actual_time in
    let (done, shared, b) =
      enqueue_packet st1.shared (get_bucket st1 loc) packet flow_id send_time hash_id in
    let st2 = record (set_bucket st1 loc b) { shared = shared } in
    if done then (true, note_packet st2 loc.queue_id) else (false, st2)

-- A flow without a rate gets the default one.
unfoldable pub known_flow : FlowInfo → ℕ → FlowInfo
known_flow info now =
    if info.rate == 0 then record { rate = default_flow_rate; last_stamp = now } else info

-- The time at which the flow may send this packet.
unfoldable pub next_stamp : FlowInfo → ℕ → ℕ → ℕ
next_stamp info pkt_bytes now =
    let stamp = u64 (info.last_stamp + u64 (u32 (pkt_bytes * 8) * rate_scale) / info.rate) in
    if leb now stamp then stamp else now

abbrev pub no_flow : FlowInfo
no_flow = record { last_stamp = 0; rate = 0 }

-- What a bulk dequeue from a bucket of queue `q` takes off the counters.
unfoldable pub note_dequeue : FlowBundler → ℕ → ℕ → FlowBundler
note_dequeue st q dequeue_num =
    let left = sub32 (get_or st.n_packets q 0) dequeue_num in
    let st1 = record st {
      n_packets = set st.n_packets q left;
      n_packets_total = sub64 st.n_packets_total dequeue_num;
    } in
    let bits = bit_and st.bitmap (not64 (shl64 1 q)) in
    if left == 0
    then record st1 {
      bitmap = bits;
      highest_rate_qid = if bits == 0 then queue_num - 1 else ffs64 bits - 1;
    }
    else st1

-- Rounds enough to bring the head past `now`.
abbrev pub rounds_to : ℕ → ℕ → ℕ → ℕ
rounds_to now head_time granularity = suc (suc ((now - head_time) / granularity))

-- One round of the loop of `Enqueue`: `true` if the packet was stored, `false` if it was dropped.
module _ (fp : Doubles) where
  unfoldable pub enqueue_one : FlowBundler → ℕ → Packet → Bool × FlowBundler
  unfolding known_flow next_stamp
  enqueue_one st now pkt =
      let flow_id = pkt.src in
      let info = known_flow (get_or st.flow_info flow_id no_flow) now in
      let new_stamp = next_stamp info pkt.total_len now in
      let left_bytes = get_or st.shared.pkts_num flow_id 0 in
      let (aggre_rate, hash_id) = EasyMap.get fp st.shared.aggregation_rates pkt.dst in
      let queue_id = find_queue_index st.geometry aggre_rate in
      let st1 = record st {
        flow_info = set st.flow_info flow_id info;
        highest_rate_qid =
            if ltb queue_id st.highest_rate_qid then queue_id else st.highest_rate_qid;
      } in
      let (done, st2) = insert st1 pkt queue_id new_stamp flow_id hash_id in
      if done
      then (
        true,
        record st2 {
          shared = record (st2.shared) {
            pkts_num = set st2.shared.pkts_num flow_id (u64 (left_bytes + pkt.total_len));
          };
          total_enqueue_pkts_num = u64 (st2.total_enqueue_pkts_num + 1);
          flow_info = set st2.flow_info flow_id (record info { last_stamp = new_stamp });
        },
      )
      else (false, st2)

  -- The packets of a batch with the clock's reading for each. The result lists those dropped.
  unfoldable pub enqueue : FlowBundler → List (ℕ × Packet) → List Packet × FlowBundler
  enqueue st [] = ([], st)
  enqueue st ((now, pkt) ∷ rest) =
      let (done, st1) = enqueue_one st now pkt in
      let (dropped, st2) = enqueue st1 rest in ((if done then dropped else pkt ∷ dropped), st2)

  -- `while (now >= head_time)`, for at most `fuel` rounds: `none` if the fuel runs out. `dequeue_num`
  -- is what the variable of that name holds.
  unfoldable pub dequeue_loop :
      ℕ → ℕ → ℕ → ℕ → ℕ → FlowBundler → PacketBatch → Option (ℕ × FlowBundler × PacketBatch)
  dequeue_loop zero now burst granularity dequeue_num st batch = none
  dequeue_loop (suc fuel) now burst granularity dequeue_num st batch =
      let loc = find_real_location st.geometry st.highest_rate_qid st.head_time in
      let b = get_bucket st loc in
      let (k, shared, b', batch') =
        dequeue_packet_bulk fp st.shared b batch burst (u32 loc.bucket_id) in
      let taken = record (set_bucket st loc b') { shared = shared } in
      let later = λ (s : FlowBundler). record s { head_time = u64 (s.head_time + granularity) } in
      let next = dequeue_loop fuel now burst granularity dequeue_num (later st) batch in
      let next' = dequeue_loop fuel now burst granularity k (later taken) batch' in
      if leb st.head_time now
      then (if ltb 0 (get_or st.n_packets loc.queue_id 0) && not (b.node_num == 0)
          then (if ltb 0 k && ltb k (2 ^ 31)
              then some (k, note_dequeue taken loc.queue_id k, batch')
              else next')
          else next)
      else some (dequeue_num, st, batch)

  -- The two clock readings are those of the idle branch and of the loop. `garbage` is what the
  -- variable `dequeue_num` holds before it is assigned.
  unfoldable pub dequeue : FlowBundler → PacketBatch → ℕ → ℕ → Option (FlowBundler × PacketBatch)
  unfolding dequeue_loop
  dequeue st batch now garbage =
      let empty = clear batch in
      let st1 = rounded st in
      let granularity = shl64 1 (u32 (st.highest_rate_qid + st.geometry.min_gran_scale)) in
      let run =
        dequeue_loop (rounds_to now st1.head_time granularity) now st.dequeue_burst granularity
          garbage st1 empty in
      if st.n_packets_total == 0 then some (record st { head_time = now }, empty) else elim run [
        | none ↦ none
        | some (k, st2, batch2) ↦
            some (record st2 { last_dequeued = u32 k }, set_cnt batch2 (u32 k))
      ]
