-- ===== src/Carousel.antt =====
-- bess/core/modules/carousel.{h,cc}: one ring of buckets, a bucket for each slot of time from
-- `header_ts` on. The granularity and the number of slots are not 0; the source divides by them.
pub mod Setup
pub mod Task
pub mod Wheel
pub mod Insert
pub mod Serve
pub mod Loop
pub mod Dequeue
pub mod Anchor
pub mod Arrive
pub mod Due
pub mod Turns
pub mod Round
pub mod Start
pub mod Safety
use flow_bundler.Common.{
  ℕ, zero, suc, ◌+◌, ◌-◌, ◌*◌, ◌/◌, ◌%◌, List, [], ◌∷◌, get_or, set, u32, u64, sub64, ltb, leb,
  ◌==◌, ◌&&◌, ◌^◌, if◌then◌else◌, Bool, true, false, Option, none, some,
}
use flow_bundler.Packet.{Packet, PacketBatch, clear, set_cnt}
use flow_bundler.ListBucket.{
  ListShared, ListBucket, new_bucket, enqueue_packet, dequeue_packet_bulk,
}
use flow_bundler.FlowBundler.State.{FlowInfo, known_flow, next_stamp, no_flow}

pub record Carousel : Type 0 where
  pub queue : List ListBucket
  pub flow_info : List FlowInfo
  pub max_dequeue_burst : ℕ  -- int
  pub dequeue_burst : ℕ  -- uint32_t
  pub header_ts : ℕ  -- uint64_t
  pub granularity : ℕ  -- uint32_t
  pub horizon : ℕ  -- uint32_t
  pub slots : ℕ  -- uint64_t
  pub generate_burst : ℕ  -- uint32_t
  pub packets_num : ℕ  -- uint64_t
  pub max_bytes_per_flow : ℕ  -- uint32_t
  pub shared : ListShared
  pub enqueue_pkts : ℕ  -- uint64_t, `enqueue_state.pkts_num`
  pub dequeue_pkts : ℕ  -- uint64_t, `dequeue_state.pkts_num`
  pub dequeued_batch : ℕ  -- uint64_t

-- `(*queue_)[index]`
unfoldable pub bucket_at : Carousel → ℕ → ListBucket
bucket_at st index = get_or st.queue index (new_bucket 0)

unfoldable pub set_bucket : Carousel → ℕ → ListShared → ListBucket → Carousel
set_bucket st index shared b = record st { queue = set st.queue index b; shared = shared }

-- The result (`true` for 0, `false` for -1), the send time that goes through the reference, and the
-- module.
unfoldable pub insert : Carousel → Packet → ℕ → ℕ → Bool × ℕ × Carousel
insert st packet send_time flow_id =
    let grn = send_time / st.granularity in
    let early = ltb grn st.header_ts in
    let slot = if early then st.header_ts else grn in
    let time = if early then u64 (st.header_ts * st.granularity) else send_time in
    let index = slot % st.slots in
    let (done, shared, b) = enqueue_packet st.shared (bucket_at st index) packet flow_id in
    if ltb (sub64 (u64 (st.header_ts + st.slots)) 1) grn
    then (false, send_time, st)
    else (done, time, set_bucket st index shared b)

-- The first packet after an idle time moves the head of the ring to it.
unfoldable pub anchor : Carousel → ℕ → Carousel
anchor st now = if st.packets_num == 0 then record st { header_ts = now / st.granularity } else st

-- One round of the loop of `Enqueue`: `true` if the packet was stored, `false` if it was dropped.
unfoldable pub enqueue_one : Carousel → ℕ → Packet → Bool × Carousel
enqueue_one st now pkt =
    let flow_id = pkt.src in
    let info = known_flow (get_or st.flow_info flow_id no_flow) now in
    let st1 = anchor (record st { flow_info = set st.flow_info flow_id info }) now in
    let (done, new_stamp, st2) = insert st1 pkt (next_stamp info pkt.total_len now) flow_id in
    if done
    then (
      true,
      record st2 {
        flow_info = set st2.flow_info flow_id (record info { last_stamp = new_stamp });
        packets_num = u64 (st2.packets_num + 1);
        enqueue_pkts = u64 (st2.enqueue_pkts + 1);
      },
    )
    else (false, st2)

-- The packets of a batch with the clock's reading for each. The result lists those dropped.
unfoldable pub enqueue : Carousel → List (ℕ × Packet) → List Packet × Carousel
enqueue st [] = ([], st)
enqueue st ((now, pkt) ∷ rest) =
    let (done, st1) = enqueue_one st now pkt in
    let (dropped, st2) = enqueue st1 rest in ((if done then dropped else pkt ∷ dropped), st2)

unfoldable pub advance : Carousel → Carousel
advance st = record st { header_ts = u64 (st.header_ts + 1) }

-- The bulk dequeue from the bucket at the head.
unfoldable pub serve : Carousel → PacketBatch → ℕ × Carousel × PacketBatch
serve st batch =
    let index = st.header_ts % st.slots in
    let (dequeued, shared, b, batch') =
      dequeue_packet_bulk st.shared (bucket_at st index) batch st.max_dequeue_burst in
    let st1 = set_bucket st index shared b in
    (dequeued, (if b.node_num == 0 then advance st1 else st1), batch')

-- `while (now >= header_ts and quota > 0)`, for at most `fuel` rounds: `none` if the fuel runs out.
unfoldable pub dequeue_loop : ℕ → ℕ → Carousel → PacketBatch → Option (ℕ × Carousel × PacketBatch)
dequeue_loop zero now st batch = none
dequeue_loop (suc fuel) now st batch =
    let skip = dequeue_loop fuel now (advance st) batch in
    if leb st.header_ts now && ltb 0 st.max_dequeue_burst && ltb st.max_dequeue_burst (2 ^ 31)
    then if (bucket_at st (st.header_ts % st.slots)).node_num == 0
      then skip
      else some (serve st batch)
    else some (0, st, batch)

-- `ns` is what the clock says.
unfoldable pub dequeue : Carousel → PacketBatch → ℕ → Option (Carousel × PacketBatch)
unfolding dequeue_loop
dequeue st batch ns =
    let now = ns / st.granularity in
    let run = dequeue_loop (suc (suc (now - st.header_ts))) now st (clear batch) in
    elim run [
      | none ↦ none
      | some (dequeued, st1, batch1) ↦
          some (record st1 { dequeue_burst = u32 dequeued }, set_cnt batch1 dequeued)
    ]
