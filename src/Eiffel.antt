-- ===== src/Eiffel.antt =====
-- bess/core/modules/eiffel.{h,cc}: a calendar of two halves, `main` and `buffer`, each with a bitmap of
-- its buckets. The granularity is not 0; the source divides by it.
pub mod Marks
pub mod Calendar
pub mod Serve
pub mod Start
pub mod Flows
pub mod Task
pub mod Round
use flow_bundler.Common.{
  ℕ, zero, suc, replicate, ◌+◌, ◌-◌, ◌*◌, ◌/◌, ◌^◌, List, [], ◌∷◌, get_or, set, u32, u64, sub64,
  ltb, leb, ◌==◌, ◌&&◌, if◌then◌else◌, Bool, true, false, Option, none, some,
}
use flow_bundler.Platform.{Platform, InitError, early_error, port_error}
use flow_bundler.Packet.{Packet, max_burst, PacketBatch, clear, set_cnt}
use flow_bundler.ListBucket.{
  ListShared, ListBucket, new_bucket, enqueue_packet, dequeue_packet_bulk,
}
use flow_bundler.FlowBundler.State.{FlowInfo, known_flow, next_stamp, no_flow}
use flow_bundler.MemoryPool
use flow_bundler.BitMap
use flow_bundler.BitMap.{set_bit_map, free_bit_map, find_first, top_word}

-- `main_queue` and `main_map`, or `buffer_queue` and `buffer_map`.
pub record Half : Type 0 where
  pub queue : List ListBucket
  pub map : List (List ℕ)

pub record Eiffel : Type 0 where
  pub main : Half
  pub buffer : Half
  pub max_dequeue_burst : ℕ  -- int
  pub dequeue_burst : ℕ  -- uint32_t
  pub main_ts : ℕ  -- uint64_t
  pub buffer_ts : ℕ  -- uint64_t
  pub granularity : ℕ  -- uint32_t
  pub horizon : ℕ  -- uint32_t
  pub slots : ℕ  -- uint64_t
  pub shared : ListShared
  pub flow_info : List FlowInfo
  pub generate_burst : ℕ  -- uint32_t
  pub packets_num : ℕ  -- uint64_t
  pub max_bytes_per_flow : ℕ  -- uint32_t
  pub enqueue_pkts : ℕ  -- uint64_t, `enqueue_state.pkts_num`
  pub dequeue_pkts : ℕ  -- uint64_t, `dequeue_state.pkts_num`
  pub dequeued_batch : ℕ  -- uint64_t

unfoldable pub bucket_at : Half → ℕ → ListBucket
bucket_at h index = get_or h.queue index (new_bucket 0)

-- The first bucket with its bit set: the half (`true` is the main one) and the index.
unfoldable pub ffs : Eiffel → Option (Bool × ℕ)
ffs st =
    if top_word st.main.map == 0
    then if top_word st.buffer.map == 0 then none else some (false, find_first st.buffer.map)
    else some (true, find_first st.main.map)

unfoldable pub adjust_rotation : Eiffel → Eiffel
adjust_rotation st = record st {
  main_ts = st.buffer_ts;
  buffer_ts = u64 (st.buffer_ts + st.horizon);
  main = st.buffer;
  buffer = st.main;
}

-- `SetBitMap` and `enqueue_packet` at an index of a half.
unfoldable pub insert_at : Half → ListShared → ℕ → Packet → ℕ → Bool × ListShared × Half
insert_at h shared index packet flow_id =
    let (done, shared', b) = enqueue_packet shared (bucket_at h index) packet flow_id in
    (done, shared', record { map = set_bit_map index h.map; queue = set h.queue index b })

-- The result, the send time that goes through the reference, and the module.
unfoldable pub drop_packet_insert : Eiffel → Packet → ℕ → ℕ → Bool × ℕ × Eiffel
drop_packet_insert st packet send_time flow_id =
    let early = ltb send_time st.main_ts in
    let time = if early then st.main_ts else send_time in
    let index = if early then 0 else sub64 send_time st.main_ts / st.granularity in
    let (done, shared, main) = insert_at st.main st.shared index packet flow_id in
    let index' = sub64 send_time st.buffer_ts / st.granularity in
    let (done', shared', buffer) = insert_at st.buffer st.shared index' packet flow_id in
    if ltb send_time st.buffer_ts
    then (done, time, record st { shared = shared; main = main })
    else if leb (u64 (u64 (st.main_ts + st.horizon) + st.horizon)) send_time
    then (false, send_time, st)
    else (done', send_time, record st { shared = shared'; buffer = buffer })

-- The bulk dequeue from a bucket of the main half.
unfoldable pub serve : Eiffel → PacketBatch → ℕ → Eiffel × PacketBatch
serve st batch index =
    let (dequeued, shared, b, batch') =
      dequeue_packet_bulk st.shared (bucket_at st.main index) batch st.max_dequeue_burst in
    let map = if b.node_num == 0 then free_bit_map index st.main.map else st.main.map in
    (
      record st {
        shared = shared;
        dequeue_burst = u32 dequeued;
        main = record { queue = set st.main.queue index b; map = map };
      },
      set_cnt batch' dequeued,
    )

unfoldable pub dequeue : Eiffel → PacketBatch → ℕ → Eiffel × PacketBatch
dequeue st batch now =
    let empty = clear batch in
    let st0 = record st { dequeue_burst = 0 } in
    elim (ffs st) [
      | none ↦ (record st0 { main_ts = now; buffer_ts = u64 (now + st.horizon) }, empty)
      | some (in_main, index) ↦
          let st1 = if in_main then st0 else adjust_rotation st0 in
          if ltb now (u64 (index * st1.granularity + st1.main_ts))
          then (st1, empty)
          else serve st1 empty index
    ]

-- One round of the loop of `Enqueue`: `true` if the packet was stored, `false` if it was dropped.
unfoldable pub enqueue_one : Eiffel → ℕ → Packet → Bool × Eiffel
enqueue_one st now pkt =
    let flow_id = pkt.src in
    let info = known_flow (get_or st.flow_info flow_id no_flow) now in
    let st1 = record st { flow_info = set st.flow_info flow_id info } in
    let (done, new_stamp, st2) =
      drop_packet_insert st1 pkt (next_stamp info pkt.total_len now) flow_id in
    if done
    then (
      true,
      record st2 {
        packets_num = u64 (st2.packets_num + 1);
        enqueue_pkts = u64 (st2.enqueue_pkts + 1);
        flow_info = set st2.flow_info flow_id (record info { last_stamp = new_stamp });
      },
    )
    else (false, st2)

-- The packets of a batch with the clock's reading for each. The result lists those dropped.
unfoldable pub enqueue : Eiffel → List (ℕ × Packet) → List Packet × Eiffel
enqueue st [] = ([], st)
enqueue st ((now, pkt) ∷ rest) =
    let (done, st1) = enqueue_one st now pkt in
    let (dropped, st2) = enqueue st1 rest in ((if done then dropped else pkt ∷ dropped), st2)

-- The fields of the message that `Init` reads.
pub record EiffelArg : Type 0 where
  pub size : ℕ  -- uint32
  pub max_pkts_kbytes : ℕ  -- uint64
  pub generate_burst : ℕ  -- uint32
  pub granularity : ℕ  -- uint32
  pub slots : ℕ  -- uint64

-- `endless` is for a constructor of `BitMap` that does not return.
pub data InitResult : Type 0 where
  failed : InitError → InitResult
  endless : InitResult
  ready : Eiffel → InitResult

-- What `Init` assigns, with the bitmaps that the constructor made.
unfoldable pub initial_state : EiffelArg → ListShared → ℕ → ℕ → List (List ℕ) → Eiffel
initial_state arg statics now uuid map =
    let max_bytes = u32 (arg.max_pkts_kbytes * 1000) in
    let horizon = u32 (u64 (arg.granularity * arg.slots)) in
    let half : Half = record { queue = replicate arg.slots (new_bucket max_bytes); map = map } in
    record {
      main = half;
      buffer = half;
      max_dequeue_burst = 0;
      dequeue_burst = 0;
      main_ts = now;
      buffer_ts = u64 (now + horizon);
      granularity = arg.granularity;
      horizon = horizon;
      slots = arg.slots;
      shared = record statics { pool = MemoryPool.create arg.size uuid };
      flow_info = [];
      generate_burst = arg.generate_burst;
      packets_num = 0;
      max_bytes_per_flow = max_bytes;
      enqueue_pkts = 0;
      dequeue_pkts = 0;
      dequeued_batch = 0;
    }

unfoldable pub init : Platform → EiffelArg → ListShared → ℕ → ℕ → InitResult
unfolding initial_state early_error port_error
init platform arg statics now uuid = elim (early_error platform arg.generate_burst) [
  | some e ↦ failed e
  | none ↦ elim (BitMap.create arg.slots) [
    | none ↦ endless
    | some map ↦ elim (port_error platform) [
      | some e ↦ failed e
      | none ↦ ready (initial_state arg statics now uuid map)
    ]
  ]
]

-- The burst is an `int`, whose 32-bit pattern this is: a negative one is not above the size of a batch.
unfoldable pub set_max_dequeue_burst : Eiffel → ℕ → Eiffel
set_max_dequeue_burst st burst = record st {
  max_dequeue_burst = if ltb max_burst burst && ltb burst (2 ^ 31) then max_burst else burst;
}
