-- ===== src/HbListBucket.antt =====
-- bess/core/utils/hb-list-bucket.{h,cc}: a bucket of packets, linked through nodes of the pool, and
-- the members that all buckets share. The nodes behind `head->next` are a list; a node keeps the
-- address of its block.
pub mod Loop
pub mod Laws
pub mod Numbers
use flow_bundler.Common.{
  ℕ, zero, suc, ◌+◌, ◌-◌, ◌^◌, List, [], ◌∷◌, u32, u64, sub32, sub64, ltb, if◌then◌else◌, get_or,
  set, Option, none, some, Bool, true, false,
}
use flow_bundler.CircularQueue.{CircularQueue}
use flow_bundler.CircularQueue
use flow_bundler.MemoryPool.{MemoryPool, get_element, put_element}
use flow_bundler.EasyMap.{Doubles, EasyMap, update_rate}
use flow_bundler.Packet.{Packet, PacketBatch, add}

pub record HbPacketNode : Type 0 where
  pub block : ℕ
  pub packet : Packet
  pub flow_id : ℕ  -- uint32_t
  pub send_ts : ℕ  -- uint64_t
  pub hash_id : ℕ  -- uint32_t

-- The static members, and the pool that every bucket of a module points to.
pub record Shared : Type 0 where
  pub pool : MemoryPool
  pub pkts_num : List ℕ
  pub aggregation_rates : EasyMap
  pub flow_to_gen : CircularQueue ℕ

pub record HbListBucket : Type 0 where
  pub node_num : ℕ  -- uint32_t
  pub max_bytes_per_flow : ℕ  -- uint32_t
  pub nodes : List HbPacketNode

abbrev pub empty_bucket : ℕ → HbListBucket
empty_bucket max_bytes = record { node_num = 0; max_bytes_per_flow = max_bytes; nodes = [] }

-- `true` for the result 0, `false` for -1.
unfoldable pub enqueue_packet :
    Shared → HbListBucket → Packet → ℕ → ℕ → ℕ → Bool × Shared × HbListBucket
enqueue_packet s b packet flow_id send_ts hash_id =
    let (block, pool) = get_element s.pool in
    elim block [
      | none ↦ (false, record s { pool = pool }, b)
      | some e ↦
          let node : HbPacketNode = record {
            block = e;
            packet = packet;
            flow_id = flow_id;
            send_ts = send_ts;
            hash_id = hash_id;
          } in
          (
            true,
            record s { pool = pool },
            record b { nodes = node ∷ b.nodes; node_num = u32 (b.node_num + 1) },
          )
    ]

module _ (fp : Doubles) (max_bytes bucket_id : ℕ) where
  -- The body of the loop, for the node that leaves.
  unfoldable pub release_node : HbPacketNode → Shared → Shared
  release_node pkt s =
      let left_bytes = sub64 (get_or s.pkts_num pkt.flow_id 0) pkt.packet.total_len in
      record {
        pool = (put_element s.pool (some pkt.block)).1;
        pkts_num = set s.pkts_num pkt.flow_id left_bytes;
        aggregation_rates =
            update_rate fp s.aggregation_rates pkt.packet.total_len pkt.send_ts pkt.hash_id
              bucket_id;
        flow_to_gen =
            if ltb left_bytes max_bytes
            then (CircularQueue.push s.flow_to_gen pkt.flow_id).1
            else s.flow_to_gen;
      }

  -- `while (quota > 0)`. A list that ends before the quota does would be a null dereference; the
  -- quota is at most `node_num`, which counts the list.
  unfoldable pub dequeue_loop :
      ℕ → List HbPacketNode → Shared → PacketBatch → List HbPacketNode × Shared × PacketBatch
  unfolding release_node
  dequeue_loop zero nodes s batch = (nodes, s, batch)
  dequeue_loop (suc quota) [] s batch = ([], s, batch)
  dequeue_loop (suc quota) (pkt ∷ nodes) s batch =
      dequeue_loop quota nodes (release_node pkt s) (add batch pkt.packet)

-- `burst` is the bit pattern of an `int`, which `burst > node_num` compares as unsigned.
abbrev pub quota_of : ℕ → ℕ → ℕ
quota_of burst node_num = if ltb node_num burst then node_num else burst

-- The rounds of a loop on an `int`: none from a negative number.
abbrev pub rounds : ℕ → ℕ
rounds quota = if ltb quota (2 ^ 31) then quota else 0

abbrev pub is_nil {ℓ} : {A : Type ℓ} → List A → Bool
is_nil [] = true
is_nil (x ∷ xs) = false

-- The number of packets, the shared members, the bucket and the batch.
unfoldable pub dequeue_packet_bulk :
    Doubles → Shared → HbListBucket → PacketBatch → ℕ → ℕ → ℕ × Shared × HbListBucket × PacketBatch
unfolding dequeue_loop
dequeue_packet_bulk fp s b batch burst bucket_id =
    let n = rounds (quota_of burst b.node_num) in
    let (nodes, s', batch') = dequeue_loop fp b.max_bytes_per_flow bucket_id n b.nodes s batch in
    if is_nil b.nodes
    then (0, s, b, batch)
    else (n, s', record b { nodes = nodes; node_num = sub32 b.node_num n }, batch')
