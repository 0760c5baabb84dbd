-- ===== src/ListBucket.antt =====
-- bess/core/utils/list-bucket.{h,cc}: the bucket of the Eiffel and Carousel shapers, which feeds no
-- estimator and counts the bytes of a flow itself.
pub mod Laws
pub mod Numbers
pub mod Flows
use flow_bundler.Common.{
  ℕ, zero, suc, ◌+◌, ◌-◌, ◌^◌, List, [], ◌∷◌, u32, u64, sub32, sub64, ltb, if◌then◌else◌, get_or,
  set, Option, none, some, Bool, true, false,
}
use flow_bundler.CircularQueue.{CircularQueue}
use flow_bundler.CircularQueue
use flow_bundler.MemoryPool.{MemoryPool, get_element, put_element}
use flow_bundler.Packet.{Packet, PacketBatch, add}
use flow_bundler.HbListBucket.{quota_of, rounds, is_nil}

pub record PacketNode : Type 0 where
  pub block : ℕ
  pub packet : Packet
  pub flow_id : ℕ  -- uint32_t

-- The static members, and the pool that every bucket of a module points to.
pub record ListShared : Type 0 where
  pub pool : MemoryPool
  pub pkts_num : List ℕ
  pub flow_to_gen : CircularQueue ℕ

pub record ListBucket : Type 0 where
  pub node_num : ℕ  -- uint32_t
  pub max_bytes_per_flow : ℕ  -- uint32_t
  pub nodes : List PacketNode

abbrev pub new_bucket : ℕ → ListBucket
new_bucket max_bytes = record { node_num = 0; max_bytes_per_flow = max_bytes; nodes = [] }

-- `true` for the result 0, `false` for -1.
unfoldable pub enqueue_packet :
    ListShared → ListBucket → Packet → ℕ → Bool × ListShared × ListBucket
enqueue_packet s b packet flow_id =
    let (block, pool) = get_element s.pool in
    elim block [
      | none ↦ (false, record s { pool = pool }, b)
      | some e ↦
          let node : PacketNode = record { block = e; packet = packet; flow_id = flow_id } in
          (
            true,
            record s {
              pool = pool;
              pkts_num =
                  set s.pkts_num flow_id (u64 (get_or s.pkts_num flow_id 0 + packet.total_len));
            },
            record b { nodes = node ∷ b.nodes; node_num = u32 (b.node_num + 1) },
          )
    ]

module _ (max_bytes : ℕ) where
  -- The body of the loop, for the node that leaves.
  unfoldable pub release_node : PacketNode → ListShared → ListShared
  release_node pkt s =
      let left = sub64 (get_or s.pkts_num pkt.flow_id 0) pkt.packet.total_len in
      record {
        pool = (put_element s.pool (some pkt.block)).1;
        pkts_num = set s.pkts_num pkt.flow_id left;
        flow_to_gen =
            if ltb left max_bytes
            then (CircularQueue.push s.flow_to_gen pkt.flow_id).1
            else s.flow_to_gen;
      }

  -- `while (quota > 0)`, as in the other kind of bucket.
  unfoldable pub dequeue_loop :
      ℕ → List PacketNode → ListShared → PacketBatch → List PacketNode × ListShared × PacketBatch
  dequeue_loop zero nodes s batch = (nodes, s, batch)
  dequeue_loop (suc quota) [] s batch = ([], s, batch)
  dequeue_loop (suc quota) (pkt ∷ nodes) s batch =
      dequeue_loop quota nodes (release_node pkt s) (add batch pkt.packet)

-- The number of packets, the shared members, the bucket and the batch.
unfoldable pub dequeue_packet_bulk :
    ListShared → ListBucket → PacketBatch → ℕ → ℕ × ListShared × ListBucket × PacketBatch
dequeue_packet_bulk s b batch burst =
    let n = rounds (quota_of burst b.node_num) in
    let (nodes, s', batch') = dequeue_loop b.max_bytes_per_flow n b.nodes s batch in
    if is_nil b.nodes
    then (0, s, b, batch)
    else (n, s', record b { nodes = nodes; node_num = sub32 b.node_num n }, batch')
