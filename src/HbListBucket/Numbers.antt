-- ===== src/HbListBucket/Numbers.antt =====
-- What the operations of a bucket do to `node_num`, whatever state the pool is in.
use flow_bundler.Common.{
  ℕ, ◌+◌, ◌-◌, ◌^◌, ◌≤◌, ◌<◌, ◌≡◌, ◌⊎◌, inl, inr, refl, List, [], ◌∷◌, arith, true, false, u32,
  Option-cases,
}
use flow_bundler.MemoryPool.{get_element}
use flow_bundler.EasyMap.{Doubles}
use flow_bundler.Packet.{Packet, PacketBatch}
use flow_bundler.HbListBucket.{
  HbPacketNode, Shared, HbListBucket, enqueue_packet, dequeue_packet_bulk,
}

pub node_num-enqueue_packet :
    (s : Shared) (b : HbListBucket) (packet : Packet) (flow_id send_ts hash_id : ℕ)
    → let out = enqueue_packet s b packet flow_id send_ts hash_id in
      ((out.0 ≡ true) × (out.2.node_num ≡ u32 (b.node_num + 1))) ⊎ ((out.0 ≡ false) × (out.2 ≡ b))
unfolding enqueue_packet
node_num-enqueue_packet s b packet flow_id send_ts hash_id =
    elim (Option-cases ((get_element s.pool).0)) [
      | inl e ↦ rw (e, enqueue_packet) (inr (refl, refl))
      | inr (x, e) ↦ rw (e, enqueue_packet) (inl (refl, refl))
    ]

pub node_num-dequeue_packet_bulk :
    (fp : Doubles) (s : Shared) (b : HbListBucket) (batch : PacketBatch) (burst bucket_id : ℕ)
    → b.node_num < 2 ^ 32
    → let out = dequeue_packet_bulk fp s b batch burst bucket_id in
      (out.0 ≤ b.node_num) × (out.0 < 2 ^ 31) × (out.2.node_num ≡ b.node_num - out.0)
unfolding dequeue_packet_bulk
node_num-dequeue_packet_bulk fp s b batch burst bucket_id h = go b.nodes
  where
    go :
        (nodes : List HbPacketNode)
        → let out = dequeue_packet_bulk fp s (record b { nodes = nodes }) batch burst bucket_id in
          (out.0 ≤ b.node_num) × (out.0 < 2 ^ 31) × (out.2.node_num ≡ b.node_num - out.0)
    go [] = (omega arith, omega arith, omega arith)
    go (x ∷ xs) = (ground arith, ground arith, ground arith)
