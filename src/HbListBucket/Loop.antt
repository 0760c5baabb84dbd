-- ===== src/HbListBucket/Loop.antt =====
-- The loop of `dequeue_packet_bulk` as a loop that releases nodes, and the number of its rounds.
use flow_bundler.Common.{ℕ, zero, suc, ◌^◌, ◌<◌, ◌≡◌, refl, List, [], ◌∷◌, length, arith, some, min}
use flow_bundler.MemoryPool.{put_element}
use flow_bundler.EasyMap.{Doubles}
use flow_bundler.Packet.{PacketBatch, add}
use flow_bundler.Drain.{Releasing, drain}
use flow_bundler.HbListBucket.{
  HbPacketNode, Shared, HbListBucket, release_node, dequeue_loop, quota_of, rounds,
}

pub record IsBucket (b : HbListBucket) : Type 0 where
  pub counts : b.node_num ≡ length b.nodes
  pub small : length b.nodes < 2 ^ 31

module _ (fp : Doubles) (max_bytes bucket_id : ℕ) where
  pub pool-release_node :
      (x : HbPacketNode) (s : Shared)
      → (release_node fp max_bytes bucket_id x s).pool ≡ (put_element s.pool (some x.block)).1
  unfolding release_node
  pool-release_node x s = refl

  abbrev pub releasing : Releasing HbPacketNode Shared
  releasing = record {
    block = λ x. x.block;
    packet = λ x. x.packet;
    pool = λ s. s.pool;
    release = release_node fp max_bytes bucket_id;
    gives_back = pool-release_node;
  }

  pub dequeue_loop-drain :
      (quota : ℕ) (nodes : List HbPacketNode) (s : Shared) (batch : PacketBatch)
      → dequeue_loop fp max_bytes bucket_id quota nodes s batch
        ≡ drain releasing quota nodes s batch
  unfolding dequeue_loop drain
  dequeue_loop-drain zero nodes s batch = refl
  dequeue_loop-drain (suc quota) [] s batch = refl
  dequeue_loop-drain (suc quota) (x ∷ xs) s batch =
      dequeue_loop-drain quota xs (release_node fp max_bytes bucket_id x s) (add batch x.packet)

pub quota-min :
    (burst n : ℕ) → burst < 2 ^ 31 → n < 2 ^ 31 → rounds (quota_of burst n) ≡ min burst n
quota-min burst n h k = ground arith
