-- ===== src/ListBucket/Laws.antt =====
-- The bucket of the other shapers: packets, nodes, and the bytes of the flows.
use flow_bundler.Common.{
  ℕ, zero, suc, ◌+◌, ◌^◌, ◌≤◌, ◌<◌, ◌≡◌, refl, ap, ◌∙◌, subst, List, [], ◌∷◌, map, length,
  length-drop, arith, Bool, true, min, sub32, u64, some, get_or, set,
}
use flow_bundler.MemoryPool.{put_element}
use flow_bundler.MemoryPool.Laws.{IsPool, get_element-some, get_element-owns}
use flow_bundler.MemoryPool.Held.{Held, Held-get}
use flow_bundler.Packet.{Packet, PacketBatch, add}
use flow_bundler.HbListBucket.{quota_of, rounds}
use flow_bundler.HbListBucket.Loop.{quota-min}
use flow_bundler.Drain.{Releasing, blocks, drain, Taken, drain-Taken}
use flow_bundler.ListBucket.{
  PacketNode, ListShared, ListBucket, enqueue_packet, release_node, dequeue_loop,
  dequeue_packet_bulk,
}

pub record IsListBucket (b : ListBucket) : Type 0 where
  pub counts : b.node_num ≡ length b.nodes
  pub small : length b.nodes < 2 ^ 31

pub pool-list_release :
    (max_bytes : ℕ) (x : PacketNode) (s : ListShared)
    → (release_node max_bytes x s).pool ≡ (put_element s.pool (some x.block)).1
unfolding release_node
pool-list_release max_bytes x s = refl

abbrev pub list_releasing : ℕ → Releasing PacketNode ListShared
list_releasing max_bytes = record {
  block = λ x. x.block;
  packet = λ x. x.packet;
  pool = λ s. s.pool;
  release = release_node max_bytes;
  gives_back = pool-list_release max_bytes;
}

list_loop-drain :
    (max_bytes quota : ℕ) (nodes : List PacketNode) (s : ListShared) (batch : PacketBatch)
    → dequeue_loop max_bytes quota nodes s batch
      ≡ drain (list_releasing max_bytes) quota nodes s batch
unfolding dequeue_loop drain
list_loop-drain max_bytes zero nodes s batch = refl
list_loop-drain max_bytes (suc quota) [] s batch = refl
list_loop-drain max_bytes (suc quota) (x ∷ xs) s batch =
    list_loop-drain max_bytes quota xs (release_node max_bytes x s) (add batch x.packet)

abbrev pub ListOutcome :
    ℕ
    → ListShared
    → ListBucket
    → PacketBatch
    → List ℕ
    → ℕ × ListShared × ListBucket × PacketBatch
    → Type 0
ListOutcome burst s b batch free out =
    IsListBucket out.2
    × Taken (list_releasing b.max_bytes_per_flow) burst b.nodes s batch free out.0 out.2.node_num
        (out.2.nodes, out.1, out.3)

list_bulk :
    (s : ListShared) (node_num max_bytes : ℕ) (nodes : List PacketNode) (batch : PacketBatch)
    (burst : ℕ) (free : List ℕ)
    → let b : ListBucket = record {
      node_num = node_num;
      max_bytes_per_flow = max_bytes;
      nodes = nodes;
    } in
      IsListBucket b
      → IsPool s.pool free
      → Held s.pool free (blocks (list_releasing max_bytes) nodes)
      → length nodes + length free ≤ s.pool.size
      → burst < 2 ^ 31
      → batch.cnt + min burst (length nodes) ≤ length batch.pkts
      → ListOutcome burst s b batch free (dequeue_packet_bulk s b batch burst)
unfolding dequeue_packet_bulk drain
list_bulk s node_num max_bytes [] batch burst free v p h room small slots =
    let r = list_releasing max_bytes in
    let t =
      drain-Taken r burst node_num 0 [] s batch free v.counts (omega arith) (omega arith) p h room
        (omega arith) in
    let same : sub32 node_num 0 ≡ node_num = omega (arith, v.counts) in
    (v, subst (λ n. Taken r burst [] s batch free 0 n ([], s, batch)) same t)
list_bulk s node_num max_bytes (x ∷ xs) batch burst free v p h room small slots =
    let n = min burst (length (x ∷ xs)) in
    let q : rounds (quota_of burst node_num) ≡ n =
      ap (λ k. rounds (quota_of burst k)) v.counts
      ∙ quota-min burst (length (x ∷ xs)) small v.small in
    let r = list_releasing max_bytes in
    let t =
      drain-Taken r burst node_num n (x ∷ xs) s batch free v.counts v.small refl p h room slots in
    rw (q, list_loop-drain max_bytes n (x ∷ xs) s batch)
      (
        record {
          counts = t.left;
          small = rw t.rest (omega (arith, v.small, length-drop n (x ∷ xs)));
        },
        t,
      )

-- `dequeue_packet_bulk` on a bucket whose nodes the pool has handed out takes the first
-- `min(burst, node_num)` packets, puts them into the batch in their order, gives exactly their nodes back
-- to the pool, and keeps the others. The batch must have room for them, and `burst` be no negative `int`.
pub list_bucket_bulk_lem :
    (s : ListShared) (b : ListBucket) (batch : PacketBatch) (burst : ℕ) (free : List ℕ)
    → IsListBucket b
    → IsPool s.pool free
    → Held s.pool free (blocks (list_releasing b.max_bytes_per_flow) b.nodes)
    → length b.nodes + length free ≤ s.pool.size
    → burst < 2 ^ 31
    → batch.cnt + min burst (length b.nodes) ≤ length batch.pkts
    → ListOutcome burst s b batch free (dequeue_packet_bulk s b batch burst)
list_bucket_bulk_lem s b batch burst free =
    list_bulk s b.node_num b.max_bytes_per_flow b.nodes batch burst free

-- The packet became the first of the bucket, in block `e`, and its bytes those of its flow.
pub record ListStored (packet : Packet) (flow_id : ℕ) (s : ListShared) (b : ListBucket) (e : ℕ)
    (rest : List ℕ) (out : Bool × ListShared × ListBucket) : Type 0 where
  pub done : out.0 ≡ true
  pub nodes : out.2.nodes ≡ record { block = e; packet = packet; flow_id = flow_id } ∷ b.nodes
  pub bytes :
      out.1.pkts_num ≡ set s.pkts_num flow_id (u64 (get_or s.pkts_num flow_id 0 + packet.total_len))
  pub bucket : IsListBucket out.2
  pub pool : IsPool out.1.pool rest
  pub held : Held out.1.pool rest (map (λ x. x.block) out.2.nodes)

-- `enqueue_packet` with a free block stores the packet as the first of the bucket, in the block that was
-- free last, counts its bytes for its flow, and keeps the bucket and the pool well formed.
pub enqueue_packet-ListStored :
    (s : ListShared) (b : ListBucket) (packet : Packet) (flow_id e : ℕ) (rest : List ℕ)
    → IsListBucket b
    → IsPool s.pool (e ∷ rest)
    → Held s.pool (e ∷ rest) (map (λ x. x.block) b.nodes)
    → length b.nodes + 1 < 2 ^ 31
    → ListStored packet flow_id s b e rest (enqueue_packet s b packet flow_id)
unfolding enqueue_packet
enqueue_packet-ListStored s b packet flow_id e rest v p h small =
    let got = get_element-some s.pool e rest p in
    let (below, apart) = Held-get s.pool e rest (map (λ x. x.block) b.nodes) h in
    rw (got.0, enqueue_packet)
      (record {
        done = refl;
        nodes = refl;
        bytes = refl;
        bucket = record { counts = omega (arith, v.counts); small = omega arith };
        pool = got.1;
        held = (get_element-owns s.pool e rest p, p.chain.3, apart, below);
      })
