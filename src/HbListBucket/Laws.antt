-- ===== src/HbListBucket/Laws.antt =====
-- A bucket is a stack of packets whose nodes come from the pool and go back to it.
use flow_bundler.Common.{
  ℕ, ◌+◌, ◌^◌, ◌≤◌, ◌<◌, ◌≡◌, refl, ap, ◌∙◌, List, [], ◌∷◌, map, length, length-drop, subst, sub32,
  arith, Bool, true, false, min,
}
use flow_bundler.MemoryPool.Laws.{IsPool, get_element-empty, get_element-some, get_element-owns}
use flow_bundler.MemoryPool.Held.{Held, Held-get}
use flow_bundler.EasyMap.{Doubles}
use flow_bundler.Packet.{Packet, PacketBatch}
use flow_bundler.HbListBucket.{
  HbPacketNode, Shared, HbListBucket, enqueue_packet, dequeue_packet_bulk, quota_of, rounds,
}
use flow_bundler.HbListBucket.Loop.{IsBucket, releasing, dequeue_loop-drain, quota-min}
use flow_bundler.Drain.{blocks, drain, Taken, drain-Taken}

-- What a bucket has to be before and after a call.
abbrev pub Outcome :
    Doubles
    → ℕ
    → ℕ
    → Shared
    → HbListBucket
    → PacketBatch
    → List ℕ
    → ℕ × Shared × HbListBucket × PacketBatch
    → Type 0
Outcome fp burst bucket_id s b batch free out =
    IsBucket out.2
    × Taken (releasing fp b.max_bytes_per_flow bucket_id) burst b.nodes s batch free out.0
        out.2.node_num (out.2.nodes, out.1, out.3)

bulk :
    (fp : Doubles) (s : Shared) (node_num max_bytes : ℕ) (nodes : List HbPacketNode)
    (batch : PacketBatch) (burst bucket_id : ℕ) (free : List ℕ)
    → let b : HbListBucket = record {
      node_num = node_num;
      max_bytes_per_flow = max_bytes;
      nodes = nodes;
    } in
      IsBucket b
      → IsPool s.pool free
      → Held s.pool free (blocks (releasing fp max_bytes bucket_id) nodes)
      → length nodes + length free ≤ s.pool.size
      → burst < 2 ^ 31
      → batch.cnt + min burst (length nodes) ≤ length batch.pkts
      → Outcome fp burst bucket_id s b batch free (dequeue_packet_bulk fp s b batch burst bucket_id)
unfolding dequeue_packet_bulk drain
bulk fp s node_num max_bytes [] batch burst bucket_id free v p h room small slots =
    let r = releasing fp max_bytes bucket_id in
    let t =
      drain-Taken r burst node_num 0 [] s batch free v.counts (omega arith) (omega arith) p h room
        (omega arith) in
    let same : sub32 node_num 0 ≡ node_num = omega (arith, v.counts) in
    (v, subst (λ n. Taken r burst [] s batch free 0 n ([], s, batch)) same t)
bulk fp s node_num max_bytes (x ∷ xs) batch burst bucket_id free v p h room small slots =
    let n = min burst (length (x ∷ xs)) in
    let q : rounds (quota_of burst node_num) ≡ n =
      ap (λ k. rounds (quota_of burst k)) v.counts
      ∙ quota-min burst (length (x ∷ xs)) small v.small in
    let r = releasing fp max_bytes bucket_id in
    let t =
      drain-Taken r burst node_num n (x ∷ xs) s batch free v.counts v.small refl p h room slots in
    rw (q, dequeue_loop-drain fp max_bytes bucket_id n (x ∷ xs) s batch)
      (
        record {
          counts = t.left;
          small = rw t.rest (omega (arith, v.small, length-drop n (x ∷ xs)));
        },
        t,
      )

-- `dequeue_packet_bulk` on a bucket whose nodes the pool has handed out takes the first
-- `min(burst, node_num)` packets, puts them into the batch in their order, gives exactly their nodes back
-- to the pool, and keeps the others. The batch must have room for them, and `burst` be no negative `int`.
pub dequeue_packet_bulk_lem :
    (fp : Doubles) (s : Shared) (b : HbListBucket) (batch : PacketBatch) (burst bucket_id : ℕ)
    (free : List ℕ)
    → IsBucket b
    → IsPool s.pool free
    → Held s.pool free (blocks (releasing fp b.max_bytes_per_flow bucket_id) b.nodes)
    → length b.nodes + length free ≤ s.pool.size
    → burst < 2 ^ 31
    → batch.cnt + min burst (length b.nodes) ≤ length batch.pkts
    → Outcome fp burst bucket_id s b batch free (dequeue_packet_bulk fp s b batch burst bucket_id)
dequeue_packet_bulk_lem fp s b batch burst bucket_id free =
    bulk fp s b.node_num b.max_bytes_per_flow b.nodes batch burst bucket_id free

-- The packet became the first of the bucket, in the block that was free last.
pub record Stored (node : ℕ → HbPacketNode) (s : Shared) (b : HbListBucket) (e : ℕ) (rest : List ℕ)
    (out : Bool × Shared × HbListBucket) : Type 0 where
  pub done : out.0 ≡ true
  pub nodes : out.2.nodes ≡ node e ∷ b.nodes
  pub bucket : IsBucket out.2
  pub pool : IsPool out.1.pool rest
  pub held : Held out.1.pool rest (map (λ x. x.block) out.2.nodes)

module _ (s : Shared) (b : HbListBucket) (packet : Packet) (flow_id send_ts hash_id : ℕ) where
  abbrev pub stored_node : ℕ → HbPacketNode
  stored_node e = record {
    block = e;
    packet = packet;
    flow_id = flow_id;
    send_ts = send_ts;
    hash_id = hash_id;
  }

  -- `enqueue_packet` fails when the pool has no free block, and then changes nothing.
  pub enqueue_packet-full :
      IsPool s.pool [] → enqueue_packet s b packet flow_id send_ts hash_id ≡ (false, s, b)
  unfolding enqueue_packet
  enqueue_packet-full p =
      let e = get_element-empty s.pool p in
      rw (ap (λ r. r.0) e, enqueue_packet) (ap (λ r. (false, record s { pool = r.1 }, b)) e)

  -- With a free block it stores the packet as the first of the bucket, in the block that was free last,
  -- and keeps the bucket and the pool well formed.
  pub enqueue_packet-Stored :
      (e : ℕ) (rest : List ℕ)
      → IsBucket b
      → IsPool s.pool (e ∷ rest)
      → Held s.pool (e ∷ rest) (map (λ x. x.block) b.nodes)
      → length b.nodes + 1 < 2 ^ 31
      → Stored stored_node s b e rest (enqueue_packet s b packet flow_id send_ts hash_id)
  unfolding enqueue_packet
  enqueue_packet-Stored e rest v p h small =
      let got = get_element-some s.pool e rest p in
      let (below, apart) = Held-get s.pool e rest (map (λ x. x.block) b.nodes) h in
      rw (got.0, enqueue_packet)
        (record {
          done = refl;
          nodes = refl;
          bucket = record { counts = omega (arith, v.counts); small = omega arith };
          pool = got.1;
          held = (get_element-owns s.pool e rest p, p.chain.3, apart, below);
        })
