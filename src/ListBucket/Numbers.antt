-- ===== src/ListBucket/Numbers.antt =====
-- What the operations of a bucket do to its packets, whatever state the pool is in.
use flow_bundler.Common.{
  ℕ, zero, suc, ◌+◌, ◌^◌, ◌≤◌, ◌<◌, ◌≡◌, ◌⊎◌, inl, inr, refl, sym, ap, subst, ◌∙◌, List, [], ◌∷◌,
  ◌++◌, map, append_assoc, append-nil, length, length-drop, take, drop, min, arith, Bool, true,
  false, u32, Option-cases, none,
}
use flow_bundler.MemoryPool.{get_element}
use flow_bundler.Packet.{Packet, PacketBatch, add, live, live-add}
use flow_bundler.Drain.{cnt-add, slots-add}
use flow_bundler.HbListBucket.{quota_of, rounds}
use flow_bundler.HbListBucket.Loop.{quota-min}
use flow_bundler.ListBucket.{
  PacketNode, ListShared, ListBucket, enqueue_packet, release_node, dequeue_loop,
  dequeue_packet_bulk,
}
use flow_bundler.ListBucket.Laws.{IsListBucket}

abbrev pub packets_of : List PacketNode → List Packet
packets_of = map (λ x. x.packet)

-- The packet became the first of the bucket.
pub record Put (packet : Packet) (b : ListBucket) (out : Bool × ListShared × ListBucket)
    : Type 0 where
  pub done : out.0 ≡ true
  pub block : ℕ
  pub flow_id : ℕ
  pub nodes : out.2.nodes ≡ record { block = block; packet = packet; flow_id = flow_id } ∷ b.nodes
  pub counts : out.2.node_num ≡ u32 (b.node_num + 1)

-- `enqueue_packet` fails exactly when the pool has no block, and then changes nothing.
pub enqueue_packet-Put :
    (s : ListShared) (b : ListBucket) (packet : Packet) (flow_id : ℕ)
    → let out = enqueue_packet s b packet flow_id in
      Put packet b out ⊎ (((get_element s.pool).0 ≡ none) × (out.0 ≡ false) × (out.2 ≡ b))
unfolding enqueue_packet
enqueue_packet-Put s b packet flow_id = elim (Option-cases ((get_element s.pool).0)) [
  | inl e ↦ rw (e, enqueue_packet) (inr (refl, refl, refl))
  | inr (x, e) ↦
      rw (e, enqueue_packet)
        (inl (record { done = refl; block = x; flow_id = flow_id; nodes = refl; counts = refl }))
]

-- A number of packets left the front of the bucket for the batch.
pub record Sent (n : ℕ) (nodes : List PacketNode) (batch : PacketBatch) (nodes' : List PacketNode)
    (batch' : PacketBatch) : Type 0 where
  pub rest : nodes' ≡ drop n nodes
  pub sent : live batch' ≡ live batch ++ packets_of (take n nodes)
  pub cnt : batch'.cnt ≡ batch.cnt + n
  pub slots : length batch'.pkts ≡ length batch.pkts

dequeue_loop-Sent :
    (max_bytes n : ℕ) (nodes : List PacketNode) (s : ListShared) (batch : PacketBatch)
    → n ≤ length nodes
    → batch.cnt + n ≤ length batch.pkts
    → let out = dequeue_loop max_bytes n nodes s batch in Sent n nodes batch out.0 out.2
unfolding dequeue_loop
dequeue_loop-Sent max_bytes zero nodes s batch le room = record {
  rest = refl;
  sent = sym (append-nil (live batch));
  cnt = omega arith;
  slots = refl;
}
dequeue_loop-Sent max_bytes (suc n) [] s batch le room = absurd (omega arith)
dequeue_loop-Sent max_bytes (suc n) (x ∷ xs) s batch le room =
    let p = x.packet in
    let next =
      dequeue_loop-Sent max_bytes n xs (release_node max_bytes x s) (add batch p) (omega arith)
        (omega (arith, cnt-add batch p, slots-add batch p)) in
    record {
      rest = next.rest;
      sent =
          next.sent
          ∙ ap (λ l. l ++ packets_of (take n xs)) (live-add batch p (omega arith))
          ∙ append_assoc (live batch) (p ∷ []) (packets_of (take n xs));
      cnt = omega (arith, next.cnt, cnt-add batch p);
      slots = next.slots ∙ slots-add batch p;
    }

-- What a bulk dequeue does to the bucket and to the batch.
pub record BulkSent (burst : ℕ) (b : ListBucket) (batch : PacketBatch)
    (out : ℕ × ListShared × ListBucket × PacketBatch) : Type 0 where
  pub number : out.0 ≡ min burst (length b.nodes)
  pub bucket : IsListBucket out.2
  pub moved : Sent (min burst (length b.nodes)) b.nodes batch out.2.nodes out.3

bulk-BulkSent :
    (s : ListShared) (node_num max_bytes : ℕ) (nodes : List PacketNode) (batch : PacketBatch)
    (burst : ℕ)
    → let b : ListBucket = record {
      node_num = node_num;
      max_bytes_per_flow = max_bytes;
      nodes = nodes;
    } in
      IsListBucket b
      → burst < 2 ^ 31
      → batch.cnt + min burst (length nodes) ≤ length batch.pkts
      → BulkSent burst b batch (dequeue_packet_bulk s b batch burst)
unfolding dequeue_packet_bulk
bulk-BulkSent s node_num max_bytes [] batch burst v small room =
    let no : min burst (length {A = PacketNode} []) ≡ 0 = omega arith in
    let idle : Sent 0 [] batch [] batch = record {
      rest = refl;
      sent = sym (append-nil (live batch));
      cnt = omega arith;
      slots = refl;
    } in
    record {
      number = sym no;
      bucket = v;
      moved = subst (λ k. Sent k [] batch [] batch) (sym no) idle;
    }
bulk-BulkSent s node_num max_bytes (x ∷ xs) batch burst v small room =
    let nodes = x ∷ xs in
    let n = min burst (length nodes) in
    let q : rounds (quota_of burst node_num) ≡ n =
      ap (λ k. rounds (quota_of burst k)) v.counts ∙ quota-min burst (length nodes) small v.small in
    let m = dequeue_loop-Sent max_bytes n nodes s batch (omega arith) room in
    rw (q) (record {
      number = refl;
      bucket = record {
        counts = rw m.rest (omega (arith, v.counts, v.small, length-drop n nodes));
        small = rw m.rest (omega (arith, v.small, length-drop n nodes));
      };
      moved = m;
    })

pub dequeue_packet_bulk-BulkSent :
    (s : ListShared) (b : ListBucket) (batch : PacketBatch) (burst : ℕ)
    → IsListBucket b
    → burst < 2 ^ 31
    → batch.cnt + min burst (length b.nodes) ≤ length batch.pkts
    → BulkSent burst b batch (dequeue_packet_bulk s b batch burst)
dequeue_packet_bulk-BulkSent s b batch burst =
    bulk-BulkSent s b.node_num b.max_bytes_per_flow b.nodes batch burst
