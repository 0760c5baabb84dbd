-- ===== src/Drain.antt =====
-- The loop of `dequeue_packet_bulk`, which both kinds of bucket have (bess/core/utils/list-bucket.h and
-- hb-list-bucket.h), for any nodes, shared members and release of a node.
use flow_bundler.Common.{
  ℕ, zero, suc, ◌+◌, ◌^◌, ◌≤◌, ◌<◌, ◌≡◌, refl, ap, sym, ◌∙◌, List, [], ◌∷◌, ◌++◌, map, append_assoc,
  append-nil, length, length-set, length-drop, take, drop, min, sub32, arith, some,
}
use flow_bundler.MemoryPool.{MemoryPool, put_element}
use flow_bundler.MemoryPool.Laws.{IsPool, put_element-own}
use flow_bundler.MemoryPool.Held.{Held, give_back, Held-put, size-put}
use flow_bundler.Packet.{Packet, PacketBatch, add, live, live-add}

-- What a bucket knows of its nodes, and of the members that a release changes.
pub record Releasing (Node S : Type 0) : Type 0 where
  pub block : Node → ℕ
  pub packet : Node → Packet
  pub pool : S → MemoryPool
  pub release : Node → S → S
  pub gives_back :
      (x : Node) (s : S) → pool (release x s) ≡ (put_element (pool s) (some (block x))).1

pub cnt-add : (b : PacketBatch) (p : Packet) → (add b p).cnt ≡ b.cnt + 1
unfolding add
cnt-add b p = refl

pub slots-add : (b : PacketBatch) (p : Packet) → length (add b p).pkts ≡ length b.pkts
unfolding add
slots-add b p = length-set b.pkts b.cnt p

module _ {Node S : Type 0} (r : Releasing Node S) where
  abbrev pub blocks : List Node → List ℕ
  blocks nodes = map r.block nodes

  unfoldable pub drain : ℕ → List Node → S → PacketBatch → List Node × S × PacketBatch
  drain zero nodes s batch = (nodes, s, batch)
  drain (suc quota) [] s batch = ([], s, batch)
  drain (suc quota) (x ∷ xs) s batch = drain quota xs (r.release x s) (add batch (r.packet x))

  -- What the loop leaves behind.
  pub record Drained (quota : ℕ) (nodes : List Node) (s : S) (batch : PacketBatch) (free : List ℕ)
      (out : List Node × S × PacketBatch) : Type 0 where
    pub rest : out.0 ≡ drop quota nodes
    pub sent : live out.2 ≡ live batch ++ map r.packet (take quota nodes)
    pub free_blocks : IsPool (r.pool out.1) (give_back (blocks (take quota nodes)) free)
    pub held : Held (r.pool out.1) (give_back (blocks (take quota nodes)) free) (blocks out.0)

  pub drain-Drained :
      (quota : ℕ) (nodes : List Node) (s : S) (batch : PacketBatch) (free : List ℕ)
      → quota ≤ length nodes
      → IsPool (r.pool s) free
      → Held (r.pool s) free (blocks nodes)
      → length nodes + length free ≤ (r.pool s).size
      → batch.cnt + quota ≤ length batch.pkts
      → Drained quota nodes s batch free (drain quota nodes s batch)
  unfolding drain
  drain-Drained zero nodes s batch free q v h room slots = record {
    rest = refl;
    sent = sym (append-nil (live batch));
    free_blocks = v;
    held = h;
  }
  drain-Drained (suc quota) [] s batch free q v h room slots = absurd (omega arith)
  drain-Drained (suc quota) (x ∷ xs) s batch free q v h room slots =
      let same = r.gives_back x s in
      let e = r.block x in
      let put = put_element-own (r.pool s) e free v h.0 h.1 (omega arith) in
      let step =
        drain-Drained quota xs (r.release x s) (add batch (r.packet x)) (e ∷ free) (omega arith)
          (rw same put.1) (rw same (Held-put (r.pool s) free e (blocks xs) h.2 h.3))
          (rw same (omega (arith, size-put (r.pool s) (some e))))
          (omega (arith, cnt-add batch (r.packet x), slots-add batch (r.packet x))) in
      record {
        rest = step.rest;
        sent =
            step.sent
            ∙ ap (λ l. l ++ map r.packet (take quota xs))
                (live-add batch (r.packet x) (omega arith))
            ∙ append_assoc (live batch) (r.packet x ∷ []) (map r.packet (take quota xs));
        free_blocks = step.free_blocks;
        held = step.held;
      }

  -- What a call of `dequeue_packet_bulk` does: it takes the first `min(burst, node_num)` packets, puts
  -- them into the batch in that order, and gives exactly their nodes back to the pool.
  pub record Taken (burst : ℕ) (nodes : List Node) (s : S) (batch : PacketBatch) (free : List ℕ)
      (number node_num : ℕ) (out : List Node × S × PacketBatch) : Type 0 where
    pub count : number ≡ min burst (length nodes)
    pub left : node_num ≡ length out.0
    pub rest : out.0 ≡ drop (min burst (length nodes)) nodes
    pub sent : live out.2 ≡ live batch ++ map r.packet (take (min burst (length nodes)) nodes)
    pub free_blocks :
        IsPool (r.pool out.1) (give_back (blocks (take (min burst (length nodes)) nodes)) free)
    pub held :
        Held
          (r.pool out.1)
          (give_back (blocks (take (min burst (length nodes)) nodes)) free)
          (blocks out.0)

  pub drain-Taken :
      (burst node_num n : ℕ) (nodes : List Node) (s : S) (batch : PacketBatch) (free : List ℕ)
      → node_num ≡ length nodes
      → length nodes < 2 ^ 31
      → n ≡ min burst (length nodes)
      → IsPool (r.pool s) free
      → Held (r.pool s) free (blocks nodes)
      → length nodes + length free ≤ (r.pool s).size
      → batch.cnt + n ≤ length batch.pkts
      → Taken burst nodes s batch free n (sub32 node_num n) (drain n nodes s batch)
  drain-Taken burst node_num n nodes s batch free counts small e v h room slots =
      let d = drain-Drained n nodes s batch free (omega arith) v h room slots in
      record {
        count = e;
        left = rw d.rest (omega (arith, length-drop n nodes));
        rest = rw (← e) d.rest;
        sent = rw (← e) d.sent;
        free_blocks = rw (← e) d.free_blocks;
        held = rw (← e) d.held;
      }
