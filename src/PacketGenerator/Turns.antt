-- ===== src/PacketGenerator/Turns.antt =====
-- Generating a batch takes the turns of the ring in their order, one for each packet.
use flow_bundler.Common.{
  ℕ, ◌+◌, ◌≤◌, ◌≡◌, refl, sym, ap, subst, ◌∙◌, List, [], ◌∷◌, ◌++◌, append_assoc, length,
  length-append, length-take, take, drop, min, get_or, set, set-append, get_or-append, take-append,
  zip_with, length-zip_with, if◌then◌else◌, Option, none, some, arith,
}
use flow_bundler.CircularQueue.{CircularQueue, pop}
use flow_bundler.CircularQueue.Invariant.{IsRing, pop-IsRing}
use flow_bundler.CircularQueue.Count.{contents, length-contents}
use flow_bundler.CircularQueue.Refine.{fifo_pop, pop_refines}
use flow_bundler.Packet.{Packet, PacketBatch, live}
use flow_bundler.PacketGenerator.{
  PacketGenerator, generate_num, alloc_packets, rewritten, rewrite_loop,
  rewrite_using_single_template, no_packet,
}

-- The turn at the front is taken.
pop_front :
    (q : CircularQueue ℕ) (x : ℕ) (xs : List ℕ)
    → IsRing q
    → contents 0 q ≡ x ∷ xs
    → ((pop 0 q).0 ≡ x) × (contents 0 (pop 0 q).1 ≡ xs)
unfolding fifo_pop
pop_front q x xs v e =
    let p = pop_refines 0 q v ∙ ap (fifo_pop 0) e in (ap (λ r. r.0) p, ap (λ r. r.1) p)

-- What the loop makes of the packets that are left.
record Rewrote (g : PacketGenerator) (flows : List ℕ) (todo : List Packet) (done rest : List Packet)
    (out : CircularQueue ℕ × List Packet) : Type 0 where
  ring : IsRing out.0
  left : contents 0 out.0 ≡ drop (length todo) flows
  pkts : out.1 ≡ done ++ (zip_with (λ p f. rewritten g f p) todo (take (length todo) flows) ++ rest)

rewrite_loop-Rewrote :
    (g : PacketGenerator) (q : CircularQueue ℕ) (flows : List ℕ) (todo done rest : List Packet)
    (i : ℕ)
    → IsRing q
    → contents 0 q ≡ flows
    → length todo ≤ length flows
    → length done ≡ i
    → Rewrote g flows todo done rest (rewrite_loop (length todo) i g q (done ++ (todo ++ rest)))
unfolding rewrite_loop
rewrite_loop-Rewrote g q flows [] done rest i v e le d = record { ring = v; left = e; pkts = refl }
rewrite_loop-Rewrote g q [] (p ∷ todo) done rest i v e le d = absurd (omega arith)
rewrite_loop-Rewrote g q (f ∷ flows) (p ∷ todo) done rest i v e le d =
    let (front, behind) = pop_front q f flows v e in
    let p' = rewritten g f p in
    let here : get_or (done ++ p ∷ (todo ++ rest)) i no_packet ≡ p =
      rw (← d) (get_or-append done p no_packet (todo ++ rest)) in
    let put : set (done ++ p ∷ (todo ++ rest)) i p' ≡ (done ++ p' ∷ []) ++ (todo ++ rest) =
      rw (← d) (set-append done p p' (todo ++ rest))
      ∙ sym (append_assoc done (p' ∷ []) (todo ++ rest)) in
    let next =
      rewrite_loop-Rewrote g (pop 0 q).1 flows todo (done ++ p' ∷ []) rest (i + 1)
        (pop-IsRing 0 q v) behind (omega arith) (omega (arith, length-append done (p' ∷ []))) in
    let step : set (done ++ p ∷ (todo ++ rest)) i
          (rewritten g (pop 0 q).0 (get_or (done ++ p ∷ (todo ++ rest)) i no_packet))
        ≡ (done ++ p' ∷ []) ++ (todo ++ rest) =
      rw (front, here) put in
    let last = zip_with (λ x n. rewritten g n x) todo (take (length todo) flows) ++ rest in
    subst (Rewrote g (f ∷ flows) (p ∷ todo) done rest)
      (ap (rewrite_loop (length todo) (i + 1) g (pop 0 q).1) (sym step))
      (record {
        ring = next.ring;
        left = next.left;
        pkts = next.pkts ∙ append_assoc done (p' ∷ []) last;
      })

-- What `RunTask` does to get a batch: `none` where the pool has too few packets.
abbrev pub generated :
    PacketGenerator
    → CircularQueue ℕ
    → (ℕ → ℕ → Option (List Packet))
    → PacketBatch
    → Option (CircularQueue ℕ × PacketBatch)
generated g q alloc batch =
    let (done, batch') = alloc_packets g q alloc batch in
    if done then some (rewrite_using_single_template g q batch') else none

-- The turns at the front of the ring were taken, and each made its packet.
pub record Generated (g : PacketGenerator) (flows : List ℕ) (pkts : List Packet)
    (out : CircularQueue ℕ × PacketBatch) : Type 0 where
  pub ring : IsRing out.0
  pub left : contents 0 out.0 ≡ drop (length pkts) flows
  pub batch : live out.1 ≡ zip_with (λ p f. rewritten g f p) pkts (take (length pkts) flows)

abbrev pub batch_size : PacketGenerator → CircularQueue ℕ → ℕ
batch_size g q = min g.generate_burst (length (contents 0 q))

generate_num_lem : (g : PacketGenerator) (q : CircularQueue ℕ) → generate_num g q ≡ batch_size g q
unfolding generate_num
generate_num_lem g q = ground (arith, length-contents 0 q)

-- If the pool gives the packets, the generator takes as many turns as a batch has, or all that the ring
-- has, in their order, and makes each packet from the template of the flow whose turn it is; the other
-- turns stay.
pub generated_lem :
    (g : PacketGenerator) (q : CircularQueue ℕ) (alloc : ℕ → ℕ → Option (List Packet))
    (batch : PacketBatch) (pkts : List Packet)
    → IsRing q
    → alloc (batch_size g q) g.generate_pkt_size ≡ some pkts
    → length pkts ≡ batch_size g q
    → (out : CircularQueue ℕ × PacketBatch) × (generated g q alloc batch ≡ some out)
      × Generated g (contents 0 q) pkts out
unfolding rewrite_using_single_template alloc_packets
generated_lem g q alloc batch pkts v e exact =
    let n = generate_num_lem g q ∙ sym exact in
    let flows = contents 0 q in
    let old = drop (length pkts) batch.pkts in
    let r = rewrite_loop-Rewrote g q flows pkts [] old 0 v refl (omega (arith, exact)) refl in
    let made = zip_with (λ p f. rewritten g f p) pkts (take (length pkts) flows) in
    let full : length made ≡ length pkts = omega (
      arith,
      length-zip_with (λ p f. rewritten g f p) pkts (take (length pkts) flows),
      length-take (length pkts) flows,
      exact,
    ) in
    let whole : take (length pkts) (made ++ old) ≡ made =
      subst (λ k. take k (made ++ old) ≡ made) full (take-append made old) in
    let same : alloc (length pkts) g.generate_pkt_size ≡ some pkts =
      subst (λ k. alloc k g.generate_pkt_size ≡ some pkts) (sym exact) e in
    (
      (
        (rewrite_loop (length pkts) 0 g q (pkts ++ old)).0,
        record { cnt = length pkts; pkts = (rewrite_loop (length pkts) 0 g q (pkts ++ old)).1 },
      ),
      rw (n, same, alloc_packets, n) refl,
      record { ring = r.ring; left = r.left; batch = ap (take (length pkts)) r.pkts ∙ whole },
    )
