-- ===== src/Tests/Heaps.antt =====
-- A heap of numbers whose top has become too small.
use flow_bundler.Common.{
  ℕ, zero, suc, ◌≡◌, ◌≢◌, ◌<◌, refl, ap, List, [], ◌∷◌, length, sum_by, ltb, false, arith,
}
use flow_bundler.ExtendedPriorityQueue.{at, swap, larger_child, sift, decrease_key_top}
use flow_bundler.ExtendedPriorityQueue.Heap.{
  IsChild, StrictWeak, IsHeap, HeapBut, decrease_key_top_lem,
}

less-StrictWeak : StrictWeak ltb 0
less-StrictWeak = record {
  asymmetric = λ a b e. ground arith;
  transitive = λ a b c e e'. ground arith;
}

abbrev numbers : List ℕ
numbers = 3 ∷ 9 ∷ 7 ∷ 5 ∷ []

numbers-others :
    (i j : ℕ)
    → IsChild i j
    → j < length numbers
    → i ≢ 0
    → ltb (at ltb 0 numbers i) (at ltb 0 numbers j) ≡ false
numbers-others zero j c h ne = absurd (ne refl)
numbers-others (suc zero) j c h ne =
    let e : j ≡ 3 = ground (arith, c, h) in ap (λ k. ltb 9 (at ltb 0 numbers k)) e
numbers-others (suc (suc n)) j c h ne = absurd (ground (arith, c, h))

numbers-HeapBut : HeapBut ltb 0 0 numbers
numbers-HeapBut = record {
  others = numbers-others;
  above = λ i j c c' h. absurd (ground (arith, c));
}

decrease_key_top_lem_example :
    let v' = decrease_key_top ltb 0 numbers in
    IsHeap ltb 0 v'
    × ((f : ℕ → ℕ) → sum_by f v' ≡ sum_by f numbers)
    × ((i : ℕ) → i < length numbers → ltb (at ltb 0 v' 0) (at ltb 0 v' i) ≡ false)
decrease_key_top_lem_example = decrease_key_top_lem ltb 0 less-StrictWeak numbers numbers-HeapBut

sifted : decrease_key_top ltb 0 numbers ≡ 9 ∷ 5 ∷ 7 ∷ 3 ∷ []
unfolding decrease_key_top sift swap larger_child
sifted = refl
