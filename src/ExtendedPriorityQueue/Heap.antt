-- ===== src/ExtendedPriorityQueue/Heap.antt =====
-- The heap in the vector, and `decrease_key_top`.
use flow_bundler.Common.{
  ℕ, zero, suc, ◌+◌, ◌*◌, ◌/◌, ◌<◌, ◌≤◌, ◌≡◌, ◌≢◌, ◌⊎◌, refl, ap, ◌∙◌, sym, subst, List, length,
  sum_by, leb, ◌==◌, Bool, true, false, inl, inr, arith, Bool-cases,
}
use flow_bundler.ExtendedPriorityQueue.Swap.{
  length-swap, at-swap_second, at-swap_first, at-swap_ne, sum_by-swap,
}
use flow_bundler.ExtendedPriorityQueue.{at, swap, larger_child, sift, decrease_key_top}

abbrev pub IsChild : ℕ → ℕ → Type 0
IsChild i j = (j ≡ 2 * i + 1) ⊎ (j ≡ 2 * i + 2)

module _ {ℓ} {A : Type ℓ} (cmp : A → A → Bool) (d : A) where
  -- What the standard library wants of a comparison.
  pub record StrictWeak : Type ℓ where
    pub asymmetric : (a b : A) → cmp a b ≡ true → cmp b a ≡ false
    pub transitive : (a b c : A) → cmp a b ≡ false → cmp b c ≡ false → cmp a c ≡ false

  -- No child is above its parent: everywhere, and but for the children of one node, which are not above
  -- the parent of it.
  abbrev pub IsHeap : List A → Type 0
  IsHeap v = (i j : ℕ) → IsChild i j → j < length v → cmp (at cmp d v i) (at cmp d v j) ≡ false

  pub record HeapBut (n : ℕ) (v : List A) : Type 0 where
    pub others :
        (i j : ℕ) → IsChild i j → j < length v → i ≢ n → cmp (at cmp d v i) (at cmp d v j) ≡ false
    pub above :
        (i j : ℕ)
        → IsChild i n
        → IsChild n j
        → j < length v
        → cmp (at cmp d v i) (at cmp d v j) ≡ false

  module _ (weak : StrictWeak) where
    irreflexive : (a : A) → cmp a a ≡ false
    irreflexive a = elim (Bool-cases (cmp a a)) [
      | inl above ↦ weak.asymmetric a a above
      | inr not_above ↦ not_above
    ]

    -- The child that is chosen, which is not below the other one.
    larger_child_lem :
        (v : List A) (node : ℕ)
        → 2 * node + 1 < length v
        → let larger = larger_child cmp d v node in
          IsChild node larger
          × (larger < length v)
          × ((j : ℕ)
              → IsChild node j
              → j < length v
              → cmp (at cmp d v larger) (at cmp d v j) ≡ false)
    unfolding larger_child
    larger_child_lem v node inside =
        let left = 2 * node + 1 in
        let right = 2 * node + 2 in
        let same : (i j : ℕ) → j ≡ i → cmp (at cmp d v i) (at cmp d v j) ≡ false =
          λ i j e. ap (λ k. cmp (at cmp d v i) (at cmp d v k)) e ∙ irreflexive (at cmp d v i) in
        elim (Bool-cases (leb (length v) right)) [
          | inl alone ↦
              rw (alone, larger_child)
                (
                  inl refl,
                  inside,
                  λ j c h. elim c [ inl e ↦ same left j e | inr e ↦ absurd (ground arith) ],
                )
          | inr both ↦ elim (Bool-cases (cmp (at cmp d v right) (at cmp d v left))) [
            | inl below ↦
                rw (both, below, larger_child)
                  (
                    inl refl,
                    inside,
                    λ j c h. elim c [
                      | inl e ↦ same left j e
                      | inr e ↦
                          ap (λ k. cmp (at cmp d v left) (at cmp d v k)) e
                          ∙ weak.asymmetric (at cmp d v right) (at cmp d v left) below
                    ],
                  )
            | inr not_below ↦
                rw (both, not_below, larger_child)
                  (
                    inr refl,
                    ground arith,
                    λ j c h. elim c [
                      | inl e ↦ ap (λ k. cmp (at cmp d v right) (at cmp d v k)) e ∙ not_below
                      | inr e ↦ same right j e
                    ],
                  )
          ]
        ]

    child-ne : (i j : ℕ) → IsChild i j → j ≢ i
    child-ne i j (inl e) same = absurd (omega arith)
    child-ne i j (inr e) same = absurd (omega arith)

    same_parent : (i k j : ℕ) → IsChild i j → IsChild k j → i ≡ k
    same_parent i k j (inl e) (inl e') = omega arith
    same_parent i k j (inl e) (inr e') = absurd (omega arith)
    same_parent i k j (inr e) (inl e') = absurd (omega arith)
    same_parent i k j (inr e) (inr e') = omega arith

    is_or_not : (i j : ℕ) → (i ≡ j) ⊎ (i ≢ j)
    is_or_not i j = elim (Bool-cases (i == j)) [
      | inl e ↦ inl (ground arith)
      | inr e ↦ inr (λ same. absurd (ground (arith, same)))
    ]

    -- The element goes down to the place of the larger child.
    module _ (v : List A) (node larger : ℕ) (but : HeapBut node v) (c : IsChild node larger)
        (h : larger < length v)
        (best : (j : ℕ)
          → IsChild node j
          → j < length v
          → cmp (at cmp d v larger) (at cmp d v j) ≡ false)
        (below : cmp (at cmp d v node) (at cmp d v larger) ≡ true) where
      abbrev v' : List A
      v' = swap cmp d v node larger

      node_inside : node < length v
      node_inside = ground arith

      kept : (k : ℕ) → k ≢ node → k ≢ larger → at cmp d v' k ≡ at cmp d v k
      kept k ne ne' = at-swap_ne cmp d v node larger k (λ e. ne (sym e)) (λ e. ne' (sym e))

      up : at cmp d v' node ≡ at cmp d v larger
      up = at-swap_first cmp d v node larger node_inside (child-ne node larger c)

      down : at cmp d v' larger ≡ at cmp d v node
      down = at-swap_second cmp d v node larger h

      swapped-others :
          (i j : ℕ)
          → IsChild i j
          → j < length v
          → i ≢ larger
          → cmp (at cmp d v' i) (at cmp d v' j) ≡ false
      swapped-others i j ij inside ne = elim (is_or_not i node) [
        | inl first ↦
            let i_up : at cmp d v' i ≡ at cmp d v larger = ap (at cmp d v') first ∙ up in
            elim (is_or_not j larger) [
              | inl e ↦
                  let j_down : at cmp d v' j ≡ at cmp d v node = ap (at cmp d v') e ∙ down in
                  rw (i_up, j_down) (weak.asymmetric (at cmp d v node) (at cmp d v larger) below)
              | inr other ↦
                  let j_child : IsChild node j = subst (λ k. IsChild k j) first ij in
                  let j_kept = kept j (child-ne node j j_child) other in
                  rw (i_up, j_kept) (best j j_child inside)
            ]
        | inr not_first ↦
            let i_kept = kept i not_first ne in
            elim (is_or_not j node) [
              | inl e ↦
                  let j_up : at cmp d v' j ≡ at cmp d v larger = ap (at cmp d v') e ∙ up in
                  let i_above : IsChild i node = subst (λ k. IsChild i k) e ij in
                  rw (i_kept, j_up) (but.above i larger i_above c h)
              | inr not_node ↦
                  let not_larger : j ≢ larger =
                    λ e. not_first (same_parent i node larger (subst (λ k. IsChild i k) e ij) c) in
                  rw (i_kept, kept j not_node not_larger) (but.others i j ij inside not_first)
            ]
      ]

      swapped-above :
          (i j : ℕ)
          → IsChild i larger
          → IsChild larger j
          → j < length v
          → cmp (at cmp d v' i) (at cmp d v' j) ≡ false
      swapped-above i j above ij inside =
          let e : i ≡ node = same_parent i node larger above c in
          let i_up : at cmp d v' i ≡ at cmp d v larger = ap (at cmp d v') e ∙ up in
          let j_kept = kept j (ground (arith, c)) (child-ne larger j ij) in
          rw (i_up, j_kept) (but.others larger j ij inside (child-ne node larger c))

      swapped-HeapBut : HeapBut larger v'
      swapped-HeapBut =
          let same = length-swap cmp d v node larger in
          record {
            others = λ i j ij inside ne. swapped-others i j ij (omega (arith, same, inside)) ne;
            above = λ i j above ij inside. swapped-above i j above ij (omega (arith, same, inside));
          }

    -- A node that is not below its larger child is above all.
    settled :
        (v : List A) (node : ℕ)
        → HeapBut node v
        → ((j : ℕ) → IsChild node j → j < length v → cmp (at cmp d v node) (at cmp d v j) ≡ false)
        → IsHeap v
    settled v node but own i j ij h = elim (is_or_not i node) [
      | inl e ↦
          ap (λ k. cmp (at cmp d v k) (at cmp d v j)) e ∙ own j (subst (λ k. IsChild k j) e ij) h
      | inr ne ↦ but.others i j ij h ne
    ]

    sift-IsHeap :
        (rounds : ℕ) (v : List A) (node : ℕ)
        → length v ≤ rounds + node
        → HeapBut node v
        → let v' = sift cmp d rounds v node in
          IsHeap v' × (length v' ≡ length v) × ((f : A → ℕ) → sum_by f v' ≡ sum_by f v)
    unfolding sift
    sift-IsHeap zero v node enough but =
        (settled v node but (λ j c h. absurd (ground (arith, c, h, enough))), refl, λ f. refl)
    sift-IsHeap (suc rounds) v node enough but =
        let larger = larger_child cmp d v node in
        elim (Bool-cases (leb (length v) (2 * node + 1))) [
          | inl no_child ↦
              rw (no_child, sift)
                (
                  settled v node but (λ j c h. absurd (ground (arith, c, h, no_child))),
                  refl,
                  λ f. refl,
                )
          | inr some_child ↦
              let inside : 2 * node + 1 < length v = ground (arith, some_child) in
              let (c, h, best) = larger_child_lem v node inside in
              elim (Bool-cases (cmp (at cmp d v node) (at cmp d v larger))) [
                | inr stays ↦
                    rw (some_child, stays, sift)
                      (
                        settled v node but (λ j cj hj.
                            weak.transitive (at cmp d v node) (at cmp d v larger) (at cmp d v j)
                              stays (best j cj hj)),
                        refl,
                        λ f. refl,
                      )
                | inl below ↦
                    let v1 = swap cmp d v node larger in
                    let same = length-swap cmp d v node larger in
                    let (heap, size, all) =
                      sift-IsHeap rounds v1 larger (ground (arith, same, c, enough))
                        (swapped-HeapBut v node larger but c h best below) in
                    let apart = child-ne node larger c in
                    rw (some_child, below, sift)
                      (
                        heap,
                        size ∙ same,
                        λ f.
                            all f
                            ∙ sum_by-swap cmp d f v node larger (ground (arith, c, h)) h apart,
                      )
              ]
        ]

    -- The top of a heap is above all.
    top-above :
        (rounds : ℕ) (v : List A) (i : ℕ)
        → IsHeap v
        → i < length v
        → i ≤ rounds
        → cmp (at cmp d v 0) (at cmp d v i) ≡ false
    top-above rounds v zero heap h enough = irreflexive (at cmp d v 0)
    top-above zero v (suc i) heap h enough = absurd (omega arith)
    top-above (suc rounds) v (suc i) heap h enough =
        let c : IsChild (i / 2) (suc i) = ground arith in
        weak.transitive (at cmp d v 0) (at cmp d v (i / 2)) (at cmp d v (suc i))
          (top-above rounds v (i / 2) heap (omega arith) (omega arith)) (heap (i / 2) (suc i) c h)

    -- If the comparison is a strict weak order and the vector is a heap but for its top, `decrease_key_top`
    -- makes it a heap with the same elements (every measure of an element has the same sum), with an element
    -- at the top that is not below any other.
    pub decrease_key_top_lem :
        (v : List A)
        → HeapBut 0 v
        → let v' = decrease_key_top cmp d v in
          IsHeap v'
          × ((f : A → ℕ) → sum_by f v' ≡ sum_by f v)
          × ((i : ℕ) → i < length v → cmp (at cmp d v' 0) (at cmp d v' i) ≡ false)
    unfolding decrease_key_top
    decrease_key_top_lem v but =
        let (heap, size, all) = sift-IsHeap (length v) v 0 (omega arith) but in
        let v' = sift cmp d (length v) v 0 in
        (heap, all, λ i h. top-above i v' i heap (omega (arith, size, h)) (omega arith))
