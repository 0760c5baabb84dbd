-- ===== src/ExtendedPriorityQueue/Swap.antt =====
-- Two elements of the vector that change places.
use flow_bundler.Common.{
  ℕ, ◌<◌, ◌≡◌, ◌≢◌, ap, ◌∙◌, sym, List, length, length-set, get_or-set_self, get_or-set_ne, set,
  sum_by, sum_by-set, Bool, arith,
}
use flow_bundler.ExtendedPriorityQueue.{at, swap}

module _ {ℓ} {A : Type ℓ} (cmp : A → A → Bool) (d : A) where
  pub length-swap : (v : List A) (i j : ℕ) → length (swap cmp d v i j) ≡ length v
  unfolding swap
  length-swap v i j =
      length-set (set v i (at cmp d v j)) j (at cmp d v i) ∙ length-set v i (at cmp d v j)

  pub at-swap_second :
      (v : List A) (i j : ℕ) → j < length v → at cmp d (swap cmp d v i j) j ≡ at cmp d v i
  unfolding swap
  at-swap_second v i j h =
      get_or-set_self (set v i (at cmp d v j)) j (at cmp d v i) d
        (omega (arith, length-set v i (at cmp d v j)))

  pub at-swap_first :
      (v : List A) (i j : ℕ) → i < length v → j ≢ i → at cmp d (swap cmp d v i j) i ≡ at cmp d v j
  unfolding swap
  at-swap_first v i j h ne =
      get_or-set_ne (set v i (at cmp d v j)) j i (at cmp d v i) d ne
      ∙ get_or-set_self v i (at cmp d v j) d h

  pub at-swap_ne :
      (v : List A) (i j k : ℕ) → i ≢ k → j ≢ k → at cmp d (swap cmp d v i j) k ≡ at cmp d v k
  unfolding swap
  at-swap_ne v i j k ne ne' =
      get_or-set_ne (set v i (at cmp d v j)) j k (at cmp d v i) d ne'
      ∙ get_or-set_ne v i k (at cmp d v j) d ne

  pub sum_by-swap :
      (f : A → ℕ) (v : List A) (i j : ℕ)
      → i < length v
      → j < length v
      → j ≢ i
      → sum_by f (swap cmp d v i j) ≡ sum_by f v
  unfolding swap
  sum_by-swap f v i j h h' ne =
      let v1 = set v i (at cmp d v j) in
      let one = sum_by-set f v i (at cmp d v j) d h in
      let two = sum_by-set f v1 j (at cmp d v i) d (omega (arith, length-set v i (at cmp d v j))) in
      let same : f (at cmp d v1 j) ≡ f (at cmp d v j) =
        ap f (get_or-set_ne v i j (at cmp d v j) d (λ e. ne (sym e))) in
      omega (arith, one, two, same)
