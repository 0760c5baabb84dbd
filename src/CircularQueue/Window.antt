-- ===== src/CircularQueue/Window.antt =====
-- The stretch of the array that a ring's elements lie in.
use flow_bundler.Common.{
  ℕ, zero, suc, ◌+◌, ◌*◌, ◌/◌, ◌%◌, ◌<◌, ◌≤◌, ◌≡◌, ◌≢◌, refl, sym, ap, ◌∙◌, arith, length, inl, inr,
  lt_or_le, List, [], ◌∷◌, ◌++◌, get_or, set, get_or-set_ne,
}
use native.Mathlib.Nat.{mod-add-mod, div-add-mod, mul-le-mul}

module _ {ℓ} {A : Type ℓ} (d : A) (mem : List A) (size : ℕ) where
  -- The `n` entries from position `pos` on, going round at `size`.
  abbrev pub window : ℕ → ℕ → List A
  window pos zero = []
  window pos (suc n) = get_or mem (pos % size) d ∷ window (pos + 1) n

  pub length-window : (pos n : ℕ) → length (window pos n) ≡ n
  length-window pos zero = refl
  length-window pos (suc n) = ap suc (length-window (pos + 1) n)

  -- Positions that agree modulo the size see the same entries.
  pub window-mod : (pos pos' n : ℕ) → pos % size ≡ pos' % size → window pos n ≡ window pos' n
  window-mod pos pos' zero e = refl
  window-mod pos pos' (suc n) e =
      ap (λ i. get_or mem i d ∷ window (pos + 1) n) e
      ∙ ap (◌∷◌ (get_or mem (pos' % size) d)) (window-mod (pos + 1) (pos' + 1) n next)
    where
      next : (pos + 1) % size ≡ (pos' + 1) % size
      next = sym (mod-add-mod pos size 1) ∙ ap (λ r. (r + 1) % size) e ∙ mod-add-mod pos' size 1

  pub window_last :
      (pos n : ℕ) → window pos (suc n) ≡ window pos n ++ get_or mem ((pos + n) % size) d ∷ []
  window_last pos zero = let e : pos + 0 ≡ pos = omega arith in rw e
  window_last pos (suc n) =
      let e : pos + 1 + n ≡ pos + suc n = omega arith in
      ap (◌∷◌ (get_or mem (pos % size) d))
        (window_last (pos + 1) n ∙ ap (λ i. window (pos + 1) n ++ get_or mem (i % size) d ∷ []) e)

-- Writing at a position outside the window leaves the window.
pub window-set {ℓ} :
    {A : Type ℓ} (d : A) (mem : List A) (size pos n i : ℕ) (x : A)
    → ((j : ℕ) → j < n → (pos + j) % size ≢ i)
    → window d (set mem i x) size pos n ≡ window d mem size pos n
window-set d mem size pos zero i x apart = refl
window-set d mem size pos (suc n) i x apart =
    let start : pos + 0 ≡ pos = omega arith in
    let ne : i ≢ pos % size = λ e. apart 0 (omega arith) (ap (λ k. k % size) start ∙ sym e) in
    ap (λ a. a ∷ window d (set mem i x) size (pos + 1) n) (get_or-set_ne mem i (pos % size) x d ne)
    ∙ ap (◌∷◌ (get_or mem (pos % size) d)) (
        window-set d mem size (pos + 1) n i x λ j h e.
          let shift : pos + suc j ≡ pos + 1 + j = omega arith in
          apart (suc j) (omega arith) (ap (λ k. k % size) shift ∙ e))

-- Two positions less than a round apart are different.
pub mod-ne : (size pos j k : ℕ) → j < k → k < j + size → (pos + j) % size ≢ (pos + k) % size
mod-ne size pos j k lt round e = elim (lt_or_le ((pos + j) / size) ((pos + k) / size)) [
  | inl more ↦
      let step : size * (suc ((pos + j) / size)) ≤ size * ((pos + k) / size) =
        mul-le-mul (omega arith) more in
      omega (arith, div-add-mod (pos + j) size, div-add-mod (pos + k) size)
  | inr less ↦
      let step : size * ((pos + k) / size) ≤ size * ((pos + j) / size) =
        mul-le-mul (omega arith) less in
      omega (arith, div-add-mod (pos + j) size, div-add-mod (pos + k) size)
]
