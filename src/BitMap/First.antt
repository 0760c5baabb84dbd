-- ===== src/BitMap/First.antt =====
-- The descent of `ffs` in bess/core/modules/eiffel.cc finds the first slot that is set.
use flow_bundler.Common.{
  ℕ, suc, ◌+◌, ◌-◌, ◌*◌, ◌/◌, ◌^◌, ◌%◌, ◌<◌, ◌≡◌, ◌≢◌, refl, List, [], ◌∷◌, length, get_or, ◌==◌,
  eq_or_ne, inl, inr, arith, false,
}
use flow_bundler.Common.Bits.Masks.{bit-zero}
use flow_bundler.Common.Bits.Scan.{ffs64, ctz, bit-ctz, bit_below_ctz, ctz-lt}
use flow_bundler.BitMap.{find_first, top_word}
use flow_bundler.BitMap.Links.{IsLinked, slots, slot}

-- `f` is the first slot that is set.
pub record IsFirst (f : ℕ) (layers : List (List ℕ)) : Type 0 where
  pub inside : f < slots layers
  pub found : slot layers f ≡ 1
  pub before : (j : ℕ) → j < f → slot layers j ≡ 0

-- The first bit of a word that is not zero.
IsFirst-in_word :
    (layer : List ℕ) (above : List (List ℕ)) (count : ℕ)
    → count < length layer
    → get_or layer count 0 < 2 ^ 64
    → get_or layer count 0 ≢ 0
    → ((j : ℕ) → j < count → get_or layer j 0 ≡ 0)
    → IsFirst (count * 2 ^ 6 + ffs64 (get_or layer count 0) - 1) (layer ∷ above)
unfolding ffs64
IsFirst-in_word layer above count h fits pos lower =
    let x = get_or layer count 0 in
    let c = ctz 64 x in
    let c_lt = ctz-lt 64 x pos fits in
    let test : (x == 0) ≡ false = ground arith in
    let place : count * 2 ^ 6 + suc c - 1 ≡ count * 64 + c = omega arith in
    let word : (count * 64 + c) / 64 ≡ count = omega arith in
    let seq : (count * 64 + c) % 64 ≡ c = omega arith in
    rw (test, place)
      (record {
        inside = omega arith;
        found = rw (word, seq) (bit-ctz 64 x pos fits);
        before = λ j hj. elim (eq_or_ne (j / 64) count) [
          | inl same ↦ rw same (bit_below_ctz 64 x (j % 64) (omega arith))
          | inr other ↦ rw (lower (j / 64) (omega arith)) (bit-zero (j % 64))
        ];
      })

-- From a first word that is not zero the descent of `ffs` ends in the first slot that is set.
pub find_first_lem :
    (layers : List (List ℕ))
    → IsLinked layers
    → top_word layers ≢ 0
    → IsFirst (find_first layers) layers
unfolding find_first
find_first_lem [] k h = absurd (h refl)
find_first_lem (layer ∷ []) k h =
    IsFirst-in_word layer [] 0 (omega (arith, k.1)) (k.0 0) h (λ j hj. absurd (omega arith))
find_first_lem (layer ∷ u ∷ above) k h =
    let r = find_first_lem (u ∷ above) k.2 h in
    let count = find_first (u ∷ above) in
    let inside : count < length layer = omega (arith, r.inside, k.1.0) in
    IsFirst-in_word layer (u ∷ above) count inside (k.0 count)
      (λ e. ground (arith, k.1.1 count inside, r.found))
      (λ j hj. ground (arith, k.1.1 j (omega arith), r.before j hj))

-- From a first word that is zero nothing is set.
pub top_word-zero :
    (layers : List (List ℕ))
    → IsLinked layers
    → top_word layers ≡ 0
    → (j : ℕ) → j < slots layers
    → slot layers j ≡ 0
top_word-zero [] k h j hj = refl
top_word-zero (layer ∷ []) k h j hj =
    let word : j / 64 ≡ 0 = omega (arith, k.1) in rw (word, h) (bit-zero (j % 64))
top_word-zero (layer ∷ u ∷ above) k h j hj =
    let i = j / 64 in
    let inside : i < length layer = omega arith in
    let upper = top_word-zero (u ∷ above) k.2 h i (omega (arith, k.1.0)) in
    let word : get_or layer i 0 ≡ 0 = ground (arith, k.1.1 i inside, upper) in
    rw word (bit-zero (j % 64))
