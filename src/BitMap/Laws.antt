-- ===== src/BitMap/Laws.antt =====
-- `SetBitMap` and `FreeBitMap` change one slot and keep the layers linked.
use flow_bundler.Common.{
  ℕ, ◌+◌, ◌*◌, ◌/◌, ◌^◌, ◌%◌, ◌<◌, ◌≡◌, ◌≢◌, refl, ap, sym, subst, ◌∙◌, List, [], ◌∷◌, length,
  length-set, get_or, get_or-set_self, get_or-set_ne, set, shl64, not64, bit_and, bit_or, ◌==◌,
  if◌then◌else◌, eq_or_ne, inl, inr, arith, Bool-cases, true, false,
}
use flow_bundler.Common.Bits.Digits.{bit}
use flow_bundler.Common.Bits.Masks.{bit_or-lt, bit_and-lt, bit-zero, zero-bit_and}
use flow_bundler.FlowBundler.Counters.{bit-set_bit, bit-clear_bit}
use flow_bundler.BitMap.{set_bit_map, free_bit_map}
use flow_bundler.BitMap.Links.{flag, Above, IsLinked, slots, slot, locate_lem}

-- Slot `i` became `v`, and nothing else changed.
pub record Changed (v i : ℕ) (layers layers' : List (List ℕ)) : Type 0 where
  pub linked : IsLinked layers'
  pub same : slots layers' ≡ slots layers
  pub only : (j : ℕ) → slot layers' j ≡ (if j == i then v else slot layers j)

abbrev Lift : ℕ → ℕ → List (List ℕ) → List (List ℕ) → Type 0
Lift v w [] above' = above' ≡ []
Lift v w (u ∷ above) above' = Changed v w (u ∷ above) above'

-- The layers above are unchanged, if their bit is what it has to be.
Lift-same :
    (v w : ℕ) (layer : List ℕ) (above : List (List ℕ))
    → IsLinked above
    → Above layer above
    → w < length layer
    → v ≡ flag (get_or layer w 0)
    → Lift v w above above
Lift-same v w layer [] k a h e = refl
Lift-same v w layer (u ∷ above) k a h e = record {
  linked = k;
  same = refl;
  only = λ j. elim (eq_or_ne j w) [
    | inl here ↦ rw here (ground (arith, a.1 w h))
    | inr other ↦ ground arith
  ];
}

-- One word of a layer changes, and its bit above with it.
module _ (layer : List ℕ) (w new : ℕ) (h : w < length layer) (small : new < 2 ^ 64) where
  word_at : (i : ℕ) → get_or (set layer w new) i 0 ≡ (if i == w then new else get_or layer i 0)
  word_at i = elim (eq_or_ne w i) [
    | inl same ↦ rw (sym same, get_or-set_self layer w new 0 h) (ground arith)
    | inr other ↦ rw (get_or-set_ne layer w i new 0 other) (ground arith)
  ]

  Above-set :
      (above above' : List (List ℕ))
      → Above layer above
      → Lift (flag new) w above above'
      → IsLinked above' × Above (set layer w new) above'
  Above-set [] above' a l = rw l (tt, length-set layer w new ∙ a)
  Above-set (u ∷ above) [] a l = absurd (omega (arith, l.same, a.0))
  Above-set (u ∷ above) (u' ∷ above') a l = (
    l.linked,
    (
      omega (arith, length-set layer w new, a.0, l.same),
      λ i k. l.only i ∙ elim (eq_or_ne i w) [
        | inl same ↦ rw (word_at i) (ground arith)
        | inr other ↦ rw (word_at i) (ground (arith, a.1 i (omega (arith, length-set layer w new))))
      ],
    ),
  )

  relink :
      (v b : ℕ) (above above' : List (List ℕ))
      → IsLinked (layer ∷ above)
      → Lift (flag new) w above above'
      → b < 64
      → ((i : ℕ) → i < 64 → bit i new ≡ (if i == b then v else bit i (get_or layer w 0)))
      → Changed v (w * 64 + b) (layer ∷ above) (set layer w new ∷ above')
  relink v b above above' k l hb bits = record {
    linked =
        (let (lower, higher) = Above-set above above' k.1 l in
          ((λ i. rw (word_at i) (ground (arith, k.0 i))), higher, lower));
    same = ap (λ n. 64 * n) (length-set layer w new);
    only = λ j. rw (word_at (j / 64)) (elim (eq_or_ne (j / 64) w) [
      | inl same ↦
          let here : (j / 64 == w) ≡ true = ground arith in
          let test : (j == w * 64 + b) ≡ (j % 64 == b) = ground arith in
          rw (here, test)
            (bits (j % 64) (omega arith)
              ∙ ap (λ n. if j % 64 == b then v else bit (j % 64) (get_or layer n 0)) (sym same))
      | inr other ↦
          let away : (j / 64 == w) ≡ false = ground arith in
          let test : (j == w * 64 + b) ≡ false = ground arith in rw (away, test) refl
    ]);
  }

abbrev Inside : ℕ → List (List ℕ) → Type 0
Inside i [] = Unit {0}
Inside i (layer ∷ above) = i < 64 * length layer

Inside-Above :
    (i : ℕ) (layer : List ℕ) (above : List (List ℕ))
    → Above layer above
    → i < 64 * length layer
    → Inside (i / 64) above
Inside-Above i layer [] a h = tt
Inside-Above i layer (u ∷ above) a h = omega (arith, a.0)

set_bit_map-Lift :
    (i : ℕ) (layers : List (List ℕ))
    → IsLinked layers
    → Inside i layers
    → i < 2 ^ 63
    → Lift 1 i layers (set_bit_map i layers)
unfolding set_bit_map
set_bit_map-Lift i [] k h small = refl
set_bit_map-Lift i (layer ∷ above) k h small =
    let w = i / 64 in
    let b = i % 64 in
    let old = get_or layer w 0 in
    let new = bit_or old (shl64 1 b) in
    let fits : new < 2 ^ 64 = bit_or-lt 64 old (shl64 1 b) (k.0 w) (omega arith) in
    let bits : (j : ℕ) → j < 64 → bit j new ≡ (if j == b then 1 else bit j old) =
      λ j hj. bit-set_bit j b old hj (omega arith) in
    let set_there : bit b new ≡ 1 = ground (arith, bits b (omega arith)) in
    let pos : new ≢ 0 = λ e. omega (arith, set_there, ap (bit b) e, bit-zero b) in
    let up = set_bit_map-Lift w above k.2 (Inside-Above i layer above k.1 h) (omega arith) in
    let word : w < length layer = omega arith in
    let whole : w * 64 + b ≡ i = omega arith in
    let raised : flag new ≡ 1 = ground arith in
    let link : (above' : List (List ℕ))
        → Lift 1 w above above'
        → Changed 1 i (layer ∷ above) (set layer w new ∷ above') =
      λ above' l.
        subst (λ n. Changed 1 n (layer ∷ above) (set layer w new ∷ above')) whole
          (relink layer w new word fits 1 b above above' k
            (subst (λ v. Lift v w above above') (sym raised) l) (omega arith) bits) in
    rw (locate_lem i small, set_bit_map)
      (elim (Bool-cases (old == 0)) [
        | inl empty ↦ rw empty (link (set_bit_map w above) up)
        | inr used ↦ rw used (link above (Lift-same 1 w layer above k.2 k.1 word (ground arith)))
      ])

free_bit_map-Lift :
    (i : ℕ) (layers : List (List ℕ))
    → IsLinked layers
    → Inside i layers
    → i < 2 ^ 63
    → Lift 0 i layers (free_bit_map i layers)
unfolding free_bit_map
free_bit_map-Lift i [] k h small = refl
free_bit_map-Lift i (layer ∷ above) k h small =
    let w = i / 64 in
    let b = i % 64 in
    let old = get_or layer w 0 in
    let new = bit_and old (not64 (shl64 1 b)) in
    let fits : new < 2 ^ 64 = bit_and-lt 64 old (not64 (shl64 1 b)) (k.0 w) in
    let bits : (j : ℕ) → j < 64 → bit j new ≡ (if j == b then 0 else bit j old) =
      λ j hj. bit-clear_bit j b old hj (omega arith) in
    let up = free_bit_map-Lift w above k.2 (Inside-Above i layer above k.1 h) (omega arith) in
    let word : w < length layer = omega arith in
    let whole : w * 64 + b ≡ i = omega arith in
    let link : (above' : List (List ℕ))
        → Lift (flag new) w above above'
        → Changed 0 i (layer ∷ above) (set layer w new ∷ above') =
      λ above' l.
        subst (λ n. Changed 0 n (layer ∷ above) (set layer w new ∷ above')) whole
          (relink layer w new word fits 0 b above above' k l (omega arith) bits) in
    rw (locate_lem i small, free_bit_map)
      (elim (Bool-cases (new == 0)) [
        | inl empty ↦
            let flat : flag new ≡ 0 = ground arith in
            rw empty (
              link (free_bit_map w above)
                (subst (λ v. Lift v w above (free_bit_map w above)) (sym flat) up))
        | inr used ↦
            let left : old ≢ 0 = λ e.
              let z : new ≡ 0 =
                ap (λ x. bit_and x (not64 (shl64 1 b))) e ∙ zero-bit_and (not64 (shl64 1 b)) in
              ground arith in
            rw used (link above (Lift-same (flag new) w layer above k.2 k.1 word (ground arith)))
      ])

-- On a linked bitmap `SetBitMap` sets the slot of its index and no other, and keeps the layers linked.
pub set_bit_map_lem :
    (i : ℕ) (layers : List (List ℕ))
    → IsLinked layers
    → i < slots layers
    → i < 2 ^ 63
    → Changed 1 i layers (set_bit_map i layers)
set_bit_map_lem i [] k h small = absurd (omega arith)
set_bit_map_lem i (layer ∷ above) k h small = set_bit_map-Lift i (layer ∷ above) k h small

-- On a linked bitmap `FreeBitMap` clears the slot of its index and no other, and keeps the layers linked.
pub free_bit_map_lem :
    (i : ℕ) (layers : List (List ℕ))
    → IsLinked layers
    → i < slots layers
    → i < 2 ^ 63
    → Changed 0 i layers (free_bit_map i layers)
free_bit_map_lem i [] k h small = absurd (omega arith)
free_bit_map_lem i (layer ∷ above) k h small = free_bit_map-Lift i (layer ∷ above) k h small

-- On a linked bitmap whose slot of the index is clear, `SetBitMap` and then `FreeBitMap` leave every slot as
-- it was, and the layers linked.
pub free_bit_map-set_bit_map :
    (i : ℕ) (layers : List (List ℕ))
    → IsLinked layers
    → i < slots layers
    → i < 2 ^ 63
    → slot layers i ≡ 0
    → let back = free_bit_map i (set_bit_map i layers) in
      IsLinked back × ((j : ℕ) → slot back j ≡ slot layers j)
free_bit_map-set_bit_map i layers k h small clear =
    let s = set_bit_map_lem i layers k h small in
    let f = free_bit_map_lem i (set_bit_map i layers) s.linked (omega (arith, s.same, h)) small in
    (
      f.linked,
      λ j. f.only j ∙ elim (Bool-cases (j == i)) [
        | inl here ↦
            let e : j ≡ i = ground (arith, here) in rw here (sym (ap (slot layers) e ∙ clear))
        | inr other ↦ rw other (s.only j ∙ rw other refl)
      ],
    )
