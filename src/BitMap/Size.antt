-- ===== src/BitMap/Size.antt =====
-- The constructor of `BitMap`.
use flow_bundler.Common.{
  ℕ, zero, suc, ◌+◌, ◌*◌, ◌/◌, ◌^◌, ◌%◌, ◌<◌, ◌≤◌, ◌≡◌, refl, ap, sym, ◌∙◌, List, length-replicate,
  get_or, get_or-replicate, replicate, u64, shl64, ◌==◌, if◌then◌else◌, some, eq_or_ne, lt_or_le,
  lt→ltb, ltb-false, inl, inr, arith, false,
}
use flow_bundler.Common.Bits.Masks.{bit-zero, two-pow-le, two-pow-add}
use flow_bundler.BitMap.{count_layers, zero_layers, create}
use flow_bundler.BitMap.Links.{Above, IsLinked, slots, slot}

power-suc : (n : ℕ) → 2 ^ (suc n * 6) ≡ 64 * 2 ^ (n * 6)
power-suc n =
    let e : suc n * 6 ≡ 6 + n * 6 = omega arith in ap (λ (k : ℕ). 2 ^ k) e ∙ two-pow-add 6 (n * 6)

layer_size : (n : ℕ) → n < 10 → shl64 1 (n * 6) ≡ 2 ^ (n * 6)
layer_size n h =
    let le : 2 ^ (n * 6) ≤ 2 ^ 54 = two-pow-le (n * 6) 54 (omega arith) in
    let small : n * 6 % 64 ≡ n * 6 = omega arith in rw small (omega arith)

zeros : (n w : ℕ) → get_or (replicate {A = ℕ} n 0) w 0 ≡ 0
zeros n w = get_or-replicate n w 0

Above-zero_layers : (n : ℕ) → n < 10 → Above (replicate (shl64 1 (n * 6)) 0) (zero_layers n)
unfolding zero_layers
Above-zero_layers zero h = refl
Above-zero_layers (suc n) h = (
  (length-replicate {A = ℕ} (shl64 1 (suc n * 6)) 0
      ∙ layer_size (suc n) h
      ∙ power-suc n
      ∙ ap (λ (k : ℕ). 64 * k)
          (sym (length-replicate {A = ℕ} (shl64 1 (n * 6)) 0 ∙ layer_size n (omega arith)))),
  λ w hw. rw (zeros (shl64 1 (n * 6)) (w / 64), zeros (shl64 1 (suc n * 6)) w) (bit-zero (w % 64)),
)

-- Ten layers have the bits for 2 ^ 60 slots.
pub zero_layers-IsLinked : (n : ℕ) → n ≤ 10 → IsLinked (zero_layers n)
unfolding zero_layers
zero_layers-IsLinked zero h = tt
zero_layers-IsLinked (suc n) h = (
  (λ w. rw (zeros (shl64 1 (n * 6)) w) (omega arith)),
  Above-zero_layers n (omega arith),
  zero_layers-IsLinked n (omega arith),
)

slots-zero_layers : (n : ℕ) → n < 10 → slots (zero_layers (suc n)) ≡ 2 ^ (suc n * 6)
unfolding zero_layers
slots-zero_layers n h =
    ap (λ (k : ℕ). 64 * k) (length-replicate {A = ℕ} (shl64 1 (n * 6)) 0 ∙ layer_size n h)
    ∙ sym (power-suc n)

pub slot-zero_layers : (n j : ℕ) → slot (zero_layers n) j ≡ 0
unfolding zero_layers
slot-zero_layers zero j = refl
slot-zero_layers (suc n) j = rw (zeros (shl64 1 (n * 6)) (j / 64)) (bit-zero (j % 64))

-- The loop ends at the first power of 64 that is not below the number of slots.
count_layers_lem :
    (fuel wanted n : ℕ)
    → wanted ≤ 2 ^ 60
    → n ≤ 10
    → 11 ≤ fuel + n
    → (m : ℕ) × (count_layers fuel wanted (2 ^ (n * 6)) n ≡ some m)
      × (n ≤ m)
      × (m ≤ 10)
      × (wanted ≤ 2 ^ (m * 6))
      × (n < m → 2 ^ (m * 6) < 64 * wanted)
unfolding count_layers
count_layers_lem zero wanted n h le fuel = absurd (omega arith)
count_layers_lem (suc fuel) wanted n h le enough = elim (lt_or_le (2 ^ (n * 6)) wanted) [
  | inr reached ↦ (
    n,
    rw (ltb-false (2 ^ (n * 6)) wanted reached) refl,
    omega arith,
    le,
    reached,
    λ k. absurd (omega arith),
  )
  | inl more ↦
      let cap : n < 10 = elim (lt_or_le n 10) [
        | inl lt ↦ lt
        | inr ge ↦
            let big : 2 ^ 60 ≤ 2 ^ (n * 6) = two-pow-le 60 (n * 6) (omega arith) in
            absurd (omega arith)
      ] in
      let next : u64 (2 ^ (n * 6) * 64) ≡ 2 ^ ((n + 1) * 6) =
        (let le54 : 2 ^ (n * 6) ≤ 2 ^ 54 = two-pow-le (n * 6) 54 (omega arith) in
          let e : (n + 1) * 6 ≡ suc n * 6 = omega arith in
          omega (arith, le54, ap (λ (k : ℕ). 2 ^ k) e, power-suc n)) in
      let (m, e, lo, hi, room, tight) =
        count_layers_lem fuel wanted (n + 1) h (omega arith) (omega arith) in
      (
        m,
        rw (lt→ltb (2 ^ (n * 6)) wanted more, next) e,
        omega arith,
        hi,
        room,
        λ k. elim (lt_or_le (n + 1) m) [
          | inl lt ↦ tight lt
          | inr ge ↦
              let e : m * 6 ≡ suc n * 6 = omega arith in
              omega (arith, ap (λ (i : ℕ). 2 ^ i) e, power-suc n)
        ],
      )
]

-- What the constructor makes for `wanted` slots.
pub record Created (wanted : ℕ) (layers : List (List ℕ)) : Type 0 where
  pub linked : IsLinked layers
  pub enough : wanted ≤ slots layers
  pub tight : slots layers ≤ 64 * wanted
  pub clear : (j : ℕ) → slot layers j ≡ 0

layers_lem :
    (n wanted : ℕ)
    → 0 < n
    → n ≤ 10
    → wanted ≤ 2 ^ (n * 6)
    → 2 ^ (n * 6) ≤ 64 * wanted
    → Created wanted (zero_layers n)
layers_lem zero wanted pos le a b = absurd (omega arith)
layers_lem (suc n) wanted pos le a b =
    let size = slots-zero_layers n (omega arith) in
    record {
      linked = zero_layers-IsLinked (suc n) le;
      enough = rw size a;
      tight = rw size b;
      clear = slot-zero_layers (suc n);
    }

-- The constructor ends for up to 2 ^ 60 slots, with linked layers that have a slot for each, at most 64
-- times as many, and all clear.
pub create-Created :
    (wanted : ℕ)
    → 0 < wanted
    → wanted ≤ 2 ^ 60
    → (layers : List (List ℕ)) × (create wanted ≡ some layers) × Created wanted layers
unfolding create
create-Created wanted pos h =
    let (m, e, _, hi, room, tight) = count_layers_lem 12 wanted 0 h (omega arith) (omega arith) in
    let n = if wanted == 1 then m + 1 else m in
    (
      zero_layers n,
      rw (e, create) refl,
      elim (eq_or_ne m 0) [
        | inl z ↦
            let one : wanted ≡ 1 = omega (arith, ap (λ (i : ℕ). 2 ^ (i * 6)) z) in
            let same : n ≡ 1 = ground arith in
            rw same (layers_lem 1 wanted (omega arith) (omega arith) (omega arith) (omega arith))
        | inr more ↦
            let size = tight (omega arith) in
            let le : 2 ^ (1 * 6) ≤ 2 ^ (m * 6) = two-pow-le (1 * 6) (m * 6) (omega arith) in
            let test : (wanted == 1) ≡ false = ground arith in
            rw test (layers_lem m wanted (omega arith) hi room (omega arith))
      ],
    )
