-- ===== src/CircularQueue/Invariant.antt =====
-- The representation invariant of the ring, and that the operations keep it.
use flow_bundler.Common.{
  ℕ, zero, suc, ◌+◌, ◌-◌, ◌*◌, ◌%◌, ◌^◌, ◌<◌, ◌≤◌, ◌≡◌, refl, sym, ap, ◌∙◌, leb, ◌==◌, u32, sub32,
  arith, bit_and, true, false, lt→ltb, ltb-false, subst, ◌⊎◌, length, length-set, length-replicate,
  Bool-cases, inl, inr, lt_or_le,
}
use flow_bundler.Common.Bits.Masks.{two-pow-le, two-pow-pos, two-pow-suc, bit_and_ones}
use flow_bundler.CircularQueue.{
  CircularQueue, double_until, round_size, create, pop, push, reset, is_full,
}
use native.Mathlib.Nat.{mod-lt}

pub record IsRing {ℓ} {A : Type ℓ} (q : CircularQueue A) : Type ℓ where
  pub scale : ℕ
  pub scale_le : scale ≤ 31
  pub size_pow : q.size ≡ 2 ^ scale
  pub head_lt : q.head_pos < q.size
  pub tail_lt : q.tail_pos < q.size
  pub memory_len : length q.memory ≡ q.size

-- The mask `size - 1` is the remainder by the size.
pub masked : (k size x : ℕ) → k ≤ 31 → size ≡ 2 ^ k → bit_and x (sub32 size 1) ≡ x % size
masked k size x h e =
    let small : 2 ^ k ≤ 2 ^ 31 = two-pow-le k 31 h in
    let mask : sub32 size 1 ≡ 2 ^ k - 1 = omega (arith, two-pow-pos k) in
    rw mask (bit_and_ones k x ∙ ap (λ s. x % s) (sym e))

least :
    (j k m size : ℕ) → m ≡ 2 ^ k → m < size → (j ≡ suc k) ⊎ (2 ^ j < 2 * size) → 2 ^ j < 2 * size
least j k m size e more (inl same) = rw same (omega (arith, two-pow-suc k))
least j k m size e more (inr small) = small

-- The doubling loop stops at a power of two that is at least the size, within the rounds given, and
-- at the smallest one.
double_until_lem :
    (rounds size k m : ℕ)
    → k + rounds ≤ 31
    → m ≡ 2 ^ k
    → size ≤ 2 ^ (k + rounds)
    → (j : ℕ) × (j ≤ 31)
      × (double_until rounds size m ≡ 2 ^ j)
      × (size ≤ 2 ^ j)
      × ((j ≡ k) ⊎ (2 ^ j < 2 * size))
unfolding double_until
double_until_lem zero size k m h e fits =
    (k, omega arith, e, subst (λ x. size ≤ 2 ^ x) (omega arith) fits, inl refl)
double_until_lem (suc rounds) size k m h e fits = elim (lt_or_le m size) [
  | inr enough ↦ (k, omega arith, rw (ltb-false m size enough) e, rw (← e) enough, inl refl)
  | inl more ↦
      let cap : 2 ^ suc k ≤ 2 ^ 31 = two-pow-le (suc k) 31 (omega arith) in
      let twice : u32 (m * 2) ≡ 2 ^ suc k = omega (arith, two-pow-suc k) in
      let index : k + suc rounds ≡ suc k + rounds = omega arith in
      let (j, j_le, size_j, enough, small) =
        double_until_lem rounds size (suc k) (u32 (m * 2)) (omega arith) twice
          (subst (λ x. size ≤ 2 ^ x) index fits) in
      (j, j_le, rw (lt→ltb m size more) size_j, enough, inr (least j k m size e more small))
]

-- The constructor rounds up to a power of two, the least that is not below the size asked for, and
-- stops at 2 ^ 31.
pub round_size_lem :
    (size : ℕ)
    → (k : ℕ) × (k ≤ 31)
      × (round_size size ≡ 2 ^ k)
      × (size ≤ 2 ^ 31 → size ≤ round_size size)
      × (1 < size → round_size size < 2 * size)
unfolding round_size
round_size_lem size = elim (lt_or_le size (2 ^ 31)) [
  | inr big ↦
      let test : leb (2 ^ 31) size ≡ true = ground arith in
      rw test (31, omega arith, refl, omega arith, omega arith)
  | inl small ↦
      let test : leb (2 ^ 31) size ≡ false = ground arith in
      let (k, k_le, e, enough, least) =
        double_until_lem 31 size 0 1 (omega arith) refl (omega arith) in
      rw test (
        k,
        k_le,
        e,
        rw e (λ _. enough),
        rw e (λ more. elim least [
          | inl z ↦ let one : 2 ^ k ≡ 1 = ap (λ x. 2 ^ x) z in omega arith
          | inr lt ↦ lt
        ]),
      )
]

module _ {ℓ} {A : Type ℓ} where
  pub create-IsRing : (d : A) (size : ℕ) → IsRing (create d size)
  unfolding create
  create-IsRing d size =
      let (k, k_le, e, _, _) = round_size_lem size in
      let pos : 0 < round_size size = rw e (two-pow-pos k) in
      record {
        scale = k;
        scale_le = k_le;
        size_pow = e;
        head_lt = pos;
        tail_lt = pos;
        memory_len = length-replicate (round_size size) d;
      }

  pub reset-IsRing : (q : CircularQueue A) → IsRing q → IsRing (reset q)
  unfolding reset
  reset-IsRing q v = record {
    scale = v.scale;
    scale_le = v.scale_le;
    size_pow = v.size_pow;
    head_lt = omega (arith, v.head_lt);
    tail_lt = omega (arith, v.tail_lt);
    memory_len = v.memory_len;
  }

  -- One step round the ring.
  pub advance :
      (q : CircularQueue A) (pos : ℕ)
      → IsRing q
      → pos < q.size
      → bit_and (u32 (pos + 1)) (sub32 q.size 1) ≡ (pos + 1) % q.size
  advance q pos v h =
      let cap : 2 ^ v.scale ≤ 2 ^ 31 = two-pow-le v.scale 31 v.scale_le in
      let whole : u32 (pos + 1) ≡ pos + 1 = omega (arith, v.size_pow) in
      rw whole (masked v.scale q.size (pos + 1) v.scale_le v.size_pow)

  pub push-IsRing : (q : CircularQueue A) (x : A) → IsRing q → IsRing (push q x).1
  unfolding push
  push-IsRing q x v = elim (Bool-cases (is_full q)) [
    | inl full ↦ rw full v
    | inr room ↦ rw room (record {
      scale = v.scale;
      scale_le = v.scale_le;
      size_pow = v.size_pow;
      head_lt = v.head_lt;
      tail_lt =
          rw (advance q q.tail_pos v v.tail_lt)
            (mod-lt (q.tail_pos + 1) (omega (arith, v.head_lt)));
      memory_len = length-set q.memory q.tail_pos x ∙ v.memory_len;
    })
  ]

  pub pop-IsRing : (d : A) (q : CircularQueue A) → IsRing q → IsRing (pop d q).1
  unfolding pop
  pop-IsRing d q v = elim (Bool-cases (q.head_pos == q.tail_pos)) [
    | inl empty ↦ rw empty v
    | inr some ↦ rw some (record {
      scale = v.scale;
      scale_le = v.scale_le;
      size_pow = v.size_pow;
      head_lt =
          rw (advance q q.head_pos v v.head_lt)
            (mod-lt (q.head_pos + 1) (omega (arith, v.head_lt)));
      tail_lt = v.tail_lt;
      memory_len = v.memory_len;
    })
  ]
