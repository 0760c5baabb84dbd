-- ===== src/Common/Bits/Scan.antt =====
-- `__builtin_ffsll`, one plus the index of the lowest set bit, and `__builtin_clzll`, the number of
-- leading zeros of a 64-bit word. The latter is undefined at 0, where this definition gives 64.
use Prim.Native.Nat.{ℕ, zero, suc, ◌+◌, ◌-◌, ◌*◌, ◌/◌, ◌%◌, ◌^◌, ◌≤◌, ◌<◌, bit_or}
use mathlib.Core.Path.{◌≡◌, refl, ap, sym}
use mathlib.Core.Logic.{◌≢◌, inl, inr}
use mathlib.Core.Bool.{false}
use native.Mathlib.Omega.{arith}
use flow_bundler.Common.Tests.{◌==◌, if◌then◌else◌, ==_iff, eq_or_ne}
use flow_bundler.Common.Bits.Digits.{bit, bit-bit_or, bit_or_step}
use flow_bundler.Common.Bits.Masks.{two-pow-suc, two-pow-pos, mod-pow-suc, bit-zero, bit-two-pow}

-- The trailing zeros of `x`, at most `n`.
unfoldable pub ctz : ℕ → ℕ → ℕ
ctz zero x = 0
ctz (suc n) x = if x % 2 == 1 then 0 else suc (ctz n (x / 2))

unfoldable pub ffs64 : ℕ → ℕ
unfolding ctz
ffs64 x = if x == 0 then 0 else suc (ctz 64 x)

-- The digits of `x` up to the highest set one, at most `n`.
unfoldable pub bit_length : ℕ → ℕ → ℕ
bit_length zero x = 0
bit_length (suc n) x = if x == 0 then 0 else suc (bit_length n (x / 2))

unfoldable pub clz64 : ℕ → ℕ
unfolding bit_length
clz64 x = 64 - bit_length 64 x

pub ctz-le : (n x : ℕ) → ctz n x ≤ n
unfolding ctz
ctz-le zero x = omega arith
ctz-le (suc n) x = ground (arith, ctz-le n (x / 2))

-- Below a nonzero bound the scan stops at a set bit, inside the word.
pub ctz-lt : (n x : ℕ) → x ≢ 0 → x < 2 ^ n → ctz n x < n
unfolding ctz
ctz-lt zero x h hx = absurd (h (omega arith))
ctz-lt (suc n) x h hx = ground (arith, two-pow-suc n, ctz-lt n (x / 2))

pub bit-ctz : (n x : ℕ) → x ≢ 0 → x < 2 ^ n → bit (ctz n x) x ≡ 1
unfolding ctz
bit-ctz zero x h hx = absurd (h (omega arith))
bit-ctz (suc n) x h hx = ground (arith, two-pow-suc n, bit-ctz n (x / 2))

-- Every bit below the one that the scan stops at is clear.
pub bit_below_ctz : (n x i : ℕ) → i < ctz n x → bit i x ≡ 0
unfolding ctz
bit_below_ctz zero x i h = absurd (omega arith)
bit_below_ctz (suc n) x zero h = ground arith
bit_below_ctz (suc n) x (suc i) h = ground (arith, bit_below_ctz n (x / 2) i)

-- Conversely the scan stops at the first set bit.
pub ctz_unique : (n k x : ℕ) → k < n → bit k x ≡ 1 → x % 2 ^ k ≡ 0 → ctz n x ≡ k
unfolding ctz
ctz_unique zero k x h b m = absurd (omega arith)
ctz_unique (suc n) zero x h b m = ground arith
ctz_unique (suc n) (suc k) x h b m = ground (arith, mod-pow-suc x k, ctz_unique n k (x / 2))

pub mod-two-pow-ctz : (n x : ℕ) → x % 2 ^ ctz n x ≡ 0
unfolding ctz
mod-two-pow-ctz zero x = omega arith
mod-two-pow-ctz (suc n) x = elim (eq_or_ne (x % 2) 1) [
  | inl odd ↦ rw ((==_iff (x % 2) 1).1 odd) (omega arith)
  | inr even ↦
      let e : (x % 2 == 1) ≡ false = ground arith in
      rw e (omega (arith, mod-pow-suc x (ctz n (x / 2)), mod-two-pow-ctz n (x / 2)))
]

-- `x | 1 << n` scanned up to bit `n` stops where `x` does, or at bit `n`.
pub ctz-bit_or_top : (n x : ℕ) → ctz (suc n) (bit_or x (2 ^ n)) ≡ ctz n x
unfolding ctz
ctz-bit_or_top zero x = ground (arith, bit_or_step x 1)
ctz-bit_or_top (suc n) x =
    let half : bit_or x (2 ^ suc n) / 2 ≡ bit_or (x / 2) (2 ^ n) =
      omega (arith, bit_or_step x (2 ^ suc n), ap (bit_or (x / 2)) two-half) in
    let low : bit_or x (2 ^ suc n) % 2 ≡ x % 2 =
      omega (arith, bit_or_step x (2 ^ suc n), two-pow-suc n) in
    rw (half, low) (ap (λ t. if x % 2 == 1 then 0 else suc t) (ctz-bit_or_top n (x / 2)))
  where
    two-half : 2 ^ suc n / 2 ≡ 2 ^ n
    two-half = omega (arith, two-pow-suc n)

-- More room changes nothing once a set bit is inside.
pub ctz-suc : (n x : ℕ) → x ≢ 0 → x < 2 ^ n → ctz (suc n) x ≡ ctz n x
ctz-suc n x h b =
    ctz_unique (suc n) (ctz n x) x (omega (arith, ctz-le n x)) (bit-ctz n x h b)
      (mod-two-pow-ctz n x)

ctz_double : (n y : ℕ) → y ≢ 0 → 2 * y < 2 ^ n → ctz n (2 * y) ≡ suc (ctz n y)
unfolding ctz
ctz_double zero y h b = absurd (h (omega arith))
ctz_double (suc n) y h b =
    let half : 2 * y / 2 ≡ y = omega arith in
    let even : (2 * y % 2 == 1) ≡ false = ground arith in
    rw (even, half) (ap suc (sym (ctz-suc n y h (omega (arith, two-pow-suc n)))))

-- Shifting left by `k` moves the lowest set bit by `k`.
pub ctz_mul : (n k x : ℕ) → x ≢ 0 → x * 2 ^ k < 2 ^ n → ctz n (x * 2 ^ k) ≡ k + ctz n x
ctz_mul n zero x h b = let e : x * 2 ^ 0 ≡ x = omega arith in rw e (omega arith)
ctz_mul n (suc k) x h b =
    let e : x * 2 ^ suc k ≡ 2 * (x * 2 ^ k) =
      omega (arith, ap (λ (t : ℕ). x * t) (two-pow-suc k)) in
    let pos : x * 2 ^ k ≢ 0 = grind (arith, two-pow-pos k) in
    rw e (
      omega (
        arith,
        ctz_double n (x * 2 ^ k) pos (rw e at b),
        ctz_mul n k x h (omega (arith, rw e at b)),
      ))

pub ctz-zero : (n : ℕ) → ctz n 0 ≡ n
unfolding ctz
ctz-zero zero = refl
ctz-zero (suc n) = ap suc (ctz-zero n)

bit_or_top-ne-zero : (n x : ℕ) → bit_or x (2 ^ n) ≢ 0
bit_or_top-ne-zero n x e =
    ground (arith, bit-bit_or n x (2 ^ n), bit-two-pow n n, ap (bit n) e, bit-zero n)

-- `ffs(x | 1 << 63)` is one more than the trailing zeros, counted up to 63.
pub ffs64_or_top : (x : ℕ) → ffs64 (bit_or x (2 ^ 63)) ≡ suc (ctz 63 x)
unfolding ffs64
ffs64_or_top x =
    let ne : (bit_or x (2 ^ 63) == 0) ≡ false = ground (arith, bit_or_top-ne-zero 63 x) in
    rw ne (ap suc (ctz-bit_or_top 63 x))

pub bit_length-le : (n x : ℕ) → bit_length n x ≤ n
unfolding bit_length
bit_length-le zero x = omega arith
bit_length-le (suc n) x = ground (arith, bit_length-le n (x / 2))

bit_length-zero : (n : ℕ) → bit_length n 0 ≡ 0
unfolding bit_length
bit_length-zero zero = refl
bit_length-zero (suc n) = refl

-- The bit length of a nonzero number is one more than its binary logarithm.
pub bit_length_bounds :
    (n x : ℕ)
    → x ≢ 0
    → x < 2 ^ n
    → (k : ℕ) × (bit_length n x ≡ suc k) × (2 ^ k ≤ x) × (x < 2 ^ suc k)
unfolding bit_length
bit_length_bounds zero x h b = absurd (h (omega arith))
bit_length_bounds (suc n) x h b =
    let pos : (x == 0) ≡ false = ground arith in
    elim (eq_or_ne (x / 2) 0) [
      | inl one ↦ (0, rw (pos, one) (ap suc (bit_length-zero n)), omega arith, omega arith)
      | inr more ↦
          let (k, len, lo, hi) = bit_length_bounds n (x / 2) more (omega (arith, two-pow-suc n)) in
          (
            suc k,
            rw pos (ap suc len),
            omega (arith, two-pow-suc k),
            omega (arith, two-pow-suc (suc k)),
          )
    ]

pub bit_length_mono : (n x y : ℕ) → x ≤ y → bit_length n x ≤ bit_length n y
unfolding bit_length
bit_length_mono zero x y h = omega arith
bit_length_mono (suc n) x y h = ground (arith, bit_length_mono n (x / 2) (y / 2))
