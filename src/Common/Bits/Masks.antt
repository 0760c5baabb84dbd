-- ===== src/Common/Bits/Masks.antt =====
-- Masks and single bits: `x & ((1 << k) - 1)`, `x & (~0 << k)`, `m | (1 << k)`, `m & ~(1 << k)`.
use Prim.Native.Nat.{
  ℕ, zero, suc, ◌+◌, ◌-◌, ◌*◌, ◌/◌, ◌%◌, ◌^◌, ◌≤◌, ◌<◌, bit_and, bit_or, bit_and-bitwise,
}
use mathlib.Core.Path.{◌≡◌, refl, ap, ◌∙◌}
use native.Mathlib.Omega.{arith}
use native.Mathlib.Nat.{pow-le-pow_right, pow-suc, one-le-pow, div-div-eq-div-mul, div-add-mod}
use flow_bundler.Common.Bits.Digits.{bit, bit_and_step, bit_or_step}
use flow_bundler.Common.Tests.{◌==◌, if◌then◌else◌}

pub two-pow-pos : (k : ℕ) → 0 < 2 ^ k
two-pow-pos k = one-le-pow k 2 (omega arith)

pub two-pow-suc : (k : ℕ) → 2 ^ suc k ≡ 2 * 2 ^ k
two-pow-suc k = omega (arith, pow-suc 2 k)

pub two-pow-add : (a b : ℕ) → 2 ^ (a + b) ≡ 2 ^ a * 2 ^ b
two-pow-add zero b =
    let e : zero + b ≡ b = omega arith in
    let f : 2 ^ b ≡ 2 ^ zero * 2 ^ b = omega arith in ap (λ k. 2 ^ k) e ∙ f
two-pow-add (suc a) b =
    let e : suc a + b ≡ suc (a + b) = omega arith in
    let f : 2 ^ suc (a + b) ≡ 2 ^ suc a * 2 ^ b =
      omega
        (arith, two-pow-suc (a + b), ap (λ (t : ℕ). t * 2 ^ b) (two-pow-suc a), two-pow-add a b) in
    ap (λ k. 2 ^ k) e ∙ f

pub half-div-pow : (x k : ℕ) → x / 2 / 2 ^ k ≡ x / 2 ^ suc k
half-div-pow x k =
    let e : 2 * 2 ^ k ≡ 2 ^ suc k = omega (arith, two-pow-suc k) in
    div-div-eq-div-mul x 2 (2 ^ k) ∙ ap (λ t. x / t) e

-- Digit `i` is the parity of the number shifted right by `i`.
pub bit-div-pow : (i x : ℕ) → bit i x ≡ x / 2 ^ i % 2
bit-div-pow zero x = omega arith
bit-div-pow (suc i) x = bit-div-pow i (x / 2) ∙ ap (λ t. t % 2) (half-div-pow x i)

pub bit-zero : (i : ℕ) → bit i 0 ≡ 0
bit-zero zero = refl
bit-zero (suc i) = bit-zero i

-- The remainder by `2 ^ k`, from the lowest digit on.
pub mod-pow-suc : (x k : ℕ) → x % 2 ^ suc k ≡ x / 2 % 2 ^ k * 2 + x % 2
mod-pow-suc x k = omega (
  arith,
  div-add-mod x (2 ^ suc k),
  div-add-mod (x / 2) (2 ^ k),
  ap (λ (t : ℕ). t * (x / 2 ^ suc k)) (two-pow-suc k),
  ap (λ (t : ℕ). 2 ^ k * t) (half-div-pow x k),
)

bit_and-zero_below : (n x : ℕ) → x ≤ n → bit_and x 0 ≡ 0
bit_and-zero_below n zero h = refl
bit_and-zero_below zero (suc x) h = absurd (omega arith)
bit_and-zero_below (suc n) (suc x) h =
    omega (arith, bit_and_step (suc x) 0, bit_and-zero_below n (suc x / 2) (omega arith))

pub bit_and-zero : (x : ℕ) → bit_and x 0 ≡ 0
bit_and-zero x = bit_and-zero_below x x (omega arith)

pub zero-bit_and : (x : ℕ) → bit_and 0 x ≡ 0
zero-bit_and x = bit_and-bitwise 0 x

-- `x & ((1 << k) - 1)` keeps the low `k` digits.
pub bit_and_ones : (k x : ℕ) → bit_and x (2 ^ k - 1) ≡ x % 2 ^ k
bit_and_ones zero x = omega (arith, bit_and-zero x)
bit_and_ones (suc k) x = omega (
  arith,
  bit_and_step x (2 ^ suc k - 1),
  two-pow-suc k,
  two-pow-pos k,
  mod-pow-suc x k,
  ap (bit_and (x / 2)) half,
  bit_and_ones k (x / 2),
)
  where
    half : (2 ^ suc k - 1) / 2 ≡ 2 ^ k - 1
    half = omega (arith, two-pow-suc k, two-pow-pos k)

-- `x & (c << k)` looks only at the digits from `k` on.
pub bit_and_shifted : (k x c : ℕ) → bit_and x (c * 2 ^ k) ≡ bit_and (x / 2 ^ k) c * 2 ^ k
bit_and_shifted zero x c =
    let e : c * 2 ^ 0 ≡ c = omega arith in
    let f : x / 2 ^ 0 ≡ x = omega arith in rw (e, f) (omega arith)
bit_and_shifted (suc k) x c = omega (
  arith,
  bit_and_step x (c * 2 ^ suc k),
  ap (λ (t : ℕ). c * t) (two-pow-suc k),
  ap (bit_and (x / 2)) half,
  bit_and_shifted k (x / 2) c,
  ap (λ (t : ℕ). bit_and t c * 2 ^ k) (half-div-pow x k),
  ap (λ (t : ℕ). bit_and (x / 2 ^ suc k) c * t) (two-pow-suc k),
)
  where
    half : c * 2 ^ suc k / 2 ≡ c * 2 ^ k
    half = omega (arith, ap (λ (t : ℕ). c * t) (two-pow-suc k))

-- A single bit.
pub bit-two-pow : (i k : ℕ) → bit i (2 ^ k) ≡ (if i == k then 1 else 0)
bit-two-pow zero zero = refl
bit-two-pow zero (suc k) = ground (arith, two-pow-suc k)
bit-two-pow (suc i) zero = ground (arith, bit-zero i)
bit-two-pow (suc i) (suc k) =
    let half : 2 ^ suc k / 2 ≡ 2 ^ k = omega (arith, two-pow-suc k) in
    rw half (ground (arith, bit-two-pow i k))

-- The digits below `w` of `2 ^ w - 1 - x` are those of `x` turned over.
pub bit-complement : (w i x : ℕ) → x < 2 ^ w → i < w → bit i (2 ^ w - 1 - x) + bit i x ≡ 1
bit-complement zero i x h hi = absurd (omega arith)
bit-complement (suc w) zero x h hi = omega (arith, two-pow-suc w, two-pow-pos w)
bit-complement (suc w) (suc i) x h hi =
    let half : (2 ^ suc w - 1 - x) / 2 ≡ 2 ^ w - 1 - x / 2 = omega (arith, two-pow-suc w) in
    rw half (bit-complement w i (x / 2) (omega (arith, two-pow-suc w)) (omega arith))

pub bit_or-lt : (w a b : ℕ) → a < 2 ^ w → b < 2 ^ w → bit_or a b < 2 ^ w
bit_or-lt zero a b ha hb =
    let ea : a ≡ 0 = omega arith in let eb : b ≡ 0 = omega arith in rw (ea, eb) (omega arith)
bit_or-lt (suc w) a b ha hb = omega (
  arith,
  two-pow-suc w,
  bit_or_step a b,
  bit_or-lt w (a / 2) (b / 2) (omega (arith, two-pow-suc w)) (omega (arith, two-pow-suc w)),
)

pub bit_and-lt : (w a b : ℕ) → a < 2 ^ w → bit_and a b < 2 ^ w
bit_and-lt zero a b h = let e : a ≡ 0 = omega arith in rw e (omega (arith, zero-bit_and b))
bit_and-lt (suc w) a b h = omega (
  arith,
  two-pow-suc w,
  bit_and_step a b,
  bit_and-lt w (a / 2) (b / 2) (omega (arith, two-pow-suc w)),
)

-- A number below `2 ^ k` has no digit from `k` on.
pub bit_of_lt : (k i x : ℕ) → x < 2 ^ k → k ≤ i → bit i x ≡ 0
bit_of_lt zero i x h hi = let e : x ≡ 0 = omega arith in rw e (bit-zero i)
bit_of_lt (suc k) zero x h hi = absurd (omega arith)
bit_of_lt (suc k) (suc i) x h hi =
    bit_of_lt k i (x / 2) (omega (arith, two-pow-suc k)) (omega arith)

pub two-pow-le : (j k : ℕ) → j ≤ k → 2 ^ j ≤ 2 ^ k
two-pow-le j k h = pow-le-pow_right (omega arith) h
