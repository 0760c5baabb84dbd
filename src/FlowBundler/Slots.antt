-- ===== src/FlowBundler/Slots.antt =====
-- `FindBucketIndex`: the index is the send time in units of the queue's granularity, rounded up.
use flow_bundler.Common.{
  ℕ, ◌+◌, ◌-◌, ◌*◌, ◌/◌, ◌%◌, ◌^◌, ◌<◌, ◌≤◌, ◌≡◌, sym, ltb, if◌then◌else◌, u32, u64, arith,
  lt_or_le, inl, inr, lt→ltb, ltb-false,
}
use flow_bundler.Common.Bits.Masks.{two-pow-pos}
use flow_bundler.FlowBundler.Geometry.{Geometry, find_bucket_index}
use native.Mathlib.Nat.{
  pow-le-pow_right, div-add-mod, mod-lt, mod-eq_of_lt, div-eq_of_lt-le, lt_of_mul-lt-mul_right,
  div-mul-le_self,
}

-- Division rounding up.
abbrev pub ceil_div : ℕ → ℕ → ℕ
ceil_div t d = (t + (d - 1)) / d

-- The multiple of `d` in the window of length `d` that begins at `t`.
pub ceil_div_unique : (t d b : ℕ) → 0 < d → t ≤ b * d → b * d < t + d → ceil_div t d ≡ b
ceil_div_unique t d b h lo hi = div-eq_of_lt-le d (omega arith) (omega arith)

pub ceil_div-lower : (t d : ℕ) → 0 < d → t ≤ ceil_div t d * d
ceil_div-lower t d h = omega (arith, div-add-mod (t + (d - 1)) d, mod-lt (t + (d - 1)) h)

pub ceil_div-upper : (t d : ℕ) → 0 < d → ceil_div t d * d < t + d
ceil_div-upper t d h = omega (arith, div-add-mod (t + (d - 1)) d, mod-lt (t + (d - 1)) h)

-- The code's test on the remainder rounds up.
ceil_div_cases : (t d : ℕ) → 0 < d → (if ltb (t / d * d) t then t / d + 1 else t / d) ≡ ceil_div t d
ceil_div_cases t d h = elim (lt_or_le (t / d * d) t) [
  | inl lt ↦ rw (lt→ltb _ _ lt) (
      sym (
        ceil_div_unique t d (t / d + 1) h (omega (arith, div-add-mod t d, mod-lt t h))
          (omega arith)))
  | inr le ↦
      rw (ltb-false _ _ le)
        (sym (ceil_div_unique t d (t / d) h le (omega (arith, div-mul-le_self t d))))
]

pub ceil_div-mul : (b d : ℕ) → 0 < d → ceil_div (b * d) d ≡ b
ceil_div-mul b d h = ceil_div_unique (b * d) d b h (omega arith) (omega arith)

-- Rounding up to a multiple of `d * e` can be done in two steps.
pub ceil_div-ceil_div : (t d e : ℕ) → 0 < d → 0 < e → ceil_div (ceil_div t d) e ≡ ceil_div t (e * d)
ceil_div-ceil_div t d e hd he =
    let lo : b < c * e + 1 = lt_of_mul-lt-mul_right d below in
    let hi : c * e < b + e = lt_of_mul-lt-mul_right d above in
    ceil_div_unique b e c he (omega arith) hi
  where
    b : ℕ
    b = ceil_div t d

    c : ℕ
    c = ceil_div t (e * d)

    de : 0 < e * d
    de = grind arith

    below : b * d < (c * e + 1) * d
    below = omega (arith, ceil_div-upper t d hd, ceil_div-lower t (e * d) de)

    above : c * e * d < (b + e) * d
    above = omega (arith, ceil_div-lower t d hd, ceil_div-upper t (e * d) de)

-- `FindBucketIndex` rounds up, for times below 2 ^ 63 and shifts inside the word.
pub find_bucket_index_lem :
    (g : Geometry) (q t : ℕ)
    → q + g.min_gran_scale < 64
    → t < 2 ^ 63
    → find_bucket_index g q t ≡ ceil_div t (2 ^ (q + g.min_gran_scale))
unfolding find_bucket_index
find_bucket_index_lem g q t hs ht =
    let count : u32 (q + g.min_gran_scale) % 64 ≡ q + g.min_gran_scale = omega arith in
    let d = 2 ^ (q + g.min_gran_scale) in
    let whole : u64 (t / d * d) ≡ t / d * d = omega (arith, div-mul-le_self t d) in
    let next : u64 (t / d + 1) ≡ t / d + 1 = omega (arith, native.Mathlib.Nat.div-le_self t d) in
    rw (count, whole, next) (ceil_div_cases t d (two-pow-pos _))
