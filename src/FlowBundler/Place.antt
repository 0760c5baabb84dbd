-- ===== src/FlowBundler/Place.antt =====
-- `FindRealLocation`: the place of a send time depends only on the time slot that it is rounded up
-- to, and not on the queue that the search starts from.
use flow_bundler.Common.{
  ℕ, ◌+◌, ◌-◌, ◌*◌, ◌/◌, ◌%◌, ◌^◌, ◌<◌, ◌≤◌, ◌≡◌, ◌≢◌, refl, u64, sym, ap, ◌∙◌, leb, ◌==◌,
  if◌then◌else◌, u32, arith, eq_or_ne, inl, inr, bit_or, bit_and, false,
}
use flow_bundler.Common.Bits.Masks.{two-pow-pos, two-pow-add, bit_and_ones}
use flow_bundler.Common.Bits.Scan.{
  ffs64_or_top, ctz-zero, ctz, ctz-le, ctz-lt, ctz_mul, ffs64, mod-two-pow-ctz,
}
use flow_bundler.FlowBundler.Geometry.{
  Geometry, IsGeometry, Location, find_bucket_index, find_real_location,
}
use flow_bundler.FlowBundler.Slots.{
  ceil_div, ceil_div-lower, ceil_div-upper, ceil_div-mul, ceil_div-ceil_div, find_bucket_index_lem,
}
use Prim.Native.Nat.{bit_and-bitwise}
use native.Mathlib.Nat.{div-add-mod, mul-div_cancel, zero-div, div-div-eq-div-mul}

module _ (g : Geometry) where
  open g use {bucket_num_scale, min_gran_scale}

  -- The time at which a packet with this send time is due: the next multiple of the granularity.
  abbrev pub slot_time : ℕ → ℕ → ℕ
  slot_time q t = ceil_div t (2 ^ (q + min_gran_scale)) * 2 ^ (q + min_gran_scale)

  -- The queue is given by the trailing zeros of the slot, the bucket by the digits above them.
  abbrev pub place : ℕ → Location
  place slot = if slot == 0 then record { queue_id = 63; bucket_id = 0 } else record {
    queue_id = ctz 63 slot - min_gran_scale;
    bucket_id = slot / 2 ^ ctz 63 slot % 2 ^ bucket_num_scale;
  }

-- Dividing by a power of two that a number is a multiple of.
div-mul_pow : (b c : ℕ) → b % 2 ^ c ≡ 0 → b / 2 ^ c * 2 ^ c ≡ b
div-mul_pow b c e = omega (arith, div-add-mod b (2 ^ c))

find_bucket_index-zero : (g : Geometry) (q : ℕ) → find_bucket_index g q 0 ≡ 0
unfolding find_bucket_index
find_bucket_index-zero g q =
    let shifted : u64 (0 * 2 ^ (u32 (q + g.min_gran_scale) % 64)) ≡ 0 = omega arith in
    rw (zero-div, shifted)

-- The slot `b * 2 ^ s` of a time `t`, searched for from queue `q`.
module _ (g : Geometry) (q t s b : ℕ) (valid : IsGeometry g) (gran : q + g.min_gran_scale ≡ s)
    (round : ceil_div t (2 ^ s) ≡ b) (fits : s < 64) (early : b * 2 ^ s < 2 ^ 63) where
  open g use {bucket_num_scale, min_gran_scale}

  early_time : t < 2 ^ 63
  early_time =
      omega (arith, ceil_div-lower t (2 ^ s) (two-pow-pos s), ap (λ (x : ℕ). x * 2 ^ s) round)

  index_of : find_bucket_index g q t ≡ b
  index_of =
      find_bucket_index_lem g q t (omega arith) early_time
      ∙ ap (λ k. ceil_div t (2 ^ k)) gran
      ∙ round

  slot_pos : b ≢ 0 → b * 2 ^ s ≢ 0
  slot_pos h = grind (arith, two-pow-pos s)

  -- A slot other than 0 has its lowest set bit above the granularity and inside the word.
  ctz-slot : b ≢ 0 → ctz 63 (b * 2 ^ s) ≡ s + ctz 63 b
  ctz-slot h = ctz_mul 63 s b h early

  ctz_bound : b ≢ 0 → s + ctz 63 b < 63
  ctz_bound h = omega (arith, ctz-slot h, ctz-lt 63 (b * 2 ^ s) (slot_pos h) early)

  -- In the queue of the slot the bucket index is exact.
  index_in_queue : b ≢ 0 → find_bucket_index g (q + ctz 63 b) t ≡ b / 2 ^ ctz 63 b
  index_in_queue h =
      let c = ctz 63 b in
      let sum : q + c + min_gran_scale ≡ c + s = omega arith in
      let exact : ceil_div b (2 ^ c) ≡ b / 2 ^ c =
        ap (λ x. ceil_div x (2 ^ c)) (sym (div-mul_pow b c (mod-two-pow-ctz 63 b)))
        ∙ ceil_div-mul (b / 2 ^ c) (2 ^ c) (two-pow-pos c) in
      find_bucket_index_lem g (q + c) t (omega (arith, ctz_bound h)) early_time
      ∙ ap (λ k. ceil_div t (2 ^ k)) sum
      ∙ ap (ceil_div t) (two-pow-add c s)
      ∙ sym (ceil_div-ceil_div t (2 ^ s) (2 ^ c) (two-pow-pos s) (two-pow-pos c))
      ∙ ap (λ x. ceil_div x (2 ^ c)) round
      ∙ exact

  digits-slot : b * 2 ^ s / 2 ^ (s + ctz 63 b) ≡ b / 2 ^ ctz 63 b
  digits-slot =
      ap (λ k. b * 2 ^ s / k) (two-pow-add s (ctz 63 b))
      ∙ sym (div-div-eq-div-mul (b * 2 ^ s) (2 ^ s) (2 ^ ctz 63 b))
      ∙ ap (λ k. k / 2 ^ ctz 63 b) (mul-div_cancel b (two-pow-pos s))

  queue_of : u32 (q + ffs64 (bit_or b (2 ^ 63)) - 1) ≡ q + ctz 63 b
  queue_of = rw (ffs64_or_top b) (omega (arith, ctz-le 63 b))

  found :
      b ≢ 0
      → find_real_location g q t
        ≡ record { queue_id = q + ctz 63 b; bucket_id = b / 2 ^ ctz 63 b % 2 ^ bucket_num_scale }
  unfolding find_real_location
  found h =
      let inside : leb 64 (q + ctz 63 b) ≡ false = ground (arith, ctz_bound h) in
      rw (index_of, queue_of, inside, index_in_queue h, valid.mask, bit_and_ones)

  expected :
      b ≢ 0
      → place g (b * 2 ^ s)
        ≡ record { queue_id = q + ctz 63 b; bucket_id = b / 2 ^ ctz 63 b % 2 ^ bucket_num_scale }
  expected h =
      let pos : (b * 2 ^ s == 0) ≡ false = ground (arith, slot_pos h) in
      let queue : s + ctz 63 b - min_gran_scale ≡ q + ctz 63 b = omega arith in
      rw (pos, ctz-slot h, digits-slot, queue)

  found_at_zero : b ≡ 0 → find_real_location g q t ≡ place g (b * 2 ^ s)
  unfolding find_real_location
  found_at_zero e =
      let start : t ≡ 0 =
        omega (
          arith,
          ceil_div-lower t (2 ^ s) (two-pow-pos s),
          ap (λ (x : ℕ). x * 2 ^ s) (round ∙ e),
        ) in
      let queue : u32 (q + ffs64 (bit_or 0 (2 ^ 63)) - 1) ≡ q + 63 =
        rw (ffs64_or_top 0, ctz-zero) (omega arith) in
      let top : (if leb 64 (q + 63) then 63 else q + 63) ≡ 63 = ground arith in
      let slot : 0 * 2 ^ s ≡ 0 = omega arith in
      let masked : bit_and 0 g.bid_mask ≡ 0 = bit_and-bitwise 0 g.bid_mask in
      rw (e, slot, start, find_bucket_index-zero, queue, top, find_bucket_index-zero, masked)

  location-place : find_real_location g q t ≡ place g (b * 2 ^ s)
  location-place = elim (eq_or_ne b 0) [
    | inl e ↦ found_at_zero e
    | inr h ↦ found h ∙ sym (expected h)
  ]

-- For the constants of a valid calendar and slots before 2 ^ 63: the place of a packet is that of
-- the slot at which it is due, for every queue that the search may start from.
pub find_real_location-place :
    (g : Geometry) (q t : ℕ)
    → IsGeometry g
    → q + g.min_gran_scale < 64
    → slot_time g q t < 2 ^ 63
    → find_real_location g q t ≡ place g (slot_time g q t)
find_real_location-place g q t valid fits early =
    location-place g q t _ _ valid refl refl fits early

-- The slot is not before the send time, and less than one granule after it.
pub slot_time_window :
    (g : Geometry) (q t : ℕ)
    → (t ≤ slot_time g q t) × (slot_time g q t < t + 2 ^ (q + g.min_gran_scale))
slot_time_window g q t = (ceil_div-lower t _ (two-pow-pos _), ceil_div-upper t _ (two-pow-pos _))

-- A slot of a coarse queue is a slot of every finer one.
pub slot_time-finer :
    (g : Geometry) (h q t : ℕ) → h ≤ q → slot_time g h (slot_time g q t) ≡ slot_time g q t
slot_time-finer g h q t le =
    let d = 2 ^ (h + g.min_gran_scale) in
    let b = ceil_div t (2 ^ (q + g.min_gran_scale)) in
    let k : q + g.min_gran_scale ≡ q - h + (h + g.min_gran_scale) = omega arith in
    let split : 2 ^ (q + g.min_gran_scale) ≡ 2 ^ (q - h) * d =
      ap (λ x. 2 ^ x) k ∙ two-pow-add (q - h) (h + g.min_gran_scale) in
    let e : slot_time g q t ≡ b * 2 ^ (q - h) * d = omega (arith, ap (λ (x : ℕ). b * x) split) in
    ap (λ x. ceil_div x d * d) e
    ∙ ap (λ x. x * d) (ceil_div-mul (b * 2 ^ (q - h)) d (two-pow-pos _))
    ∙ sym e

-- For the constants of a valid calendar and slots before 2 ^ 63: the dequeue side, which looks
-- from any queue at least as fine, at the time of the slot, looks at the bucket that the packet
-- was put into.
pub find_real_location-finer :
    (g : Geometry) (h q t : ℕ)
    → IsGeometry g
    → h ≤ q
    → q + g.min_gran_scale < 64
    → slot_time g q t < 2 ^ 63
    → find_real_location g h (slot_time g q t) ≡ find_real_location g q t
find_real_location-finer g h q t valid le fits early =
    find_real_location-place g h (slot_time g q t) valid (omega arith)
      (rw (slot_time-finer g h q t le) early)
    ∙ ap (place g) (slot_time-finer g h q t le)
    ∙ sym (find_real_location-place g q t valid fits early)
