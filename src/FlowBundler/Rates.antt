-- ===== src/FlowBundler/Rates.antt =====
-- `FindQueueIndex`: the queue of a rate has the granularity at which one MTU packet is sent.
use flow_bundler.Common.{
  ℕ, suc, ◌+◌, ◌-◌, ◌*◌, ◌/◌, ◌^◌, ◌<◌, ◌≤◌, ◌≡◌, ◌≢◌, ap, ◌∙◌, ltb, if◌then◌else◌, arith, inl, inr,
  lt_or_le, min,
}
use flow_bundler.Common.Bits.Masks.{two-pow-pos, two-pow-add, two-pow-suc}
use flow_bundler.Common.Bits.Scan.{clz64, bit_length-le, bit_length_bounds}
use native.Mathlib.Nat.{pow-le-pow_right, le-div_iff_mul-le, div-le_self, mul-le-mul}
use flow_bundler.FlowBundler.Geometry.{Geometry, IsGeometry, find_queue_index}

-- A 64-bit word other than 0 with `k` as its binary logarithm has `63 - k` leading zeros.
clz64_log :
    (x : ℕ)
    → x ≢ 0
    → x < 2 ^ 64
    → (k : ℕ) × (k ≤ 63) × (clz64 x ≡ 63 - k) × (2 ^ k ≤ x) × (x < 2 ^ suc k)
unfolding clz64
clz64_log x h b =
    let (k, len, lo, hi) = bit_length_bounds 64 x h b in
    (k, omega (arith, bit_length-le 64 x), omega arith, lo, hi)

max_rate_pos : (g : Geometry) → IsGeometry g → (0 < g.max_rate) × (g.max_rate < 2 ^ 64)
max_rate_pos g valid =
    let d = 2 ^ g.min_gran_scale in
    let gran : g.min_gran_scale ≤ 32 = omega (arith, valid.gran) in
    let small : d ≤ 2 ^ 32 = pow-le-pow_right (omega arith) gran in
    let one : 1 ≤ 12_000_000_000 / d =
      (le-div_iff_mul-le (two-pow-pos g.min_gran_scale)).1 (omega arith) in
    (omega (arith, valid.rate), omega (arith, valid.rate, div-le_self 12_000_000_000 d))

log_mono : (j k x y : ℕ) → 2 ^ j ≤ x → x ≤ y → y < 2 ^ suc k → j ≤ k
log_mono j k x y lo le hi = elim (lt_or_le k j) [
  | inl lt ↦
      let grows : 2 ^ suc k ≤ 2 ^ j = pow-le-pow_right (omega arith) lt in absurd (omega arith)
  | inr ge ↦ ge
]

-- Numbers with logarithms `j` and `k` differ by the factor `2 ^ (k - j)`, up to two.
scaled :
    (j k x m : ℕ)
    → j ≤ k
    → 2 ^ j ≤ x
    → x < 2 ^ suc j
    → 2 ^ k ≤ m
    → m < 2 ^ suc k
    → (m < 2 * (x * 2 ^ (k - j))) × (x * 2 ^ (k - j) < 2 * m)
scaled j k x m h lo hi lo' hi' =
    let index : k ≡ j + (k - j) = omega arith in
    let split : 2 ^ k ≡ 2 ^ j * 2 ^ (k - j) = ap (λ i. 2 ^ i) index ∙ two-pow-add j (k - j) in
    let lower : 2 ^ j * 2 ^ (k - j) ≤ x * 2 ^ (k - j) = mul-le-mul lo (omega arith) in
    let upper : x * 2 ^ (k - j) + 2 ^ (k - j) ≤ 2 ^ suc j * 2 ^ (k - j) =
      (let step : suc x * 2 ^ (k - j) ≤ 2 ^ suc j * 2 ^ (k - j) = mul-le-mul hi (omega arith) in
        omega arith) in
    omega
      (arith, two-pow-suc k, two-pow-pos (k - j), ap (λ (t : ℕ). t * 2 ^ (k - j)) (two-pow-suc j))

-- The effective rate, its logarithm and that of the maximal rate give the queue.
record Logs (g : Geometry) (rate : ℕ) : Type 0 where
  low : ℕ
  high : ℕ
  order : low ≤ high
  small : high ≤ 63
  queue : find_queue_index g rate ≡ high - low
  low_le : 2 ^ low ≤ min rate g.max_rate
  lt_low : min rate g.max_rate < 2 ^ suc low
  high_le : 2 ^ high ≤ g.max_rate
  lt_high : g.max_rate < 2 ^ suc high

logs : (g : Geometry) (rate : ℕ) → IsGeometry g → 0 < rate → Logs g rate
unfolding find_queue_index
logs g rate valid pos =
    let top = max_rate_pos g valid in
    let (j, j_le, clz_j, lo_j, hi_j) =
      clz64_log (min rate g.max_rate) (omega arith) (omega arith) in
    let (k, k_le, clz_k, lo_k, hi_k) = clz64_log g.max_rate (omega arith) (omega arith) in
    let order : j ≤ k = log_mono j k (min rate g.max_rate) g.max_rate lo_j (omega arith) hi_k in
    let effective : (if ltb rate g.max_rate then rate else g.max_rate) ≡ min rate g.max_rate =
      ground arith in
    record {
      low = j;
      high = k;
      order = order;
      small = k_le;
      queue = rw (effective, valid.top, clz_j, clz_k) (omega arith);
      low_le = lo_j;
      lt_low = hi_j;
      high_le = lo_k;
      lt_high = hi_k;
    }

-- In a valid calendar the queue of a positive rate is one of the 64, and its granularity is, up to
-- a factor of two, the `max_rate / rate` granules in which a flow of that rate, capped at
-- `max_rate`, sends one packet.
pub find_queue_index_bounds :
    (g : Geometry) (rate : ℕ)
    → IsGeometry g
    → 0 < rate
    → (find_queue_index g rate < 64)
      × (g.max_rate < 2 * (min rate g.max_rate * 2 ^ find_queue_index g rate))
      × (min rate g.max_rate * 2 ^ find_queue_index g rate < 2 * g.max_rate)
find_queue_index_bounds g rate valid pos =
    let l = logs g rate valid pos in
    let (above, below) =
      scaled l.low l.high (min rate g.max_rate) g.max_rate l.order l.low_le l.lt_low l.high_le
        l.lt_high in
    rw l.queue (omega (arith, l.small), above, below)

-- In a valid calendar the faster of two flows with positive rates never gets a coarser queue.
pub find_queue_index_mono :
    (g : Geometry) (r r' : ℕ)
    → IsGeometry g
    → 0 < r
    → r ≤ r'
    → find_queue_index g r' ≤ find_queue_index g r
find_queue_index_mono g r r' valid pos le =
    let a = logs g r valid pos in
    let b = logs g r' valid (omega arith) in
    let faster : a.low ≤ b.low =
      log_mono a.low b.low (min r g.max_rate) (min r' g.max_rate) a.low_le (omega arith) b.lt_low in
    let same : b.high ≤ a.high =
      log_mono b.high a.high g.max_rate g.max_rate b.high_le (omega arith) a.lt_high in
    omega (arith, a.queue, b.queue)
