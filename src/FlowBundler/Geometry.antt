-- ===== src/FlowBundler/Geometry.antt =====
-- bess/core/modules/flowbundler.h: the constants of the multi-level calendar queue, as `Init`
-- computes them, and the arithmetic from a rate and a send time to a queue and a bucket.
use flow_bundler.Common.{
  ℕ, ◌+◌, ◌-◌, ◌*◌, ◌/◌, ◌%◌, ◌^◌, ◌<◌, ◌≡◌, bit_and, bit_or, ltb, leb, if◌then◌else◌, u32, u64,
  sub32, shl64, shr64,
}
use flow_bundler.Common.Bits.Scan.{ffs64, clz64}

abbrev pub queue_num : ℕ
queue_num = 64

abbrev pub mtu : ℕ
mtu = 1500

abbrev pub rate_scale : ℕ
rate_scale = 1_000_000

-- The fields that `Init` sets once.
pub record Geometry : Type 0 where
  pub bucket_num_scale : ℕ  -- uint8_t
  pub bucket_num : ℕ  -- uint64_t
  pub min_gran_scale : ℕ  -- uint8_t
  pub min_gran : ℕ  -- uint64_t
  pub bid_mask : ℕ  -- uint32_t
  pub max_rate : ℕ  -- uint64_t
  pub max_rate_highest_bit : ℕ  -- uint32_t

-- `1 << k` in `int`, widened to a 64-bit word: bit 31 is the sign.
abbrev pub one_shl_int : ℕ → ℕ
one_shl_int k = let p = 2 ^ (k % 32) in if ltb p (2 ^ 31) then p else 2 ^ 64 - p

unfoldable pub init_geometry : ℕ → ℕ → Geometry
init_geometry bucket_scale gran_scale =
    let b = bucket_scale % 256 in
    let g = gran_scale % 256 in
    let rate = shr64 (rate_scale * (mtu * 8)) g in
    record {
      bucket_num_scale = b;
      bucket_num = one_shl_int b;
      min_gran_scale = g;
      min_gran = one_shl_int g;
      bid_mask = sub32 (one_shl_int b) 1;
      max_rate = rate;
      max_rate_highest_bit = clz64 rate;
    }

pub record Location : Type 0 where
  pub queue_id : ℕ  -- uint32_t
  pub bucket_id : ℕ  -- uint64_t

module _ (g : Geometry) where
  open g use {min_gran_scale, bid_mask, max_rate, max_rate_highest_bit}

  -- `_fls` gives an `int`; the difference is a `uint32_t`.
  unfoldable pub find_queue_index : ℕ → ℕ
  find_queue_index rate =
      let r = if ltb rate max_rate then rate else max_rate in sub32 (clz64 r) max_rate_highest_bit

  unfoldable pub find_bucket_index : ℕ → ℕ → ℕ
  find_bucket_index queue_id send_time =
      let s = u32 (queue_id + min_gran_scale) in
      let bucket_id = shr64 send_time s in
      if ltb (shl64 bucket_id s) send_time then u64 (bucket_id + 1) else bucket_id

  unfoldable pub find_real_location : ℕ → ℕ → Location
  find_real_location queue_id send_time =
      let bid = find_bucket_index queue_id send_time in
      let q = u32 (queue_id + ffs64 (bit_or bid (2 ^ 63)) - 1) in
      let q' = if leb queue_num q then queue_num - 1 else q in
      record { queue_id = q'; bucket_id = bit_and (find_bucket_index q' send_time) bid_mask }

-- What `Init` establishes for scaling factors that leave the shifts inside a word.
pub record IsGeometry (g : Geometry) : Type 0 where
  pub scale : g.bucket_num_scale < 31
  pub buckets : g.bucket_num ≡ 2 ^ g.bucket_num_scale
  pub mask : g.bid_mask ≡ 2 ^ g.bucket_num_scale - 1
  pub gran : g.min_gran_scale < 33
  pub rate : g.max_rate ≡ 12_000_000_000 / 2 ^ g.min_gran_scale
  pub top : g.max_rate_highest_bit ≡ clz64 g.max_rate
