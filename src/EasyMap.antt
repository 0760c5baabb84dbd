-- ===== src/EasyMap.antt =====
-- bess/core/utils/easy-map.{h,cc} and flow_rate_estimator.{h,cc}: the table of aggregate rates by
-- hashed destination, and the estimator that updates it. A `double` is its bit pattern, and the
-- floating-point operations are a parameter.
pub mod Estimates
pub mod Table
use flow_bundler.Common.{
  ℕ, ◌+◌, ◌-◌, ◌*◌, ◌/◌, ◌%◌, ◌^◌, List, bit_and, bit_xor, u32, u64, sub32, sub64, ltb, leb, ◌==◌,
  if◌then◌else◌, get_or, set, replicate, map,
}
use flow_bundler.CircularQueue.{round_size}

-- IEEE arithmetic on bit patterns, as the compiler and the processor provide it.
pub record Doubles : Type 0 where
  pub of_u64 : ℕ → ℕ
  pub to_u64 : ℕ → ℕ
  pub add : ℕ → ℕ → ℕ
  pub sub : ℕ → ℕ → ℕ
  pub mul : ℕ → ℕ → ℕ
  pub div : ℕ → ℕ → ℕ

-- The constants 1.0, 0.25, 1000000.0 and 20000000.0.
abbrev pub one_double : ℕ
one_double = 0x3ff0_0000_0000_0000

abbrev pub quarter_double : ℕ
quarter_double = 0x3fd0_0000_0000_0000

abbrev pub million_double : ℕ
million_double = 0x412e_8480_0000_0000

abbrev pub initial_rate : ℕ
initial_rate = 0x4173_12d0_0000_0000

pub record EstimateInfo : Type 0 where
  pub rate : ℕ  -- double
  pub total_bytes : ℕ  -- uint64_t
  pub max_ts : ℕ  -- uint64_t
  pub min_ts : ℕ  -- uint64_t
  pub last_bucket : ℕ  -- uint32_t
  pub count : ℕ  -- uint32_t

-- The default constructor and `Reset` set the same fields.
abbrev pub fresh_info : EstimateInfo
fresh_info = record {
  rate = initial_rate;
  total_bytes = 0;
  max_ts = 0;
  min_ts = 2 ^ 64 - 1;
  last_bucket = 2 ^ 32 - 1;
  count = 0;
}

pub record EasyMap : Type 0 where
  pub flow_num : ℕ  -- uint32_t
  pub bucket : List EstimateInfo

unfoldable pub create_map : ℕ → EasyMap
create_map flow_num =
    let n = round_size flow_num in record { flow_num = n; bucket = replicate n fresh_info }

unfoldable pub get_estimate_info : EasyMap → ℕ → EstimateInfo
get_estimate_info m n = get_or m.bucket n fresh_info

unfoldable pub insert : EasyMap → ℕ → ℕ → EasyMap
insert m n rate = record m {
  bucket = set m.bucket n (record (get_or m.bucket n fresh_info) { rate = rate });
}

unfoldable pub do_hash : ℕ → ℕ
do_hash key =
    let a = u32 (bit_xor (key / 2 ^ 16) key * 0x45d9f3b) in
    let b = u32 (bit_xor (a / 2 ^ 16) a * 0x45d9f3b) in bit_xor (b / 2 ^ 16) b

-- The result with the index that goes through the reference `n`.
module _ (fp : Doubles) where
  unfoldable pub get : EasyMap → ℕ → ℕ × ℕ
  unfolding do_hash
  get m key =
      let n = bit_and (do_hash key) (sub32 m.flow_num 1) in
      (fp.to_u64 (get_or m.bucket n fresh_info).rate, n)

-- The loop over `i < flow_num_` resets every entry.
unfoldable pub reset : EasyMap → EasyMap
reset m = record m { bucket = map (λ _. fresh_info) m.bucket }

-- `estimate_interval` of the global estimator.
abbrev pub estimate_interval : ℕ
estimate_interval = 5

module _ (fp : Doubles) where
  open fp use {of_u64, add, sub, mul, div}

  -- `rate * (1 - a) + a * loss_rate * 1000000` with `a = 0.25`, and
  -- `loss_rate = (total_bytes << 3) / (max_ts - min_ts)`.
  unfoldable pub blend : EstimateInfo → ℕ
  blend info =
      let loss =
        div (of_u64 (u64 (info.total_bytes * 8))) (of_u64 (sub64 info.max_ts info.min_ts)) in
      add (mul info.rate (sub one_double quarter_double))
        (mul (mul quarter_double loss) million_double)

  unfoldable pub update_info : EstimateInfo → ℕ → ℕ → ℕ → EstimateInfo
  unfolding blend
  update_info info pkt_bytes send_ts bucket_id =
      if info.last_bucket == bucket_id
      then record info { total_bytes = u64 (info.total_bytes + pkt_bytes) }
      else let seen = record info {
        last_bucket = u32 bucket_id;
        count = u32 (info.count + 1);
        max_ts = if ltb info.max_ts send_ts then send_ts else info.max_ts;
        min_ts = if ltb send_ts info.min_ts then send_ts else info.min_ts;
      } in
        let closed = record seen {
          rate = blend seen;
          count = 1;
          total_bytes = 0;
          max_ts = send_ts;
          min_ts = send_ts;
        } in
        let next = if seen.count == estimate_interval + 1 then closed else seen in
        record next { total_bytes = u64 (next.total_bytes + pkt_bytes) }

  unfoldable pub update_rate : EasyMap → ℕ → ℕ → ℕ → ℕ → EasyMap
  update_rate m pkt_bytes send_ts hash_id bucket_id = record m {
    bucket =
        set m.bucket hash_id
          (update_info (get_or m.bucket hash_id fresh_info) pkt_bytes send_ts bucket_id);
  }
