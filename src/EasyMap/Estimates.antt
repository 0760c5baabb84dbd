-- ===== src/EasyMap/Estimates.antt =====
-- What the estimator keeps of a destination's packets.
use flow_bundler.Common.{ℕ, ◌-◌, ◌^◌, ◌≤◌, ◌<◌, ◌≡◌, arith}
use flow_bundler.EasyMap.{Doubles, EstimateInfo, fresh_info, estimate_interval, update_info}

-- Between packets a window holds at most `estimate_interval` buckets, and its time stamps are a
-- range, from the first packet on.
pub record IsWindow (info : EstimateInfo) : Type 0 where
  pub few : info.count ≤ estimate_interval
  pub range : 0 < info.count → info.min_ts ≤ info.max_ts
  pub start : info.count ≡ 0 → (info.max_ts ≡ 0) × (info.min_ts ≡ 2 ^ 64 - 1)

pub fresh_info-IsWindow : IsWindow fresh_info
fresh_info-IsWindow = ground arith

-- Every packet, with a time stamp below 2 ^ 64, keeps the window of the rate estimator well formed: at most
-- five buckets, and time stamps that are a range from the first packet on.
pub update_info-IsWindow :
    (fp : Doubles) (info : EstimateInfo) (pkt_bytes send_ts bucket_id : ℕ)
    → IsWindow info
    → send_ts < 2 ^ 64
    → IsWindow (update_info fp info pkt_bytes send_ts bucket_id)
unfolding update_info
update_info-IsWindow fp info pkt_bytes send_ts bucket_id w h = ground arith
