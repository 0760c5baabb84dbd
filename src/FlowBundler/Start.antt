-- ===== src/FlowBundler/Start.antt =====
-- `Init`: how it fails, and the state that it makes.
use flow_bundler.Common.{
  ℕ, ◌*◌, ◌^◌, ◌%◌, ◌≤◌, ◌<◌, ◌≡◌, refl, sym, subst, [], length-replicate, replicate,
  get_or-replicate_lt, sum_by-replicate, u32, ◌⊎◌, inl, inr, arith,
}
use flow_bundler.Common.Bits.Masks.{bit-zero, two-pow-le, two-pow-pos}
use flow_bundler.MemoryPool.Laws.{IsPool, first_blocks, create-IsPool}
use flow_bundler.Platform.{
  Platform, InitError, Refused, EarlyPassed, PortPassed, early_error_cases, port_error_cases,
}
use flow_bundler.HbListBucket.{Shared, HbListBucket, empty_bucket}
use flow_bundler.FlowBundler.Geometry.{IsGeometry, one_shl_int, init_geometry}
use flow_bundler.FlowBundler.State.{FlowBundler}
use flow_bundler.FlowBundler.Setup.{FlowBundlerArg, init, initial_state}
use flow_bundler.FlowBundler.Counters.{IsCounted, nodes_of, itself}
use flow_bundler.FlowBundler.Counted.{Counted}

one_shl_int_lem : (k : ℕ) → k < 31 → one_shl_int k ≡ 2 ^ k
one_shl_int_lem k h =
    let le : 2 ^ k ≤ 2 ^ 30 = two-pow-le k 30 (omega arith) in
    let same : k % 32 ≡ k = omega arith in rw same (ground arith)

-- Scaling factors that leave the shifts inside a word give the constants that the comments of the
-- header name.
pub init_geometry-IsGeometry :
    (bucket_scale gran_scale : ℕ)
    → bucket_scale < 31
    → gran_scale < 33
    → IsGeometry (init_geometry bucket_scale gran_scale)
unfolding init_geometry
init_geometry-IsGeometry bucket_scale gran_scale h k =
    let b : bucket_scale % 256 ≡ bucket_scale = omega arith in
    let g : gran_scale % 256 ≡ gran_scale = omega arith in
    let g' : gran_scale % 64 ≡ gran_scale = omega arith in
    let le : 2 ^ bucket_scale ≤ 2 ^ 30 = two-pow-le bucket_scale 30 (omega arith) in
    rw (b, g)
      (record {
        scale = h;
        buckets = one_shl_int_lem bucket_scale h;
        mask = rw (one_shl_int_lem bucket_scale h) (omega (arith, two-pow-pos bucket_scale));
        gran = k;
        rate = rw g' refl;
        top = refl;
      })

-- An empty calendar.
pub empty-IsCounted :
    (scale : ℕ) (b : HbListBucket)
    → b.node_num ≡ 0
    → IsCounted scale (replicate 64 (replicate (2 ^ scale) b)) (replicate 64 0) 0 0
empty-IsCounted scale b e = record {
  queue_len = length-replicate 64 (replicate (2 ^ scale) b);
  bucket_len = λ q h.
      rw (get_or-replicate_lt 64 q (replicate (2 ^ scale) b) [] h) (length-replicate (2 ^ scale) b);
  count_len = length-replicate {A = ℕ} 64 0;
  per_queue = λ q h.
      rw
        (
          get_or-replicate_lt 64 q (replicate (2 ^ scale) b) [] h,
          get_or-replicate_lt {A = ℕ} 64 q 0 0 h,
        )
        (sym (sum_by-replicate nodes_of (2 ^ scale) b e));
  all_queues = sym (sum_by-replicate itself 64 0 refl);
  bits = λ q h. rw (get_or-replicate_lt {A = ℕ} 64 q 0 0 h) (bit-zero q);
  word = omega arith;
  small = omega arith;
}

-- For scaling factors that leave the shifts inside a word and a pool of less than 2 ^ 31 blocks: `Init` fails
-- with the first of its checks that fails: of the task, the generate burst, which has to fit into a batch, the
-- name of the port, the port, and its queues. If all pass, the module starts with the constants of its
-- calendar, with counters and a bitmap that agree with the buckets, and with every node in the pool.
pub init_lem :
    (platform : Platform) (arg : FlowBundlerArg) (statics : Shared) (now uuid : ℕ)
    → arg.bucket_num_scale < 31
    → arg.min_gran_scale < 33
    → arg.mempool_size < 2 ^ 31
    → let out = init platform arg statics now uuid in
      ((e : InitError) × (out ≡ inl e) × Refused platform arg.generate_burst e)
      ⊎ ((st : FlowBundler) × (out ≡ inr st)
          × EarlyPassed platform arg.generate_burst
          × PortPassed platform
          × IsGeometry st.geometry
          × Counted st
          × IsPool st.shared.pool (first_blocks arg.mempool_size))
unfolding init initial_state
init_lem platform arg statics now uuid h k m =
    elim (early_error_cases platform arg.generate_burst) [
      | inl (e, is, why) ↦ inl (e, rw (is, init) refl, inl why)
      | inr (early, passed) ↦ elim (port_error_cases platform) [
        | inl (e, is, why) ↦ inl (e, rw (early, is, init) refl, inr (passed, why))
        | inr (late, port) ↦
            let valid = init_geometry-IsGeometry arg.bucket_num_scale arg.min_gran_scale h k in
            let g = init_geometry arg.bucket_num_scale arg.min_gran_scale in
            let b = empty_bucket (u32 (arg.max_pkts_kbytes * 1000)) in
            let counted =
              subst
                (λ n.
                  IsCounted g.bucket_num_scale (replicate 64 (replicate n b)) (replicate 64 0) 0 0)
                (sym valid.buckets) (empty-IsCounted g.bucket_num_scale b refl) in
            inr (
              initial_state arg statics now uuid,
              rw (early, late, init) refl,
              passed,
              port,
              valid,
              counted,
              create-IsPool arg.mempool_size uuid (omega arith),
            )
      ]
    ]
