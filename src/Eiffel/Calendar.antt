-- ===== src/Eiffel/Calendar.antt =====
-- The two halves as `DropPacketInsert`, `AdjustRotation` and `Dequeue` use them.
use flow_bundler.Common.{
  ℕ, ◌+◌, ◌*◌, ◌/◌, ◌^◌, ◌≤◌, ◌<◌, ◌≡◌, u64, sub64, ltb, leb, if◌then◌else◌, true, false, inl, inr,
  arith, lt_or_le, lt→ltb, ltb-false,
}
use flow_bundler.Packet.{Packet}
use flow_bundler.ListBucket.{ListShared}
use flow_bundler.Eiffel.{Half, Eiffel, insert_at, drop_packet_insert}
use flow_bundler.Eiffel.Marks.{IsHalf, set-IsHalf}
use native.Mathlib.Nat.{le-div_iff_mul-le}

-- A module with `n` buckets in each half. The horizon is a 32-bit product, so it may be shorter.
pub record IsEiffel (n : ℕ) (st : Eiffel) : Type 0 where
  pub some_bucket : 0 < n
  pub step : 0 < st.granularity
  pub reach : st.horizon ≤ n * st.granularity
  pub phase : st.buffer_ts ≡ st.main_ts + st.horizon
  pub main_half : IsHalf n st.main
  pub buffer_half : IsHalf n st.buffer

index_lt : (n g x : ℕ) → 0 < g → x < n * g → x / g < n
index_lt n g x pos h = elim (lt_or_le (x / g) n) [
  | inl lt ↦ lt
  | inr ge ↦ let le : n * g ≤ x = (le-div_iff_mul-le pos).0 ge in absurd (omega arith)
]

insert_at-IsHalf :
    (n : ℕ) (h : Half) (shared : ListShared) (index : ℕ) (packet : Packet) (flow_id : ℕ)
    → IsHalf n h
    → index < n
    → IsHalf n (insert_at h shared index packet flow_id).2
unfolding insert_at
insert_at-IsHalf n h shared index packet flow_id v inside = set-IsHalf n h v index inside _

-- `DropPacketInsert` only ever uses a bucket of a half, and marks it there: afterwards, too, every
-- bucket with a packet is marked, and no mark is outside of the buckets. The clock must be two horizons
-- away from its wrap-around.
pub drop_packet_insert-IsEiffel :
    (n : ℕ) (st : Eiffel) (packet : Packet) (send_time flow_id : ℕ)
    → IsEiffel n st
    → st.main_ts + st.horizon + st.horizon < 2 ^ 64
    → IsEiffel n (drop_packet_insert st packet send_time flow_id).2
unfolding drop_packet_insert
drop_packet_insert-IsEiffel n st packet send_time flow_id v fits =
    elim (lt_or_le send_time st.buffer_ts) [
      | inl in_main ↦
          let early = ltb send_time st.main_ts in
          let index = if early then 0 else sub64 send_time st.main_ts / st.granularity in
          let inside : index < n = elim (lt_or_le send_time st.main_ts) [
            | inl lt ↦ rw (lt→ltb send_time st.main_ts lt) v.some_bucket
            | inr ge ↦
                let exact : sub64 send_time st.main_ts < n * st.granularity =
                  omega (arith, v.phase, v.reach) in
                rw (ltb-false send_time st.main_ts ge)
                  (index_lt n st.granularity (sub64 send_time st.main_ts) v.step exact)
          ] in
          rw (lt→ltb send_time st.buffer_ts in_main, drop_packet_insert)
            (record {
              some_bucket = v.some_bucket;
              step = v.step;
              reach = v.reach;
              phase = v.phase;
              main_half =
                  insert_at-IsHalf n st.main st.shared index packet flow_id v.main_half inside;
              buffer_half = v.buffer_half;
            })
      | inr later ↦
          let limit : u64 (u64 (st.main_ts + st.horizon) + st.horizon)
              ≡ st.main_ts + st.horizon + st.horizon =
            omega arith in
          elim (lt_or_le send_time (st.main_ts + st.horizon + st.horizon)) [
            | inl lt ↦
                let exact : sub64 send_time st.buffer_ts < n * st.granularity =
                  omega (arith, v.phase, v.reach) in
                let index = sub64 send_time st.buffer_ts / st.granularity in
                let inside =
                  index_lt n st.granularity (sub64 send_time st.buffer_ts) v.step exact in
                let test : leb (st.main_ts + st.horizon + st.horizon) send_time ≡ false =
                  ground arith in
                rw (ltb-false send_time st.buffer_ts later, limit, test, drop_packet_insert)
                  (record {
                    some_bucket = v.some_bucket;
                    step = v.step;
                    reach = v.reach;
                    phase = v.phase;
                    main_half = v.main_half;
                    buffer_half =
                        insert_at-IsHalf n st.buffer st.shared index packet flow_id v.buffer_half
                          inside;
                  })
            | inr ge ↦
                let test : leb (st.main_ts + st.horizon + st.horizon) send_time ≡ true =
                  ground arith in
                rw (ltb-false send_time st.buffer_ts later, limit, test, drop_packet_insert) v
          ]
    ]
