-- ===== src/FlowBundler/Counted.antt =====
-- `Insert` and `Dequeue` keep the counters, the bitmap and the buckets in step.
use flow_bundler.Common.{
  ℕ, ◌+◌, ◌-◌, ◌^◌, ◌≤◌, ◌<◌, ◌≡◌, refl, ap, sym, subst, ◌∙◌, [], bit_and, bit_or, u32, u64, sub32,
  sub64, shl64, not64, ltb, ◌==◌, if◌then◌else◌, get_or, set, set-get_or, get_or-sum_by-le,
  eq_or_ne, inl, inr, arith, false, Bool-cases,
}
use flow_bundler.Common.Bits.Digits.{bit}
use flow_bundler.Common.Bits.Masks.{bit_or-lt, bit_and-lt, two-pow-le, two-pow-pos, bit_and_ones}
use flow_bundler.Packet.{Packet}
use flow_bundler.HbListBucket.{Shared, HbListBucket, empty_bucket, enqueue_packet}
use flow_bundler.HbListBucket.Numbers.{node_num-enqueue_packet}
use flow_bundler.FlowBundler.Geometry.{Geometry, IsGeometry, Location, find_real_location}
use flow_bundler.FlowBundler.State.{
  FlowBundler, anchor, fit_queue, get_bucket, set_bucket, note_packet, insert, note_dequeue,
}
use flow_bundler.FlowBundler.Counters.{
  IsCounted, nodes_of, itself, bit-set_bit, bit-clear_bit, changed,
}

abbrev pub Counted : FlowBundler → Type 0
Counted st =
    IsCounted st.geometry.bucket_num_scale st.m_queue st.n_packets st.n_packets_total st.bitmap

-- A location always names a bucket of the calendar.
pub find_real_location-inside :
    (g : Geometry) (q t : ℕ)
    → IsGeometry g
    → ((find_real_location g q t).queue_id < 64)
      × ((find_real_location g q t).bucket_id < 2 ^ g.bucket_num_scale)
unfolding find_real_location
find_real_location-inside g q t valid =
    (ground arith, rw (valid.mask, bit_and_ones) (ground (arith, two-pow-pos g.bucket_num_scale)))

module _ (st : FlowBundler) (loc : Location) (v : Counted st) (hq : loc.queue_id < 64)
    (hi : loc.bucket_id < 2 ^ st.geometry.bucket_num_scale) where
  pub row : (get_bucket st loc).node_num ≤ get_or st.n_packets loc.queue_id 0
  unfolding get_bucket
  row = omega (
    arith,
    v.per_queue loc.queue_id hq,
    get_or-sum_by-le nodes_of (get_or st.m_queue loc.queue_id []) loc.bucket_id
        (empty_bucket st.max_bytes_per_flow) (omega (arith, v.bucket_len loc.queue_id hq)),
  )

  pub queue_total : get_or st.n_packets loc.queue_id 0 ≤ st.n_packets_total
  queue_total = omega (
    arith,
    v.all_queues,
    get_or-sum_by-le itself st.n_packets loc.queue_id 0 (omega (arith, v.count_len)),
  )

  -- One more packet in the bucket.
  pub stored :
      (b : HbListBucket)
      → b.node_num ≡ (get_bucket st loc).node_num + 1
      → st.n_packets_total + 1 < 2 ^ 32
      → Counted (note_packet (set_bucket st loc b) loc.queue_id)
  unfolding get_bucket note_packet set_bucket
  stored b more small =
      let r = row in
      let t = queue_total in
      let pos : (u32 (get_or st.n_packets loc.queue_id 0 + 1) == 0) ≡ false = ground arith in
      let le : 2 ^ loc.queue_id ≤ 2 ^ 63 = two-pow-le loc.queue_id 63 (omega arith) in
      changed st.geometry.bucket_num_scale st.m_queue st.n_packets st.n_packets_total st.bitmap
        loc.queue_id loc.bucket_id b (u32 (get_or st.n_packets loc.queue_id 0 + 1))
        st.max_bytes_per_flow v hq hi (ground (arith, more)) (u64 (st.n_packets_total + 1))
        (bit_or st.bitmap (shl64 1 loc.queue_id)) (ground arith)
        (λ j hj. bit-set_bit j loc.queue_id st.bitmap hj hq ∙ rw pos refl)
        (bit_or-lt 64 st.bitmap (shl64 1 loc.queue_id) v.word (omega arith)) (omega arith)

  -- `k` packets fewer in the bucket.
  pub removed :
      (b : HbListBucket) (k : ℕ)
      → k ≤ (get_bucket st loc).node_num
      → b.node_num ≡ (get_bucket st loc).node_num - k
      → Counted (note_dequeue (set_bucket st loc b) loc.queue_id k)
  unfolding get_bucket note_dequeue set_bucket
  removed b k le fewer =
      let r = row in
      let t = queue_total in
      let s = v.small in
      let left = sub32 (get_or st.n_packets loc.queue_id 0) k in
      let exact : left ≡ get_or st.n_packets loc.queue_id 0 - k = omega arith in
      let bits = bit_and st.bitmap (not64 (shl64 1 loc.queue_id)) in
      let next : (total bitmap : ℕ)
          → total ≡ st.n_packets_total - k
          → ((j : ℕ)
              → j < 64
              → bit j bitmap
                ≡ (if j == loc.queue_id then (if left == 0 then 0 else 1) else bit j st.bitmap))
          → bitmap < 2 ^ 64
          → IsCounted st.geometry.bucket_num_scale
              (set st.m_queue loc.queue_id
                (set (get_or st.m_queue loc.queue_id []) loc.bucket_id b))
              (set st.n_packets loc.queue_id left) total bitmap =
        λ total bitmap sum bit word.
          changed st.geometry.bucket_num_scale st.m_queue st.n_packets st.n_packets_total st.bitmap
            loc.queue_id loc.bucket_id b left st.max_bytes_per_flow v hq hi (omega arith) total
            bitmap (omega arith) bit word (omega arith) in
      let total : sub64 st.n_packets_total k ≡ st.n_packets_total - k = omega arith in
      elim (Bool-cases (left == 0)) [
        | inl empty ↦ rw empty (
            next (sub64 st.n_packets_total k) bits total
              (λ j hj. bit-clear_bit j loc.queue_id st.bitmap hj hq ∙ rw empty refl)
              (bit_and-lt 64 st.bitmap _ v.word))
        | inr some_left ↦ rw some_left (
            next (sub64 st.n_packets_total k) st.bitmap total
              (λ j hj. elim (eq_or_ne j loc.queue_id) [
                | inl same ↦
                    rw (sym same) (
                      ground
                        (arith, v.bits j hj, some_left, ap (λ i. get_or st.n_packets i 0) same))
                | inr other ↦ ground arith
              ])
              v.word)
      ]

anchor-Counted :
    (st : FlowBundler) (queue_id send_time : ℕ)
    → Counted st
    → Counted (anchor st queue_id send_time)
unfolding anchor
anchor-Counted st queue_id send_time v = ground arith

-- The counters do not depend on what the buckets share.
pub removed_shared :
    (st : FlowBundler) (loc : Location) (shared : Shared) (b : HbListBucket) (k : ℕ)
    → Counted st
    → loc.queue_id < 64
    → loc.bucket_id < 2 ^ st.geometry.bucket_num_scale
    → k ≤ (get_bucket st loc).node_num
    → b.node_num ≡ (get_bucket st loc).node_num - k
    → Counted (note_dequeue (record (set_bucket st loc b) { shared = shared }) loc.queue_id k)
unfolding get_bucket set_bucket
removed_shared st loc shared b k v hq hi le fewer =
    removed (record st { shared = shared }) loc v hq hi b k le fewer

pub n_packets_total-note_dequeue :
    (st : FlowBundler) (q k : ℕ)
    → (note_dequeue st q k).n_packets_total ≡ sub64 st.n_packets_total k
unfolding note_dequeue
n_packets_total-note_dequeue st q k = ground arith

-- A bucket written back with as many nodes leaves the counters right.
pub rewritten :
    (st : FlowBundler) (loc : Location) (b : HbListBucket)
    → Counted st
    → loc.queue_id < 64
    → loc.bucket_id < 2 ^ st.geometry.bucket_num_scale
    → b.node_num ≡ (get_bucket st loc).node_num
    → Counted (set_bucket st loc b)
unfolding set_bucket get_bucket
rewritten st loc b v hq hi e =
    let same = set-get_or st.n_packets loc.queue_id 0 in
    subst
      (λ n.
        IsCounted st.geometry.bucket_num_scale
          (set st.m_queue loc.queue_id (set (get_or st.m_queue loc.queue_id []) loc.bucket_id b)) n
          st.n_packets_total st.bitmap)
      same
      (changed st.geometry.bucket_num_scale st.m_queue st.n_packets st.n_packets_total st.bitmap
        loc.queue_id loc.bucket_id b (get_or st.n_packets loc.queue_id 0) st.max_bytes_per_flow v hq
        hi (omega (arith, e)) st.n_packets_total st.bitmap (omega arith)
        (λ j hj. elim (eq_or_ne j loc.queue_id) [
          | inl equal ↦ rw (sym equal) (ground (arith, v.bits j hj))
          | inr other ↦ ground arith
        ])
        v.word v.small)

pub anchor-geometry :
    (st : FlowBundler) (queue_id send_time : ℕ)
    → (anchor st queue_id send_time).geometry ≡ st.geometry
unfolding anchor
anchor-geometry st queue_id send_time = ground arith

pub anchor-total :
    (st : FlowBundler) (queue_id send_time : ℕ)
    → (anchor st queue_id send_time).n_packets_total ≡ st.n_packets_total
unfolding anchor
anchor-total st queue_id send_time = ground arith

-- Whether it stores the packet or the pool is exhausted, `Insert` keeps the counters and the
-- bitmap in step with the buckets, in a valid calendar and while the total fits 32 bits.
pub insert-Counted :
    (st : FlowBundler) (packet : Packet) (queue_id send_time flow_id hash_id : ℕ)
    → IsGeometry st.geometry
    → Counted st
    → st.n_packets_total + 1 < 2 ^ 32
    → Counted (insert st packet queue_id send_time flow_id hash_id).1
unfolding insert note_packet set_bucket
insert-Counted st packet queue_id send_time flow_id hash_id valid v small =
    let st1 = anchor st queue_id send_time in
    let actual_time = if ltb send_time st1.head_time then st1.head_time else send_time in
    let start = fit_queue st1 queue_id actual_time in
    let loc = find_real_location st.geometry start actual_time in
    let g = anchor-geometry st queue_id send_time in
    let inside = find_real_location-inside st.geometry start actual_time valid in
    let v1 = anchor-Counted st queue_id send_time v in
    let shut : loc.bucket_id < 2 ^ st1.geometry.bucket_num_scale =
      subst (λ (x : Geometry). loc.bucket_id < 2 ^ x.bucket_num_scale) (sym g) inside.1 in
    let room = row st1 loc v1 inside.0 shut in
    let total = queue_total st1 loc v1 inside.0 shut in
    let fits : st1.n_packets_total + 1 < 2 ^ 32 =
      omega (arith, anchor-total st queue_id send_time) in
    let out = enqueue_packet st1.shared (get_bucket st1 loc) packet flow_id send_time hash_id in
    elim (node_num-enqueue_packet st1.shared (get_bucket st1 loc) packet flow_id send_time
      hash_id) [
        | inl (done, more) ↦
            rw (done, insert) (stored st1 loc v1 inside.0 shut out.2 (omega arith) fits)
        | inr (done, same) ↦
            rw (done, insert) (rewritten st1 loc out.2 v1 inside.0 shut (ap nodes_of same))
      ]
