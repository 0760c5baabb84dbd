-- ===== src/FlowBundler/Fill.antt =====
-- `Enqueue` keeps the counters right, and stores or drops every packet of the batch.
use flow_bundler.Common.{
  ℕ, suc, ◌+◌, ◌^◌, ◌<◌, ◌≡◌, refl, sym, subst, List, [], ◌∷◌, length, set, get_or, ltb,
  if◌then◌else◌, inl, inr, Bool, true, false, arith, Bool-cases,
}
use flow_bundler.EasyMap.{Doubles}
use flow_bundler.EasyMap
use flow_bundler.Packet.{Packet}
use flow_bundler.HbListBucket.{enqueue_packet}
use flow_bundler.FlowBundler.Geometry.{IsGeometry, find_queue_index, find_real_location}
use flow_bundler.FlowBundler.State.{
  FlowBundler, anchor, set_bucket, get_bucket, note_packet, fit_queue, insert, known_flow,
  next_stamp, no_flow, enqueue_one, enqueue,
}
use flow_bundler.FlowBundler.Counted.{Counted, insert-Counted, anchor-geometry, anchor-total}

-- Room for `n` more packets.
pub record HasRoom (n : ℕ) (st : FlowBundler) : Type 0 where
  pub valid : IsGeometry st.geometry
  pub counted : Counted st
  pub room : st.n_packets_total + n < 2 ^ 32

-- What a call adds to the total, by its result.
abbrev added : Bool → ℕ
added true = 1
added false = 0

pub insert_total :
    (st : FlowBundler) (packet : Packet) (queue_id send_time flow_id hash_id : ℕ)
    → st.n_packets_total + 1 < 2 ^ 32
    → let out = insert st packet queue_id send_time flow_id hash_id in
      (out.1.n_packets_total ≡ st.n_packets_total + added out.0) × (out.1.geometry ≡ st.geometry)
unfolding insert note_packet set_bucket
insert_total st packet queue_id send_time flow_id hash_id small =
    let st1 = anchor st queue_id send_time in
    let actual_time = if ltb send_time st1.head_time then st1.head_time else send_time in
    let loc = find_real_location st.geometry (fit_queue st1 queue_id actual_time) actual_time in
    let g = anchor-geometry st queue_id send_time in
    let t = anchor-total st queue_id send_time in
    elim (Bool-cases
      (enqueue_packet st1.shared (get_bucket st1 loc) packet flow_id send_time hash_id).0) [
        | inl done ↦ rw (done, insert) (omega (arith, t), g)
        | inr full ↦ rw (full, insert) (omega (arith, t), g)
      ]

module _ (fp : Doubles) where
  enqueue_one-HasRoom :
      (n : ℕ) (st : FlowBundler) (now : ℕ) (pkt : Packet)
      → HasRoom (suc n) st
      → let out = enqueue_one fp st now pkt in
        HasRoom n out.1 × (out.1.n_packets_total ≡ st.n_packets_total + added out.0)
  unfolding enqueue_one
  enqueue_one-HasRoom n st now pkt v =
      let info = known_flow (get_or st.flow_info pkt.src no_flow) now in
      let new_stamp = next_stamp info pkt.total_len now in
      let found = EasyMap.get fp st.shared.aggregation_rates pkt.dst in
      let queue_id = find_queue_index st.geometry found.0 in
      let st1 = record st {
        flow_info = set st.flow_info pkt.src info;
        highest_rate_qid =
            if ltb queue_id st.highest_rate_qid then queue_id else st.highest_rate_qid;
      } in
      let small : st1.n_packets_total + 1 < 2 ^ 32 = omega (arith, v.room) in
      let c = insert-Counted st1 pkt queue_id new_stamp pkt.src found.1 v.valid v.counted small in
      let (t, g) = insert_total st1 pkt queue_id new_stamp pkt.src found.1 small in
      let out = insert st1 pkt queue_id new_stamp pkt.src found.1 in
      let valid : IsGeometry out.1.geometry = subst IsGeometry (sym g) v.valid in
      elim (Bool-cases out.0) [
        | inl done ↦
            rw (done, enqueue_one)
              (
                record { valid = valid; counted = c; room = omega (arith, v.room, rw done at t) },
                rw done at t,
              )
        | inr full ↦
            rw (full, enqueue_one)
              (
                record { valid = valid; counted = c; room = omega (arith, v.room, rw full at t) },
                rw full at t,
              )
      ]

  -- A batch for which there is room leaves the counters right and the constants alone. Of its packets those that are not
  -- dropped, and no others, are added to the total.
  pub enqueue_lem :
      (st : FlowBundler) (batch : List (ℕ × Packet))
      → HasRoom (length batch) st
      → let (dropped, st') = enqueue fp st batch in
        HasRoom 0 st' × (st'.n_packets_total + length dropped ≡ st.n_packets_total + length batch)
  unfolding enqueue
  enqueue_lem st [] v = (v, refl)
  enqueue_lem st ((now, pkt) ∷ rest) v =
      let out = enqueue_one fp st now pkt in
      let (v', t) = enqueue_one-HasRoom (length rest) st now pkt v in
      let (c, sum) = enqueue_lem out.1 rest v' in
      (
        c,
        elim (Bool-cases out.0) [
          | inl done ↦ rw (done, enqueue) (omega (arith, sum, rw done at t))
          | inr full ↦ rw (full, enqueue) (omega (arith, sum, rw full at t))
        ],
      )
