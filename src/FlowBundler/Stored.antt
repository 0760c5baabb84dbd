-- ===== src/FlowBundler/Stored.antt =====
-- Where `Insert` puts a packet, and with which time.
use flow_bundler.Common.{
  ℕ, ◌<◌, ◌≡◌, refl, ap, ◌∙◌, subst, [], ◌∷◌, length, get_or, set, get_or-set_self, ltb, ◌==◌,
  if◌then◌else◌, true, false, inl, inr, Bool-cases, Option-cases, arith, max,
}
use flow_bundler.Packet.{Packet}
use flow_bundler.MemoryPool.{get_element}
use flow_bundler.HbListBucket.{HbPacketNode, Shared, HbListBucket, empty_bucket, enqueue_packet}
use flow_bundler.FlowBundler.Geometry.{IsGeometry, Location, find_real_location}
use flow_bundler.FlowBundler.State.{
  FlowBundler, anchor, get_bucket, set_bucket, note_packet, fit_queue, insert,
}
use flow_bundler.FlowBundler.Counted.{Counted, find_real_location-inside}

-- The packet stands, with its time, in front of the packets of the bucket for that time, or for that of the
-- head of the calendar, if it is later.
pub record Placed (packet : Packet) (flow_id time : ℕ) (st st' : FlowBundler) : Type 0 where
  pub queue : ℕ
  pub node : HbPacketNode
  pub same_packet : node.packet ≡ packet
  pub same_flow : node.flow_id ≡ flow_id
  pub same_time : node.send_ts ≡ time
  pub in_front :
      let loc = find_real_location st.geometry queue (max time st'.head_time) in
      (get_bucket st' loc).nodes ≡ node ∷ (get_bucket st loc).nodes

enqueue_packet-node :
    (s : Shared) (b : HbListBucket) (packet : Packet) (flow_id send_ts hash_id : ℕ)
    → let out = enqueue_packet s b packet flow_id send_ts hash_id in
      out.0 ≡ true
      → (node : HbPacketNode) × (node.packet ≡ packet)
        × (node.flow_id ≡ flow_id)
        × (node.send_ts ≡ send_ts)
        × (out.2.nodes ≡ node ∷ b.nodes)
unfolding enqueue_packet
enqueue_packet-node s b packet flow_id send_ts hash_id done =
    elim (Option-cases ((get_element s.pool).0)) [
      | inl e ↦ let no : false ≡ true = rw (e, enqueue_packet) at done in cc
      | inr (x, e) ↦
          let node : HbPacketNode = record {
            block = x;
            packet = packet;
            flow_id = flow_id;
            send_ts = send_ts;
            hash_id = hash_id;
          } in
          (node, refl, refl, refl, rw (e, enqueue_packet) refl)
    ]

get_bucket-set_bucket :
    (st : FlowBundler) (loc : Location) (b : HbListBucket)
    → loc.queue_id < length st.m_queue
    → loc.bucket_id < length (get_or st.m_queue loc.queue_id [])
    → get_bucket (set_bucket st loc b) loc ≡ b
unfolding get_bucket set_bucket
get_bucket-set_bucket st loc b hq hi =
    let row = set (get_or st.m_queue loc.queue_id []) loc.bucket_id b in
    let d = empty_bucket st.max_bytes_per_flow in
    ap (λ bs. get_or bs loc.bucket_id d) (get_or-set_self st.m_queue loc.queue_id row [] hq)
    ∙ get_or-set_self (get_or st.m_queue loc.queue_id []) loc.bucket_id b d hi

get_bucket-same :
    (st st' : FlowBundler) (loc : Location)
    → st.m_queue ≡ st'.m_queue
    → st.max_bytes_per_flow ≡ st'.max_bytes_per_flow
    → get_bucket st loc ≡ get_bucket st' loc
unfolding get_bucket
get_bucket-same st st' loc queues bytes =
    ap (λ m. get_or (get_or m loc.queue_id []) loc.bucket_id (empty_bucket st.max_bytes_per_flow))
      queues
    ∙ ap (λ n. get_or (get_or st'.m_queue loc.queue_id []) loc.bucket_id (empty_bucket n)) bytes

anchor-queues :
    (st : FlowBundler) (queue_id send_time : ℕ)
    → let st1 = anchor st queue_id send_time in
      (st1.m_queue ≡ st.m_queue) × (st1.max_bytes_per_flow ≡ st.max_bytes_per_flow)
unfolding anchor
anchor-queues st queue_id send_time = elim (Bool-cases (st.bitmap == 0)) [
  | inl e ↦ rw (e, anchor) (refl, refl)
  | inr e ↦ rw (e, anchor) (refl, refl)
]

pub insert-Placed :
    (st : FlowBundler) (packet : Packet) (queue_id send_time flow_id hash_id : ℕ)
    → IsGeometry st.geometry
    → Counted st
    → let out = insert st packet queue_id send_time flow_id hash_id in
      out.0 ≡ true → Placed packet flow_id send_time st out.1
unfolding insert note_packet get_bucket set_bucket
insert-Placed st packet queue_id send_time flow_id hash_id valid v done =
    let st1 = anchor st queue_id send_time in
    let actual_time = if ltb send_time st1.head_time then st1.head_time else send_time in
    let q = fit_queue st1 queue_id actual_time in
    let loc = find_real_location st.geometry q actual_time in
    let enq = enqueue_packet st1.shared (get_bucket st1 loc) packet flow_id send_time hash_id in
    let (queues, bytes) = anchor-queues st queue_id send_time in
    let later : actual_time ≡ max send_time st1.head_time = ground arith in
    let (hq, hi) = find_real_location-inside st.geometry q actual_time valid in
    elim (Bool-cases enq.0) [
      | inr full ↦ let no : false ≡ true = rw (full, insert) at done in cc
      | inl stored ↦
          let (node, a, b, c, e) =
            enqueue_packet-node st1.shared (get_bucket st1 loc) packet flow_id send_time hash_id
              stored in
          let inside : loc.queue_id < length st1.m_queue =
            omega (arith, hq, ap length queues, v.queue_len) in
          let short : loc.bucket_id < length (get_or st1.m_queue loc.queue_id []) = omega (
            arith,
            hi,
            ap (λ m. length (get_or m loc.queue_id [])) queues,
            v.bucket_len loc.queue_id hq,
          ) in
          let written =
            ap (λ (x : HbListBucket). x.nodes) (get_bucket-set_bucket st1 loc enq.2 inside short) in
          let before =
            ap (λ (x : HbListBucket). x.nodes) (get_bucket-same st1 st loc queues bytes) in
          let stands : (get_bucket (set_bucket st1 loc enq.2) loc).nodes
              ≡ node ∷ (get_bucket st loc).nodes =
            written ∙ e ∙ ap (λ l. node ∷ l) before in
          let st' =
            note_packet (record (set_bucket st1 loc enq.2) { shared = enq.1 }) loc.queue_id in
          let placed : Placed packet flow_id send_time st st' = record {
            queue = q;
            node = node;
            same_packet = a;
            same_flow = b;
            same_time = c;
            in_front =
                subst
                  (λ t.
                    let l = find_real_location st.geometry q t in
                    (get_bucket st' l).nodes ≡ node ∷ (get_bucket st l).nodes)
                  later stands;
          } in
          rw (stored, insert) placed
    ]
