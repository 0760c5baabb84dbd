-- ===== src/Carousel/Insert.antt =====
-- `Insert` as an operation of the calendar.
use flow_bundler.Common.{
  ℕ, ◌+◌, ◌-◌, ◌*◌, ◌/◌, ◌%◌, ◌^◌, ◌≤◌, ◌<◌, ◌≡◌, ◌≢◌, ◌⊎◌, refl, sym, ap, subst, ◌∙◌, ◌∷◌, length,
  max, u64, sub64, ltb, if◌then◌else◌, Bool, true, false, none, inl, inr, Bool-cases, lt_or_le,
  eq_or_ne, arith,
}
use flow_bundler.MemoryPool.{get_element}
use flow_bundler.Packet.{Packet}
use flow_bundler.ListBucket.{PacketNode, ListShared, ListBucket}
use flow_bundler.ListBucket.Laws.{IsListBucket}
use flow_bundler.ListBucket.Numbers.{Put, enqueue_packet-Put}
use flow_bundler.Carousel.{Carousel, bucket_at, set_bucket, insert}
use flow_bundler.Carousel.Wheel.{
  IsWheel, covers, queued, waiting, index_lt, queued_inside, queued-set_bucket,
  queued-set_bucket_ne, set_bucket-IsWheel, waiting-set_bucket,
}

-- The slot for a packet of this time.
abbrev pub due_slot : Carousel → ℕ → ℕ
due_slot st time = max st.header_ts (time / st.granularity)

-- What neither `Insert` nor `Dequeue` changes.
pub record Kept (st st' : Carousel) : Type 0 where
  pub granularity : st'.granularity ≡ st.granularity
  pub slots : st'.slots ≡ st.slots
  pub packets_num : st'.packets_num ≡ st.packets_num
  pub max_dequeue_burst : st'.max_dequeue_burst ≡ st.max_dequeue_burst

-- The packet waits in its slot, before those that were there.
pub record Filed (st : Carousel) (packet : Packet) (slot : ℕ) (st' : Carousel) : Type 0 where
  pub node : PacketNode
  pub holds : node.packet ≡ packet
  pub at_slot : queued st' slot ≡ node ∷ queued st slot
  pub others : (s : ℕ) → s ≢ slot → queued st' s ≡ queued st s
  pub wheel : IsWheel st'
  pub total : waiting st' ≡ waiting st + 1

-- Every slot has the packets that it had.
pub record Unmoved (st st' : Carousel) : Type 0 where
  pub same : (s : ℕ) → queued st' s ≡ queued st s
  pub wheel : IsWheel st'
  pub total : waiting st' ≡ waiting st

abbrev pub Accepts : Carousel → Packet → ℕ → Bool × ℕ × Carousel → Type 0
Accepts st packet time out =
    (out.0 ≡ true)
    × (due_slot st time < st.header_ts + st.slots)
    × (out.1 ≡ (
        if ltb (time / st.granularity) st.header_ts
        then u64 (st.header_ts * st.granularity)
        else time))
    × Filed st packet (due_slot st time) out.2

abbrev pub Refuses : Carousel → ℕ → Bool × ℕ × Carousel → Type 0
Refuses st time out =
    (out.0 ≡ false)
    × ((st.header_ts + st.slots ≤ time / st.granularity) ⊎ ((get_element st.shared.pool).0 ≡ none))
    × Unmoved st out.2

module _ (st : Carousel) (v : IsWheel st) (slot : ℕ) (here : covers st slot ≡ true) where
  abbrev own : ListBucket
  own = bucket_at st (slot % st.slots)

  -- The packet goes to a slot that has a bucket.
  Put-Filed :
      (packet : Packet) (out : Bool × ListShared × ListBucket)
      → Put packet own out
      → length (queued st slot) + 1 < 2 ^ 31
      → Filed st packet slot (set_bucket st (slot % st.slots) out.1 out.2)
  Put-Filed packet out p room =
      let i = slot % st.slots in
      let n = v.counted i in
      let inside = queued_inside st v slot here in
      let ok : IsListBucket out.2 = record {
        counts = omega (arith, p.counts, n.counts, n.small, ap length p.nodes);
        small = omega (arith, ap length p.nodes, ap length inside);
      } in
      let node : PacketNode = record { block = p.block; packet = packet; flow_id = p.flow_id } in
      record {
        node = node;
        holds = refl;
        at_slot =
            queued-set_bucket st v slot here out.1 out.2 ∙ p.nodes ∙ ap (◌∷◌ node) (sym inside);
        others = queued-set_bucket_ne st v slot here out.1 out.2;
        wheel = set_bucket-IsWheel st i out.1 out.2 (index_lt v slot) ok v;
        total =
            omega (arith, waiting-set_bucket st i out.1 out.2 (index_lt v slot), ap length p.nodes);
      }

  -- The bucket is written back as it was.
  same-Unmoved :
      (shared : ListShared) (b : ListBucket)
      → b ≡ own
      → Unmoved st (set_bucket st (slot % st.slots) shared b)
  same-Unmoved shared b e =
      let i = slot % st.slots in
      record {
        same = λ s. elim (eq_or_ne s slot) [
          | inl at ↦ rw (at) (
              queued-set_bucket st v slot here shared b
              ∙ ap (λ (x : ListBucket). x.nodes) e
              ∙ sym (queued_inside st v slot here))
          | inr ne ↦ queued-set_bucket_ne st v slot here shared b s ne
        ];
        wheel =
            set_bucket-IsWheel st i shared b (index_lt v slot)
              (subst IsListBucket (sym e) (v.counted i)) v;
        total = omega (
          arith,
          waiting-set_bucket st i shared b (index_lt v slot),
          ap (λ (x : ListBucket). length x.nodes) e,
        );
      }

-- A packet whose time lies beyond the last slot is refused, and so is one for which the pool has no
-- block; then every slot keeps the packets that it had. Any other packet is accepted: it waits in the
-- slot of its time, or in the slot at the head, whose start becomes its time, if its own has passed.
-- The other slots keep theirs, and the ring stays well formed. No slot may have 2 ^ 31 packets.
pub insert-Accepts :
    (st : Carousel) (packet : Packet) (time flow_id : ℕ)
    → IsWheel st
    → length (queued st (due_slot st time)) + 1 < 2 ^ 31
    → let out = insert st packet time flow_id in Accepts st packet time out ⊎ Refuses st time out
unfolding insert
insert-Accepts st packet time flow_id v room =
    let limit : sub64 (u64 (st.header_ts + st.slots)) 1 ≡ st.header_ts + st.slots - 1 =
      omega (arith, v.early, v.some_slot) in
    let grn = time / st.granularity in
    let slot = due_slot st time in
    let chosen : (if ltb grn st.header_ts then st.header_ts else grn) ≡ slot = ground arith in
    elim (lt_or_le grn (st.header_ts + st.slots)) [
      | inl near ↦
          let test : ltb (st.header_ts + st.slots - 1) grn ≡ false = ground arith in
          let here : covers st slot ≡ true = ground (arith, v.some_slot) in
          elim (enqueue_packet-Put st.shared (bucket_at st (slot % st.slots)) packet flow_id) [
            | inl p ↦
                rw (limit, test, chosen)
                  (inl (
                    p.done,
                    omega (arith, v.some_slot),
                    refl,
                    Put-Filed st v slot here packet _ p room,
                  ))
            | inr (empty, no_done, b) ↦
                rw (limit, test, chosen)
                  (inr (no_done, inr empty, same-Unmoved st v slot here _ _ b))
          ]
      | inr far ↦
          let test : ltb (st.header_ts + st.slots - 1) grn ≡ true = ground (arith, v.some_slot) in
          rw (limit, test)
            (inr (refl, inl far, record { same = λ s. refl; wheel = v; total = refl }))
    ]

pub self_Kept : (st : Carousel) → Kept st st
self_Kept st = record {
  granularity = refl;
  slots = refl;
  packets_num = refl;
  max_dequeue_burst = refl;
}

pub trans_Kept : {st st1 st2 : Carousel} → Kept st st1 → Kept st1 st2 → Kept st st2
trans_Kept a b = record {
  granularity = b.granularity ∙ a.granularity;
  slots = b.slots ∙ a.slots;
  packets_num = b.packets_num ∙ a.packets_num;
  max_dequeue_burst = b.max_dequeue_burst ∙ a.max_dequeue_burst;
}

pub set_bucket-Kept :
    (st : Carousel) (i : ℕ) (shared : ListShared) (b : ListBucket)
    → Kept st (set_bucket st i shared b)
unfolding set_bucket
set_bucket-Kept st i shared b = record {
  granularity = refl;
  slots = refl;
  packets_num = refl;
  max_dequeue_burst = refl;
}

pub insert-Kept :
    (st : Carousel) (packet : Packet) (time flow_id : ℕ) → Kept st (insert st packet time flow_id).2
unfolding insert
insert-Kept st packet time flow_id =
    let beyond = ltb (sub64 (u64 (st.header_ts + st.slots)) 1) (time / st.granularity) in
    elim (Bool-cases beyond) [
      | inl e ↦ rw e (self_Kept st)
      | inr e ↦ rw e (set_bucket-Kept st _ _ _)
    ]
