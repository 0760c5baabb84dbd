-- ===== src/Carousel/Dequeue.antt =====
-- `Dequeue` as an operation of the calendar.
use flow_bundler.Common.{
  ℕ, suc, ◌+◌, ◌-◌, ◌/◌, ◌^◌, ◌≤◌, ◌<◌, ◌≡◌, ◌≢◌, ◌⊎◌, refl, ap, ◌∙◌, [], length, take, drop, min,
  u32, some, inl, inr, arith,
}
use flow_bundler.Packet.{PacketBatch, clear, set_cnt, live}
use flow_bundler.ListBucket.Numbers.{packets_of}
use flow_bundler.Carousel.{Carousel, dequeue}
use flow_bundler.Carousel.Wheel.{
  IsWheel, queued, waiting, SameRing, queued-SameRing, waiting-SameRing, IsWheel-SameRing,
}
use flow_bundler.Carousel.Insert.{Kept, trans_Kept}
use flow_bundler.Carousel.Serve.{Outcome}
use flow_bundler.Carousel.Loop.{dequeue_loop-Outcome}

-- The batch is empty, and every slot keeps its packets.
pub record Quiet (now : ℕ) (st : Carousel) (out : Carousel × PacketBatch) : Type 0 where
  pub none_due :
      0 < st.max_dequeue_burst
      → st.max_dequeue_burst < 2 ^ 31
      → (s : ℕ) → s ≤ now
      → queued st s ≡ []
  pub empty : live out.1 ≡ []
  pub count : out.1.cnt ≡ 0
  pub same : (s : ℕ) → queued out.0 s ≡ queued st s
  pub total : waiting out.0 ≡ waiting st

-- The batch holds the first packets of the earliest slot that has any.
pub record Released (now : ℕ) (st : Carousel) (out : Carousel × PacketBatch) : Type 0 where
  pub slot : ℕ
  pub quota : st.max_dequeue_burst < 2 ^ 31
  pub number : ℕ
  pub due : slot ≤ now
  pub earlier : (s : ℕ) → s < slot → queued st s ≡ []
  pub some_left : 0 < number
  pub at_most : number ≡ min st.max_dequeue_burst (length (queued st slot))
  pub sent : live out.1 ≡ packets_of (take number (queued st slot))
  pub count : out.1.cnt ≡ number
  pub rest : queued out.0 slot ≡ drop number (queued st slot)
  pub others : (s : ℕ) → s ≢ slot → queued out.0 s ≡ queued st s
  pub total : waiting out.0 + number ≡ waiting st

pub record Dequeued (now : ℕ) (st : Carousel) (out : Carousel × PacketBatch) : Type 0 where
  pub wheel : IsWheel out.0
  pub kept : Kept st out.0
  pub cases : Quiet now st out ⊎ Released now st out

-- `dequeue_burst` plays no part in the calendar, and the batch has its number already.
Outcome-Dequeued :
    (now : ℕ) (st : Carousel) (batch : PacketBatch) (out : ℕ × Carousel × PacketBatch)
    → Outcome now st (clear batch) out
    → Dequeued now st (record (out.1) { dequeue_burst = u32 out.0 }, set_cnt out.2 out.0)
Outcome-Dequeued now st batch out o =
    let st' = record (out.1) { dequeue_burst = u32 out.0 } in
    let r : SameRing out.1 st' = record {
      queue = refl;
      header_ts = refl;
      granularity = refl;
      slots = refl;
    } in
    let k : Kept out.1 st' = record {
      granularity = refl;
      slots = refl;
      packets_num = refl;
      max_dequeue_burst = refl;
    } in
    record {
      wheel = IsWheel-SameRing r o.wheel;
      kept = trans_Kept o.kept k;
      cases = elim (o.cases) [
        | inl i ↦ inl (record {
          none_due = i.none_due;
          empty = rw (i.number) refl;
          count = i.number;
          same = λ s. queued-SameRing r s ∙ i.same s;
          total = waiting-SameRing r ∙ i.total;
        })
        | inr g ↦
            let cnt : out.0 ≡ out.2.cnt = omega (arith, g.moved.cnt) in
            inr (record {
              slot = g.slot;
              quota = g.quota;
              number = out.0;
              due = g.due;
              earlier = g.earlier;
              some_left = g.some_left;
              at_most = g.number;
              sent = ap (λ n. take n out.2.pkts) cnt ∙ g.moved.sent;
              count = refl;
              rest = queued-SameRing r g.slot ∙ g.moved.rest;
              others = λ s ne. queued-SameRing r s ∙ g.others s ne;
              total = omega (arith, g.total, waiting-SameRing r);
            })
      ];
    }

-- `Dequeue` returns. If a packet waits for a slot that has begun, and the burst is positive, then the
-- batch holds the first packets of the earliest slot with packets, at least one and at most a burst, in
-- their order, and the calendar keeps all the others; if none does, then the batch is empty and the
-- calendar as it was. With a burst that is 0 or negative, so 2 ^ 31 at least, the batch is empty. A
-- positive burst must fit into the batch, and the clock be a ring away from its wrap-around.
pub dequeue_returns :
    (st : Carousel) (batch : PacketBatch) (ns : ℕ)
    → IsWheel st
    → (st.max_dequeue_burst < 2 ^ 31 → st.max_dequeue_burst ≤ length batch.pkts)
    → ns / st.granularity + st.slots + 1 < 2 ^ 64
    → (out : Carousel × PacketBatch) × (dequeue st batch ns ≡ some out)
      × Dequeued (ns / st.granularity) st out
unfolding dequeue
dequeue_returns st batch ns v room late =
    let now = ns / st.granularity in
    let (out, e, o) =
      dequeue_loop-Outcome (suc (suc (now - st.header_ts))) now st (clear batch) v
        (λ few. omega (arith, room few)) late (omega arith) (omega arith) in
    (
      (record (out.1) { dequeue_burst = u32 out.0 }, set_cnt out.2 out.0),
      rw (e, dequeue) refl,
      Outcome-Dequeued now st batch out o,
    )
