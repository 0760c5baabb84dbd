-- ===== src/Carousel/Arrive.antt =====
-- A round of `Enqueue` as an operation of the calendar.
use flow_bundler.Common.{
  ℕ, ◌+◌, ◌/◌, ◌^◌, ◌≤◌, ◌<◌, ◌≡◌, ◌≢◌, ◌⊎◌, refl, ap, subst, ◌∙◌, ◌∷◌, length, get_or, set, u64,
  Bool, true, false, inl, inr, arith,
}
use flow_bundler.Packet.{Packet}
use flow_bundler.ListBucket.{PacketNode}
use flow_bundler.FlowBundler.State.{FlowInfo, known_flow, next_stamp, no_flow}
use flow_bundler.Carousel.{Carousel, insert, anchor, enqueue_one}
use flow_bundler.Carousel.Wheel.{
  queued, waiting, SameRing, queued-SameRing, waiting-SameRing, IsWheel-SameRing,
}
use flow_bundler.Carousel.Insert.{
  Kept, trans_Kept, due_slot, Filed, Unmoved, insert-Accepts, insert-Kept,
}
use flow_bundler.Carousel.Anchor.{IsCarousel, length-queued-le, anchor-Unmoved, anchor-Kept}

-- The time that the packet may be sent.
abbrev pub stamp_of : Carousel → ℕ → Packet → ℕ
stamp_of st now pkt =
    next_stamp (known_flow (get_or st.flow_info pkt.src no_flow) now) pkt.total_len now

-- The packet waits for a slot that is not before its time.
pub record Arrived (st : Carousel) (now : ℕ) (packet : Packet) (out : Bool × Carousel)
    : Type 0 where
  pub done : out.0 ≡ true
  pub slot : ℕ
  pub in_time : stamp_of st now packet / st.granularity ≤ slot
  pub node : PacketNode
  pub holds : node.packet ≡ packet
  pub at_slot : queued out.1 slot ≡ node ∷ queued st slot
  pub others : (s : ℕ) → s ≢ slot → queued out.1 s ≡ queued st s

pub record Rejected (st : Carousel) (out : Bool × Carousel) : Type 0 where
  pub dropped : out.0 ≡ false
  pub same : (s : ℕ) → queued out.1 s ≡ queued st s

-- What the module is for in each state that it reaches.
pub record Steady (st st' : Carousel) : Type 0 where
  pub sound : IsCarousel st'
  pub granularity : st'.granularity ≡ st.granularity
  pub slots : st'.slots ≡ st.slots
  pub max_dequeue_burst : st'.max_dequeue_burst ≡ st.max_dequeue_burst

abbrev pub Arrival : Carousel → ℕ → Packet → Bool × Carousel → Type 0
Arrival st now packet out =
    Steady st out.1
    × (Arrived st now packet out ⊎ Rejected st out)
    × (waiting out.1 ≤ waiting st + 1)
    × (out.1.packets_num ≤ st.packets_num + 1)

module _ (st : Carousel) (now : ℕ) (pkt : Packet) (v : IsCarousel st)
    (late : now / st.granularity + st.slots < 2 ^ 64) (few : waiting st + 1 < 2 ^ 31)
    (room : st.packets_num + 1 < 2 ^ 64) where
  abbrev info : FlowInfo
  info = known_flow (get_or st.flow_info pkt.src no_flow) now

  abbrev noted : Carousel
  noted = record st { flow_info = set st.flow_info pkt.src info }

  ring : SameRing st noted
  ring = record { queue = refl; header_ts = refl; granularity = refl; slots = refl }

  noted-IsCarousel : IsCarousel noted
  noted-IsCarousel = record {
    wheel = IsWheel-SameRing ring v.wheel;
    counted = omega (arith, v.counted, waiting-SameRing ring);
  }

  moved : Unmoved noted (anchor noted now)
  moved = anchor-Unmoved noted noted-IsCarousel now late

  as_before : (s : ℕ) → queued (anchor noted now) s ≡ queued st s
  as_before s = moved.same s ∙ queued-SameRing ring s

  abbrev anchored : Carousel
  anchored = anchor noted now

  abbrev stamp : ℕ
  stamp = stamp_of st now pkt

  waiting_before : waiting anchored ≡ waiting st
  waiting_before = moved.total ∙ waiting-SameRing ring

  slot_fits : length (queued anchored (due_slot anchored stamp)) + 1 < 2 ^ 31
  slot_fits =
      omega (arith, length-queued-le anchored moved.wheel (due_slot anchored stamp), waiting_before)

  kept : Kept st (insert anchored pkt stamp pkt.src).2
  kept =
      let k = trans_Kept (anchor-Kept noted now) (insert-Kept anchored pkt stamp pkt.src) in
      record {
        granularity = k.granularity;
        slots = k.slots;
        packets_num = k.packets_num;
        max_dequeue_burst = k.max_dequeue_burst;
      }

  -- The calendar at the end of the round, where the counters and the flow change too.
  stored-Arrival :
      (st2 st' : Carousel)
      → SameRing st2 st'
      → Kept st st2
      → st'.packets_num ≡ u64 (st2.packets_num + 1)
      → st'.max_dequeue_burst ≡ st2.max_dequeue_burst
      → Filed anchored pkt (due_slot anchored stamp) st2
      → Arrival st now pkt (true, st')
  stored-Arrival st2 st' r k count burst f =
      let same = as_before (due_slot anchored stamp) in
      let g : anchored.granularity ≡ st.granularity = (anchor-Kept noted now).granularity in
      let le : stamp / anchored.granularity ≤ due_slot anchored stamp = omega arith in
      (
        record {
          sound = record {
            wheel = IsWheel-SameRing r f.wheel;
            counted = omega (
              arith,
              waiting-SameRing r,
              f.total,
              waiting_before,
              v.counted,
              k.packets_num,
              count,
            );
          };
          granularity = r.granularity ∙ k.granularity;
          slots = r.slots ∙ k.slots;
          max_dequeue_burst = burst ∙ k.max_dequeue_burst;
        },
        inl (record {
          done = refl;
          slot = due_slot anchored stamp;
          in_time = subst (λ n. stamp / n ≤ due_slot anchored stamp) g le;
          node = f.node;
          holds = f.holds;
          at_slot = queued-SameRing r (due_slot anchored stamp) ∙ f.at_slot ∙ ap (◌∷◌ f.node) same;
          others = λ s ne. queued-SameRing r s ∙ f.others s ne ∙ as_before s;
        }),
        omega (arith, waiting-SameRing r, f.total, waiting_before),
        omega (arith, k.packets_num, count),
      )

  pub enqueue_one-Arrival : Arrival st now pkt (enqueue_one st now pkt)
  unfolding enqueue_one
  enqueue_one-Arrival = elim (insert-Accepts anchored pkt stamp pkt.src moved.wheel slot_fits) [
    | inl (done, near, time, f) ↦
        let (_, new_stamp, st2) = insert anchored pkt stamp pkt.src in
        let st' = record st2 {
          flow_info = set st2.flow_info pkt.src (record info { last_stamp = new_stamp });
          packets_num = u64 (st2.packets_num + 1);
          enqueue_pkts = u64 (st2.enqueue_pkts + 1);
        } in
        let r : SameRing st2 st' = record {
          queue = refl;
          header_ts = refl;
          granularity = refl;
          slots = refl;
        } in
        rw done (stored-Arrival st2 st' r kept refl refl f)
    | inr (dropped, why, u) ↦ rw dropped (
      record {
        sound = record {
          wheel = u.wheel;
          counted = omega (arith, u.total, waiting_before, kept.packets_num, v.counted);
        };
        granularity = kept.granularity;
        slots = kept.slots;
        max_dequeue_burst = kept.max_dequeue_burst;
      },
      inr (record { dropped = refl; same = λ s. u.same s ∙ as_before s }),
      omega (arith, u.total, waiting_before),
      omega (arith, kept.packets_num),
    )
  ]
