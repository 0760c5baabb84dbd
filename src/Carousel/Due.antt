-- ===== src/Carousel/Due.antt =====
-- The packets that wait, against the log of those that `Enqueue` accepted.
use flow_bundler.Common.{
  ℕ, ◌+◌, ◌/◌, ◌^◌, ◌≤◌, ◌<◌, ◌≡◌, ◌⊎◌, refl, sym, subst, ◌∙◌, List, [], ◌∷◌, ◌++◌, append_assoc,
  length, take, All, Any, All-mono, Any-mono, All-take, All-drop, if◌then◌else◌, Bool, inl, inr,
  eq_or_ne, arith,
}
use flow_bundler.Packet.{Packet, PacketBatch, live}
use flow_bundler.ListBucket.{PacketNode}
use flow_bundler.ListBucket.Numbers.{packets_of}
use flow_bundler.Carousel.{Carousel, enqueue_one, enqueue}
use flow_bundler.Carousel.Wheel.{queued, waiting}
use flow_bundler.Carousel.Dequeue.{Dequeued}
use flow_bundler.Carousel.Anchor.{IsCarousel}
use flow_bundler.Carousel.Arrive.{stamp_of, Arrived, Rejected, Steady, enqueue_one-Arrival}

-- Each entry is a packet that was accepted, and the slot of the time that it was given.
abbrev pub Log : Type 0
Log = List (ℕ × Packet)

-- The packet was accepted for slot `s` or an earlier one.
abbrev pub Due : Log → ℕ → Packet → Type 0
Due log s p = Any (λ (e : ℕ × Packet). (e.0 ≤ s) × (e.1 ≡ p)) log

-- No packet waits for a slot before that of its time.
abbrev pub AllDue : Log → Carousel → Type 0
AllDue log st = (s : ℕ) → All (λ (x : PacketNode). Due log s x.packet) (queued st s)

-- What a round of `Enqueue` adds to the log.
abbrev pub filed_one : Carousel → ℕ → Packet → Log
filed_one st now pkt =
    if (enqueue_one st now pkt).0 then (stamp_of st now pkt / st.granularity, pkt) ∷ [] else []

abbrev pub filed : Carousel → List (ℕ × Packet) → Log
filed st [] = []
filed st ((now, pkt) ∷ rest) = filed (enqueue_one st now pkt).1 rest ++ filed_one st now pkt

Due-later : (log : Log) (s t : ℕ) (p : Packet) → s ≤ t → Due log s p → Due log t p
Due-later log s t p le = Any-mono (λ e h. (omega (arith, h.0), h.1)) log

All-Due-later :
    (log : Log) (s t : ℕ) → s ≤ t → (ps : List Packet) → All (Due log s) ps → All (Due log t) ps
All-Due-later log s t le = All-mono (λ p. Due-later log s t p le)

All-packets_of :
    (P : Packet → Type 0) (xs : List PacketNode)
    → All (λ (x : PacketNode). P x.packet) xs
    → All P (packets_of xs)
All-packets_of P [] h = tt
All-packets_of P (x ∷ xs) h = (h.0, All-packets_of P xs h.1)

arrive-AllDue :
    (log : Log) (st : Carousel) (now : ℕ) (pkt : Packet) (out : Bool × Carousel)
    → Arrived st now pkt out ⊎ Rejected st out
    → AllDue log st
    → AllDue ((if out.0 then (stamp_of st now pkt / st.granularity, pkt) ∷ [] else []) ++ log) out.1
arrive-AllDue log st now pkt out (inl a) due s =
    let longer = (stamp_of st now pkt / st.granularity, pkt) ∷ log in
    let older : AllDue longer st = λ t.
      All-mono {P = λ (x : PacketNode). Due log t x.packet}
        {Q = λ (x : PacketNode). Due longer t x.packet} (λ x h. inr h) (queued st t) (due t) in
    let Waits = λ (t : ℕ). All (λ (x : PacketNode). Due longer t x.packet) (queued out.1 t) in
    let first : Waits a.slot = rw (a.at_slot) (inl (a.in_time, sym a.holds), older a.slot) in
    rw (a.done) (elim (eq_or_ne s a.slot) [
      | inl e ↦ subst Waits (sym e) first
      | inr ne ↦ rw (a.others s ne) (older s)
    ])
arrive-AllDue log st now pkt out (inr r) due s = rw (r.dropped, r.same s) (due s)

-- What holds before a batch comes.
pub record Ready (st : Carousel) (pkts : List (ℕ × Packet)) : Type 0 where
  pub sound : IsCarousel st
  pub clocks : All (λ (e : ℕ × Packet). e.0 / st.granularity + st.slots < 2 ^ 64) pkts
  pub few : waiting st + length pkts < 2 ^ 31
  pub room : st.packets_num + length pkts < 2 ^ 64

pub enqueue-AllDue :
    (log : Log) (st : Carousel) (pkts : List (ℕ × Packet))
    → Ready st pkts
    → AllDue log st
    → Steady st (enqueue st pkts).1
      × AllDue (filed st pkts ++ log) (enqueue st pkts).1
      × ((enqueue st pkts).1.packets_num ≤ st.packets_num + length pkts)
unfolding enqueue
enqueue-AllDue log st [] r due = (
  record { sound = r.sound; granularity = refl; slots = refl; max_dequeue_burst = refl },
  due,
  omega arith,
)
enqueue-AllDue log st ((now, pkt) ∷ rest) r due =
    let a =
      enqueue_one-Arrival st now pkt r.sound r.clocks.0 (omega (arith, r.few))
        (omega (arith, r.room)) in
    let st1 = (enqueue_one st now pkt).1 in
    let r1 : Ready st1 rest = record {
      sound = a.0.sound;
      clocks = rw (a.0.granularity, a.0.slots) r.clocks.1;
      few = omega (arith, a.2, r.few);
      room = omega (arith, a.3, r.room);
    } in
    let (steady, later, grows) =
      enqueue-AllDue (filed_one st now pkt ++ log) st1 rest r1
        (arrive-AllDue log st now pkt (enqueue_one st now pkt) a.1 due) in
    (
      record {
        sound = steady.sound;
        granularity = steady.granularity ∙ a.0.granularity;
        slots = steady.slots ∙ a.0.slots;
        max_dequeue_burst = steady.max_dequeue_burst ∙ a.0.max_dequeue_burst;
      },
      rw (append_assoc (filed st1 rest) (filed_one st now pkt) log) later,
      omega (arith, a.3, grows),
    )

-- What `Dequeue` releases is due, and so is what stays.
pub Dequeued-AllDue :
    (log : Log) (now : ℕ) (st : Carousel) (out : Carousel × PacketBatch)
    → Dequeued now st out
    → AllDue log st
    → AllDue log out.0 × All (Due log now) (live out.1)
Dequeued-AllDue log now st out d due = elim (d.cases) [
  | inl q ↦ ((λ s. rw (q.same s) (due s)), rw (q.empty) tt)
  | inr r ↦
      let D = λ (s : ℕ) (x : PacketNode). Due log s x.packet in
      (
        (λ s. elim (eq_or_ne s r.slot) [
          | inl e ↦ rw (e, r.rest) (All-drop (D r.slot) r.number (queued st r.slot) (due r.slot))
          | inr ne ↦ rw (r.others s ne) (due s)
        ]),
        rw (r.sent) (
            All-Due-later log r.slot now r.due (packets_of (take r.number (queued st r.slot))) (
              All-packets_of (Due log r.slot) (take r.number (queued st r.slot))
                (All-take (D r.slot) r.number (queued st r.slot) (due r.slot)))),
      )
]
