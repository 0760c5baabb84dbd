-- ===== src/Carousel/Turns.antt =====
-- The parts of `RunTask`: what each does to the packets that wait, and to the log.
use flow_bundler.Common.{
  ℕ, ◌+◌, ◌-◌, ◌/◌, ◌^◌, ◌≤◌, ◌<◌, ◌≡◌, ◌⊎◌, refl, sym, subst, ◌∙◌, List, [], ◌++◌, length, All,
  if◌then◌else◌, false, none, some, inl, inr, Bool-cases, Option-cases, arith,
}
use flow_bundler.CircularQueue.{is_empty}
use flow_bundler.Packet.{Packet, PacketBatch, max_burst, live}
use flow_bundler.Carousel.{Carousel, enqueue}
use flow_bundler.Task.{Turn, sent_of, QueueStats, TaskResult, blocked}
use flow_bundler.Carousel.Task.{note_sent, generate, send}
use flow_bundler.Carousel.Wheel.{waiting, SameRing}
use flow_bundler.Carousel.Dequeue.{Dequeued}
use flow_bundler.Carousel.Anchor.{IsCarousel}
use flow_bundler.Carousel.Arrive.{Steady}
use flow_bundler.Carousel.Due.{Log, Due, AllDue, filed, Ready, enqueue-AllDue, Dequeued-AllDue}

pub send-SameRing :
    (st : Carousel) (batch : PacketBatch) (turn : Turn) (stats : QueueStats)
    → let st' = (send st batch turn stats).1 in
      SameRing st st'
      × (st'.max_dequeue_burst ≡ st.max_dequeue_burst)
      × (sent_of turn ≤ st.packets_num
          → st.packets_num < 2 ^ 64
          → st'.packets_num ≡ st.packets_num - sent_of turn)
unfolding send note_sent
send-SameRing st batch turn stats = elim (Bool-cases turn.admin_up) [
  | inl e ↦ rw e (
    record { queue = refl; header_ts = refl; granularity = refl; slots = refl },
    refl,
    (λ le small. omega arith),
  )
  | inr e ↦ rw e (
    record { queue = refl; header_ts = refl; granularity = refl; slots = refl },
    refl,
    (λ le small. omega arith),
  )
]

-- The packets that the generator makes.
abbrev pub made : Turn → List (ℕ × Packet)
made turn = elim (turn.generated) [ none ↦ [] | some pkts ↦ pkts ]

-- The bounds of a turn: the clock is a ring away from its wrap-around, the array of the batch has its
-- size, and the packets do not outgrow their counters.
pub record Bounds (st : Carousel) (batch : PacketBatch) (turn : Turn) : Type 0 where
  pub clocks : All (λ (e : ℕ × Packet). e.0 / st.granularity + st.slots < 2 ^ 64) (made turn)
  pub few : waiting st + length (made turn) < 2 ^ 31
  pub room : st.packets_num + length (made turn) < 2 ^ 64
  pub clock : turn.ns / st.granularity + st.slots + 1 < 2 ^ 64
  pub array : length batch.pkts ≡ max_burst

-- What holds between turns.
pub record Between (log : Log) (st : Carousel) : Type 0 where
  pub sound : IsCarousel st
  pub due : AllDue log st
  pub burst : st.max_dequeue_burst < 2 ^ 31 → st.max_dequeue_burst ≤ max_burst

-- What a turn adds to the log.
abbrev pub logged : Carousel → Turn → Log
logged st turn =
    if turn.overload
    then []
    else if is_empty st.shared.flow_to_gen
    then []
    else filed st (made turn)

-- `RunTask` up to `Dequeue`: how the calendar stands, if the turn goes on.
pub record Generated (log : Log) (st : Carousel) (added : Log) (st1 : Carousel) : Type 0 where
  pub steady : Steady st st1
  pub due : AllDue (added ++ log) st1
  pub room : st1.packets_num < 2 ^ 64

pub generate-Generated :
    (log : Log) (st : Carousel) (turn : Turn)
    → Ready st (made turn)
    → AllDue log st
    → turn.overload ≡ false
    → ((generate st turn ≡ none)
        × (turn.generated ≡ none)
        × (is_empty st.shared.flow_to_gen ≡ false))
      ⊎ ((dropped : List Packet) × (st1 : Carousel) × (generate st turn ≡ some (dropped, st1))
          × Generated log st (logged st turn) st1)
unfolding generate
generate-Generated log st turn r due on = elim (Bool-cases (is_empty st.shared.flow_to_gen)) [
  | inl idle ↦ inr (
    [],
    st,
    rw (idle) refl,
    rw (on, idle)
        (record {
          steady = record {
            sound = r.sound;
            granularity = refl;
            slots = refl;
            max_dequeue_burst = refl;
          };
          due = due;
          room = omega (arith, r.room);
        }),
  )
  | inr busy ↦ elim (Option-cases turn.generated) [
    | inl e ↦ inl (rw (busy, e, generate) refl, e, busy)
    | inr (pkts, e) ↦
        let (steady, later, grows) = enqueue-AllDue log st pkts (rw e at r) due in
        inr (
          (enqueue st pkts).0,
          (enqueue st pkts).1,
          rw (busy, e, generate) refl,
          rw (on, busy, e)
              (record {
                steady = steady;
                due = later;
                room = let fits = rw e at r.room in omega (arith, grows, fits);
              }),
        )
  ]
]

-- What a turn leaves behind, and what it gives to the port.
pub record Turned (log : Log) (st : Carousel) (turn : Turn)
    (out : List Packet × TaskResult × Carousel × QueueStats) : Type 0 where
  pub sound : turn.sent ≤ out.1.packets → IsCarousel out.2
  pub due : AllDue (logged st turn ++ log) out.2
  pub burst : out.2.max_dequeue_burst ≡ st.max_dequeue_burst
  pub sent : All (Due (logged st turn ++ log) (turn.ns / st.granularity)) out.1.sent_packets

pub stopped-Turned :
    (log : Log) (st : Carousel) (turn : Turn) (stats : QueueStats)
    → IsCarousel st
    → AllDue log st
    → logged st turn ≡ []
    → Turned log st turn ([], blocked, st, stats)
stopped-Turned log st turn stats v due e = record {
  sound = λ h. v;
  due = subst (λ l. AllDue (l ++ log) st) (sym e) due;
  burst = refl;
  sent = tt;
}

-- The module with a batch that it has taken out.
pub record TakenOut (log : Log) (st : Carousel) (turn : Turn) (out : Carousel × PacketBatch)
    : Type 0 where
  pub sound : IsCarousel out.0
  pub unsent : waiting out.0 + out.1.cnt ≤ out.0.packets_num
  pub room : out.0.packets_num < 2 ^ 64
  pub small : out.1.cnt < 2 ^ 32
  pub due : AllDue (logged st turn ++ log) out.0
  pub burst : out.0.max_dequeue_burst ≡ st.max_dequeue_burst
  pub sent : All (Due (logged st turn ++ log) (turn.ns / st.granularity)) (live out.1)

pub Dequeued-TakenOut :
    (log : Log) (st : Carousel) (turn : Turn) (st1 : Carousel) (out : Carousel × PacketBatch)
    → (st.max_dequeue_burst < 2 ^ 31 → st.max_dequeue_burst ≤ max_burst)
    → Generated log st (logged st turn) st1
    → Dequeued (turn.ns / st.granularity) st1 out
    → TakenOut log st turn out
Dequeued-TakenOut log st turn st1 out few g d =
    let (due, sent) =
      Dequeued-AllDue (logged st turn ++ log) (turn.ns / st.granularity) st1 out d g.due in
    let counts : (waiting out.0 + out.1.cnt ≡ waiting st1) × (out.1.cnt ≤ max_burst) =
      elim (d.cases) [
        | inl q ↦ (omega (arith, q.count, q.total), omega (arith, q.count))
        | inr r ↦ (
          omega (arith, r.count, r.total),
          omega (
            arith,
            r.count,
            r.at_most,
            g.steady.max_dequeue_burst,
            few (omega (arith, r.quota, g.steady.max_dequeue_burst)),
          ),
        )
      ] in
    let before = g.steady.sound.counted in
    record {
      sound = record {
        wheel = d.wheel;
        counted = omega (arith, counts, before, d.kept.packets_num);
      };
      unsent = omega (arith, counts, before, d.kept.packets_num);
      room = rw d.kept.packets_num g.room;
      small = omega (arith, counts);
      due = due;
      burst = d.kept.max_dequeue_burst ∙ g.steady.max_dequeue_burst;
      sent = sent;
    }
