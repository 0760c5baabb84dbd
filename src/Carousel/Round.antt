-- ===== src/Carousel/Round.antt =====
-- `RunTask` returns, and keeps what holds between turns.
use flow_bundler.Common.{
  ◌/◌, ◌≤◌, ◌≡◌, refl, ◌∙◌, List, [], ◌++◌, take, All-take, ◌==◌, some, inl, inr, Bool-cases, arith,
}
use flow_bundler.Packet.{Packet, PacketBatch, live}
use flow_bundler.Carousel.{Carousel}
use flow_bundler.Task.{Turn, sent_of, QueueStats, TaskResult, blocked}
use flow_bundler.Carousel.Task.{send, run_task}
use flow_bundler.Carousel.Wheel.{queued-SameRing, waiting-SameRing, IsWheel-SameRing}
use flow_bundler.Carousel.Dequeue.{dequeue_returns}
use flow_bundler.Carousel.Due.{Log, Due, Ready}
use flow_bundler.Carousel.Turns.{
  send-SameRing, made, Bounds, Between, logged, generate-Generated, Turned, stopped-Turned,
  TakenOut, Dequeued-TakenOut,
}

module _ (log : Log) (st : Carousel) (turn : Turn) (dropped : List Packet)
    (out : Carousel × PacketBatch) (stats : QueueStats) (t : TakenOut log st turn out) where
  -- A batch that turns out empty.
  empty-Turned : Turned log st turn (dropped, blocked, out.0, stats)
  empty-Turned = record { sound = λ h. t.sound; due = t.due; burst = t.burst; sent = tt }

  abbrev sending : TaskResult × Carousel × QueueStats
  sending = send out.0 out.1 turn stats

  packets-send : sending.0.packets ≡ out.1.cnt
  unfolding send
  packets-send = omega (arith, t.small)

  sent_packets-send : sending.0.sent_packets ≡ take (sent_of turn) (live out.1)
  unfolding send
  sent_packets-send = refl

  sent_of_le : sent_of turn ≤ turn.sent
  sent_of_le = ground arith

  send-Turned : Turned log st turn (dropped, sending.0, sending.1, sending.2)
  send-Turned =
      let (r, burst, count) = send-SameRing out.0 out.1 turn stats in
      record {
        sound = λ h.
            let le : sent_of turn ≤ out.1.cnt = omega (arith, sent_of_le, packets-send) in
            record {
              wheel = IsWheel-SameRing r t.sound.wheel;
              counted =
                  omega (
                    arith,
                    waiting-SameRing r,
                    count (omega (arith, t.unsent)) t.room,
                    t.unsent,
                    le,
                  );
            };
        due = λ s. rw (queued-SameRing r s) (t.due s);
        burst = burst ∙ t.burst;
        sent = rw sent_packets-send (
            All-take (Due (logged st turn ++ log) (turn.ns / st.granularity)) (sent_of turn)
              (live out.1) t.sent);
      }

-- `RunTask` returns.
pub run_task-Turned :
    (log : Log) (st : Carousel) (batch : PacketBatch) (turn : Turn) (stats : QueueStats)
    → Between log st
    → Bounds st batch turn
    → (out : List Packet × TaskResult × Carousel × QueueStats) × (run_task st batch turn stats
        ≡ some out)
      × Turned log st turn out
unfolding run_task
run_task-Turned log st batch turn stats b f = elim (Bool-cases turn.overload) [
  | inl e ↦ (
    ([], blocked, st, stats),
    rw e refl,
    stopped-Turned log st turn stats b.sound b.due (rw e refl),
  )
  | inr on ↦
      let ready : Ready st (made turn) = record {
        sound = b.sound;
        clocks = f.clocks;
        few = f.few;
        room = f.room;
      } in
      elim (generate-Generated log st turn ready b.due on) [
        | inl (stop, no_packets, busy) ↦ (
          ([], blocked, st, stats),
          rw (on, stop, run_task) refl,
          stopped-Turned log st turn stats b.sound b.due (rw (on, busy, no_packets) refl),
        )
        | inr (dropped, st1, e, g) ↦
            let (out, e1, d) =
              dequeue_returns st1 batch turn.ns g.steady.sound.wheel
                (λ few. omega (
                  arith,
                  b.burst (omega (arith, few, g.steady.max_dequeue_burst)),
                  f.array,
                  g.steady.max_dequeue_burst,
                ))
                (rw (g.steady.granularity, g.steady.slots) f.clock) in
            let t =
              Dequeued-TakenOut log st turn st1 out b.burst g (rw (← g.steady.granularity) d) in
            elim (Bool-cases (out.1.cnt == 0)) [
              | inl nothing ↦ (
                (dropped, blocked, out.0, stats),
                rw (on, e, e1, nothing, run_task) refl,
                empty-Turned log st turn dropped out stats t,
              )
              | inr something ↦
                  let (result, st3, stats') = send out.0 out.1 turn stats in
                  (
                    (dropped, result, st3, stats'),
                    rw (on, e, e1, something, run_task) refl,
                    send-Turned log st turn dropped out stats t,
                  )
            ]
      ]
]
