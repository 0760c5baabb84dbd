-- ===== src/Eiffel/Round.antt =====
-- A whole `RunTask` of Eiffel.
use flow_bundler.Common.{
  ℕ, ◌+◌, ◌*◌, ◌^◌, ◌<◌, ◌≡◌, refl, List, [], ◌∷◌, set, get_or, ◌==◌, inl, inr, arith, Bool-cases,
  none, some, ◌∙◌, ◌⊎◌, Option-cases,
}
use flow_bundler.CircularQueue
use flow_bundler.Packet.{Packet, PacketBatch}
use flow_bundler.Task.{Turn, QueueStats}
use flow_bundler.FlowBundler.State.{known_flow, next_stamp, no_flow}
use flow_bundler.Eiffel.{Eiffel, drop_packet_insert, enqueue_one, enqueue, dequeue}
use flow_bundler.Eiffel.Calendar.{IsEiffel}
use flow_bundler.Eiffel.Serve.{eiffel_dequeue_lem}
use flow_bundler.Eiffel.Start.{eiffel_enqueue-IsEiffel}
use flow_bundler.Eiffel.Task.{generate, note_sent, send, run_task}

-- The fields that only `Init` and `Dequeue` change.
record Timed (st st' : Eiffel) : Type 0 where
  pub main_ts_same : st'.main_ts ≡ st.main_ts
  pub horizon_same : st'.horizon ≡ st.horizon
  pub granularity_same : st'.granularity ≡ st.granularity

drop_packet_insert-Timed :
    (st : Eiffel) (packet : Packet) (send_time flow_id : ℕ)
    → Timed st (drop_packet_insert st packet send_time flow_id).2
unfolding drop_packet_insert
drop_packet_insert-Timed st packet send_time flow_id = record {
  main_ts_same = ground arith;
  horizon_same = ground arith;
  granularity_same = ground arith;
}

enqueue_one-Timed : (st : Eiffel) (now : ℕ) (pkt : Packet) → Timed st (enqueue_one st now pkt).1
unfolding enqueue_one
enqueue_one-Timed st now pkt =
    let info = known_flow (get_or st.flow_info pkt.src no_flow) now in
    let st1 = record st { flow_info = set st.flow_info pkt.src info } in
    let stamp = next_stamp info pkt.total_len now in
    let t = drop_packet_insert-Timed st1 pkt stamp pkt.src in
    elim (Bool-cases (drop_packet_insert st1 pkt stamp pkt.src).0) [
      | inl done ↦
          rw (done, enqueue_one)
            (record {
              main_ts_same = t.main_ts_same;
              horizon_same = t.horizon_same;
              granularity_same = t.granularity_same;
            })
      | inr full ↦
          rw (full, enqueue_one)
            (record {
              main_ts_same = t.main_ts_same;
              horizon_same = t.horizon_same;
              granularity_same = t.granularity_same;
            })
    ]

enqueue-Timed : (st : Eiffel) (batch : List (ℕ × Packet)) → Timed st (enqueue st batch).1
unfolding enqueue
enqueue-Timed st [] = record { main_ts_same = refl; horizon_same = refl; granularity_same = refl }
enqueue-Timed st ((now, pkt) ∷ rest) =
    let first = enqueue_one-Timed st now pkt in
    let others = enqueue-Timed (enqueue_one st now pkt).1 rest in
    record {
      main_ts_same = others.main_ts_same ∙ first.main_ts_same;
      horizon_same = others.horizon_same ∙ first.horizon_same;
      granularity_same = others.granularity_same ∙ first.granularity_same;
    }

note_sent-IsEiffel :
    (n : ℕ) (st : Eiffel) (cnt sent : ℕ) → IsEiffel n st → IsEiffel n (note_sent st cnt sent)
unfolding note_sent
note_sent-IsEiffel n st cnt sent v = record {
  some_bucket = v.some_bucket;
  step = v.step;
  reach = v.reach;
  phase = v.phase;
  main_half = v.main_half;
  buffer_half = v.buffer_half;
}

send-IsEiffel :
    (n : ℕ) (st : Eiffel) (batch : PacketBatch) (turn : Turn) (stats : QueueStats)
    → IsEiffel n st
    → IsEiffel n (send st batch turn stats).1
unfolding send
send-IsEiffel n st batch turn stats v = elim (Bool-cases turn.admin_up) [
  | inl up ↦ rw (up, send) (note_sent-IsEiffel n st batch.cnt turn.sent v)
  | inr down ↦ rw (down, send) v
]

generate-cases :
    (n : ℕ) (st : Eiffel) (turn : Turn)
    → IsEiffel n st
    → st.main_ts + st.horizon + st.horizon < 2 ^ 64
    → (generate st turn ≡ none)
      ⊎ ((dropped : List Packet) × (st1 : Eiffel) × (generate st turn ≡ some (dropped, st1))
          × IsEiffel n st1
          × Timed st st1)
unfolding generate
generate-cases n st turn v fits = elim (Bool-cases (CircularQueue.is_empty st.shared.flow_to_gen)) [
  | inl idle ↦ inr (
    [],
    st,
    rw idle refl,
    v,
    record { main_ts_same = refl; horizon_same = refl; granularity_same = refl },
  )
  | inr busy ↦ elim (Option-cases turn.generated) [
    | inl failed ↦ inl (rw (failed, busy, generate) refl)
    | inr (pkts, e) ↦ inr (
      (enqueue st pkts).0,
      (enqueue st pkts).1,
      rw (e, busy, generate) refl,
      eiffel_enqueue-IsEiffel n st pkts v fits,
      enqueue-Timed st pkts,
    )
  ]
]

-- `RunTask` keeps every bucket with a packet marked in the bitmap of its half and the two halves one
-- horizon apart, when it returns early, drops packets, finds no packet due, or sends a batch. The times of
-- the calendar and the clock must be two horizons and one horizon away from their wrap-around.
pub run_task-IsEiffel :
    (n : ℕ) (st : Eiffel) (batch : PacketBatch) (turn : Turn) (stats : QueueStats)
    → IsEiffel n st
    → st.main_ts + 2 * (n * st.granularity) < 2 ^ 64
    → turn.ns + st.horizon < 2 ^ 64
    → IsEiffel n (run_task st batch turn stats).2
unfolding run_task send
run_task-IsEiffel n st batch turn stats v fits early =
    let two : st.main_ts + st.horizon + st.horizon < 2 ^ 64 = omega (arith, v.reach) in
    elim (Bool-cases turn.overload) [
      | inl e ↦ rw e v
      | inr on ↦ elim (generate-cases n st turn v two) [
        | inl stop ↦ rw (stop, on, run_task) v
        | inr (dropped, st1, e, v1, t) ↦
            let fits1 : st1.main_ts + 2 * (n * st1.granularity) < 2 ^ 64 =
              rw (t.main_ts_same, t.granularity_same) fits in
            let early1 : turn.ns + st1.horizon < 2 ^ 64 = rw t.horizon_same early in
            let kept = (eiffel_dequeue_lem n st1 batch turn.ns v1 fits1 early1).kept in
            let out = dequeue st1 batch turn.ns in
            elim (Bool-cases (out.1.cnt == 0)) [
              | inl idle ↦ rw (e, idle, on, run_task) kept
              | inr busy ↦ rw (e, busy, on, run_task) (send-IsEiffel n out.0 out.1 turn stats kept)
            ]
      ]
    ]
