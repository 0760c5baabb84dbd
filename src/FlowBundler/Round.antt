-- ===== src/FlowBundler/Round.antt =====
-- `RunTask`, and the numbers of packets in a turn.
use flow_bundler.Common.{
  ℕ, suc, ◌+◌, ◌^◌, ◌≤◌, ◌<◌, ◌≡◌, ◌≢◌, ◌⊎◌, refl, ap, List, [], ◌∷◌, length, length-take, u32,
  ◌==◌, Bool, Option, none, some, inl, inr, Bool-cases, Option-cases, arith,
}
use flow_bundler.CircularQueue
use flow_bundler.EasyMap.{Doubles}
use flow_bundler.Packet.{Packet, PacketBatch, live}
use flow_bundler.PacketGenerator.{
  PacketGenerator, generate_num, alloc_packets, rewrite_using_single_template,
}
use flow_bundler.Task.{QueueStats}
use flow_bundler.FlowBundler.Geometry.{IsGeometry}
use flow_bundler.FlowBundler.State.{FlowBundler, enqueue}
use flow_bundler.FlowBundler.Task.{
  Turn, Totals, timed, generate, send, TurnEnd, idle_end, sent_end, run_task,
}
use flow_bundler.FlowBundler.Counted.{Counted}
use flow_bundler.FlowBundler.Fill.{HasRoom, enqueue_lem}
use flow_bundler.FlowBundler.Drain.{Dequeued, dequeue_lem}

length-timed : (clock : ℕ → ℕ) (i : ℕ) (ps : List Packet) → length (timed clock i ps) ≡ length ps
length-timed clock i [] = refl
length-timed clock i (p ∷ ps) = ap suc (length-timed clock (i + 1) ps)

HasRoom-fewer : {m n : ℕ} {st : FlowBundler} → m ≤ n → HasRoom n st → HasRoom m st
HasRoom-fewer le v = record { valid = v.valid; counted = v.counted; room = omega (arith, v.room) }

cnt-alloc_packets :
    (g : PacketGenerator) (q : CircularQueue.CircularQueue ℕ) (alloc : ℕ → ℕ → Option (List Packet))
    (batch : PacketBatch)
    → (alloc_packets g q alloc batch).1.cnt ≤ g.generate_burst
unfolding alloc_packets generate_num
cnt-alloc_packets g q alloc batch =
    elim (Option-cases (alloc (generate_num g q) g.generate_pkt_size)) [
      | inl e ↦ rw (e, alloc_packets) (omega arith)
      | inr (pkts, e) ↦ rw (e, alloc_packets) (ground arith)
    ]

-- What the generating part adds to the module.
record Added (st : FlowBundler) (made dropped : List Packet) (st1 : FlowBundler) : Type 0 where
  counted : Counted st1
  valid : IsGeometry st1.geometry
  total : st1.n_packets_total + length dropped ≡ st.n_packets_total + length made

module _ (fp : Doubles) (st : FlowBundler) (g : PacketGenerator) (batch : PacketBatch) (turn : Turn)
    (v : HasRoom g.generate_burst st) where
  abbrev allocated : Bool × PacketBatch
  allocated = alloc_packets g st.shared.flow_to_gen turn.alloc batch

  abbrev written : CircularQueue.CircularQueue ℕ × PacketBatch
  written = rewrite_using_single_template g st.shared.flow_to_gen allocated.1

  abbrev taken : FlowBundler
  taken = record st { shared = record (st.shared) { flow_to_gen = written.0 } }

  made_le : length (live written.1) ≤ g.generate_burst
  unfolding rewrite_using_single_template
  made_le = omega (
    arith,
    length-take written.1.cnt written.1.pkts,
    cnt-alloc_packets g st.shared.flow_to_gen turn.alloc batch,
  )

  made_room : HasRoom (length (timed turn.clock 0 (live written.1))) taken
  made_room = record {
    valid = v.valid;
    counted = v.counted;
    room = omega (arith, v.room, made_le, length-timed turn.clock 0 (live written.1));
  }

  generate-Added :
      (generate fp st g batch turn ≡ none)
      ⊎ ((made : List Packet) × (dropped : List Packet) × (st1 : FlowBundler)
          × (batch1 : PacketBatch) × (generate fp st g batch turn
              ≡ some (made, dropped, st1, batch1))
          × Added st made dropped st1)
  unfolding generate
  generate-Added = elim (Bool-cases (CircularQueue.is_empty st.shared.flow_to_gen)) [
    | inl idle ↦ inr (
      [],
      [],
      st,
      batch,
      rw idle refl,
      record { counted = v.counted; valid = v.valid; total = refl },
    )
    | inr busy ↦ elim (Bool-cases allocated.0) [
      | inr failed ↦ inl (rw (busy, failed) refl)
      | inl done ↦
          let pkts = timed turn.clock 0 (live written.1) in
          let (room, total) = enqueue_lem fp taken pkts made_room in
          inr (
            live written.1,
            (enqueue fp taken pkts).0,
            (enqueue fp taken pkts).1,
            written.1,
            rw (busy, done) refl,
            record {
              counted = room.counted;
              valid = room.valid;
              total = omega (arith, total, length-timed turn.clock 0 (live written.1));
            },
          )
    ]
  ]

-- The packets that were queued or generated, by number: dropped, reported, or queued.
pub record Balanced (st : FlowBundler) (end : TurnEnd) : Type 0 where
  pub counted : Counted end.state
  pub total :
      end.state.n_packets_total + length end.dropped + end.result.packets
      ≡ st.n_packets_total + length end.made

module _ (fp : Doubles) (st : FlowBundler) (g : PacketGenerator) (batch : PacketBatch) (turn : Turn)
    (stats : QueueStats) (totals : Totals) where
  abbrev stopped : TurnEnd
  stopped = idle_end [] [] st stats totals

  stopped-Balanced : Counted st → Balanced st stopped
  stopped-Balanced v = record { counted = v; total = omega arith }

  packets-send :
      (out : PacketBatch) → out.cnt < 2 ^ 32 → (send out turn stats totals).0.packets ≡ out.cnt
  unfolding send
  packets-send out small = omega arith

  -- The batch has the packets that `Dequeue` took off the total.
  taken_number :
      (st1 : FlowBundler) (b : PacketBatch) (st2 : FlowBundler) (b2 : PacketBatch)
      → turn.garbage ≡ 0
      → Counted st1
      → Dequeued turn.now turn.garbage st1 b st2 b2
      → (st2.n_packets_total + b2.cnt ≡ st1.n_packets_total) × (b2.cnt < 2 ^ 32)
  taken_number st1 b st2 b2 clean v d = elim (d.outcome) [
    | inl (none_queued, same, empty) ↦ ground (arith, v.small)
    | inr (cnt, inl (some_taken, total)) ↦ omega (arith, v.small)
    | inr (cnt, inr (inl unset, total, head)) ↦
        let zero_left : u32 turn.garbage ≡ 0 = rw clean refl in omega (arith, v.small)
    | inr (cnt, inr (inr nothing, total, head)) ↦ omega (arith, v.small)
  ]

  -- `RunTask` returns, keeps counters, bitmap and buckets in agreement, and accounts for every packet by
  -- number: as many as were queued or generated are dropped, in the count that it reports, or queued. The
  -- variable `dequeue_num`, which `Dequeue` may read before it is set, holds 0, there is room for the packets
  -- generated, the clock is before 2 ^ 63, and, if there are packets before `Dequeue`, the granularity of the
  -- head's queue is below 2 ^ 63.
  pub run_task-Balanced :
      HasRoom g.generate_burst st
      → turn.garbage ≡ 0
      → turn.now < 2 ^ 63
      → ((made dropped : List Packet) (st1 : FlowBundler) (batch1 : PacketBatch)
          → generate fp st g batch turn ≡ some (made, dropped, st1, batch1)
          → st1.n_packets_total ≢ 0
          → st1.highest_rate_qid + st1.geometry.min_gran_scale < 63)
      → (end : TurnEnd) × (run_task fp st g batch turn stats totals ≡ some end) × Balanced st end
  unfolding run_task
  run_task-Balanced v clean early fine = elim (Bool-cases turn.overload) [
    | inl e ↦ (stopped, rw e refl, stopped-Balanced v.counted)
    | inr on ↦ elim (generate-Added fp st g batch turn v) [
      | inl stop ↦ (stopped, rw (stop, on, run_task) refl, stopped-Balanced v.counted)
      | inr (made, dropped, st1, batch1, e, a) ↦
          let (out, e1, d) =
            dequeue_lem fp st1 batch1 turn.now turn.garbage a.valid a.counted
              (fine made dropped st1 batch1 e) early in
          let (exact, small) = taken_number st1 batch1 out.0 out.1 clean a.counted d in
          elim (Bool-cases (out.1.cnt == 0)) [
            | inl nothing ↦ (
              idle_end made dropped out.0 stats totals,
              rw (e, e1, nothing, on, run_task) refl,
              record { counted = d.counted; total = ground (arith, exact, a.total) },
            )
            | inr something ↦ (
              sent_end made dropped out.0 (send out.1 turn stats totals),
              rw (e, e1, something, on, run_task) refl,
              record {
                counted = d.counted;
                total = omega (arith, exact, a.total, packets-send out.1 small);
              },
            )
          ]
    ]
  ]
