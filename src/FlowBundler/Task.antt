-- ===== src/FlowBundler/Task.antt =====
-- bess/core/modules/flowbundler.cc: `RunTask`, with the packet generator. What the pool of packet
-- buffers, the clock and the port do in a turn is an argument.
use flow_bundler.Common.{
  ℕ, ◌+◌, ◌*◌, List, [], ◌∷◌, take, drop, u32, u64, ltb, ◌==◌, if◌then◌else◌, Bool, false, Option,
  none, some,
}
use flow_bundler.CircularQueue
use flow_bundler.EasyMap.{Doubles}
use flow_bundler.Packet.{Packet, PacketBatch, live}
use flow_bundler.Task.{QueueStats, TaskResult, blocked, bytes_of, count_out}
use flow_bundler.PacketGenerator.{PacketGenerator, alloc_packets, rewrite_using_single_template}
use flow_bundler.FlowBundler.State.{FlowBundler, enqueue, dequeue}

-- `alloc` is `AllocBulk`, `clock` the reading for each packet of the batch, `now` that of `Dequeue`,
-- `garbage` what its variable `dequeue_num` holds, and `sent` what `SendPackets` returns.
pub record Turn : Type 0 where
  pub overload : Bool
  pub alloc : ℕ → ℕ → Option (List Packet)
  pub clock : ℕ → ℕ
  pub now : ℕ
  pub garbage : ℕ
  pub admin_up : Bool
  pub sent : ℕ
  pub self_out_stats : Bool

-- `total_dequeue_batch_num` and `total_dequeue_pkts_num`
pub record Totals : Type 0 where
  pub batches : ℕ
  pub packets : ℕ

-- The readings of the clock from the `i`th on.
abbrev pub timed : (ℕ → ℕ) → ℕ → List Packet → List (ℕ × Packet)
timed clock i [] = []
timed clock i (p ∷ ps) = (clock i, p) ∷ timed clock (i + 1) ps

-- The part of `RunTask` before `Dequeue`: the packets that were generated, those of them that were
-- dropped, the module, and the batch; `none` where it returns.
unfoldable pub generate :
    Doubles
    → FlowBundler
    → PacketGenerator
    → PacketBatch
    → Turn
    → Option (List Packet × List Packet × FlowBundler × PacketBatch)
generate fp st g batch turn =
    let (done, batch1) = alloc_packets g st.shared.flow_to_gen turn.alloc batch in
    let (flow_to_gen, batch2) = rewrite_using_single_template g st.shared.flow_to_gen batch1 in
    let st1 = record st { shared = record (st.shared) { flow_to_gen = flow_to_gen } } in
    let (dropped, st2) = enqueue fp st1 (timed turn.clock 0 (live batch2)) in
    if CircularQueue.is_empty st.shared.flow_to_gen
    then some ([], [], st, batch)
    else if done
    then some (live batch2, dropped, st2, batch2)
    else none

-- `sent_pkts`
abbrev pub sent_of : Turn → ℕ
sent_of turn = if turn.admin_up then turn.sent else 0

-- The part after it, for a batch that is not empty.
unfoldable pub send : PacketBatch → Turn → QueueStats → Totals → TaskResult × QueueStats × Totals
send batch turn stats totals =
    let sent = sent_of turn in
    (
      record {
        sent_packets = take sent (live batch);
        freed = drop sent (live batch);
        block = false;
        packets = u32 batch.cnt;
        bits = u64 (bytes_of (live batch) * 8);
      },
      count_out turn.self_out_stats stats batch sent,
      (if ltb 0 sent
          then record { batches = u64 (totals.batches + 1); packets = u64 (totals.packets + sent) }
          else totals),
    )

-- What a turn leaves behind.
pub record TurnEnd : Type 0 where
  pub made : List Packet
  pub dropped : List Packet
  pub result : TaskResult
  pub state : FlowBundler
  pub stats : QueueStats
  pub totals : Totals

-- A turn that hands no batch to the port.
abbrev pub idle_end : List Packet → List Packet → FlowBundler → QueueStats → Totals → TurnEnd
idle_end made dropped st stats totals = record {
  made = made;
  dropped = dropped;
  result = blocked;
  state = st;
  stats = stats;
  totals = totals;
}

abbrev pub sent_end :
    List Packet → List Packet → FlowBundler → TaskResult × QueueStats × Totals → TurnEnd
sent_end made dropped st (result, stats, totals) = record {
  made = made;
  dropped = dropped;
  result = result;
  state = st;
  stats = stats;
  totals = totals;
}

-- `none` if the loop of `Dequeue` runs out of fuel.
unfoldable pub run_task :
    Doubles
    → FlowBundler
    → PacketGenerator
    → PacketBatch
    → Turn
    → QueueStats
    → Totals
    → Option TurnEnd
run_task fp st g batch turn stats totals =
    if turn.overload
    then some (idle_end [] [] st stats totals)
    else elim (generate fp st g batch turn) [
      | none ↦ some (idle_end [] [] st stats totals)
      | some (made, dropped, st1, batch1) ↦ elim (dequeue fp st1 batch1 turn.now turn.garbage) [
        | none ↦ none
        | some (st2, batch2) ↦
            if batch2.cnt == 0
            then some (idle_end made dropped st2 stats totals)
            else some (sent_end made dropped st2 (send batch2 turn stats totals))
      ]
    ]
