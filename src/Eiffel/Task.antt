-- ===== src/Eiffel/Task.antt =====
-- bess/core/modules/eiffel.cc: `RunTask`.
use flow_bundler.Common.{
  ℕ, ◌+◌, ◌*◌, List, [], take, drop, u32, u64, sub64, ltb, ◌==◌, if◌then◌else◌, false, Option, none,
  some,
}
use flow_bundler.CircularQueue
use flow_bundler.Packet.{Packet, PacketBatch, live}
use flow_bundler.Task.{Turn, sent_of, QueueStats, TaskResult, blocked, bytes_of, count_out}
use flow_bundler.Eiffel.{Eiffel, enqueue, dequeue}

-- The part of `RunTask` before `Dequeue`: `none` where it returns.
unfoldable pub generate : Eiffel → Turn → Option (List Packet × Eiffel)
generate st turn =
    if CircularQueue.is_empty st.shared.flow_to_gen
    then some ([], st)
    else elim (turn.generated) [ none ↦ none | some pkts ↦ some (enqueue st pkts) ]

-- What the module counts of a batch of `cnt` packets, of which `sent` went out. All of them are taken off
-- `packets_num`.
unfoldable pub note_sent : Eiffel → ℕ → ℕ → Eiffel
note_sent st cnt sent =
    let some_sent = ltb 0 sent in
    record st {
      dequeue_pkts = if some_sent then u64 (st.dequeue_pkts + sent) else st.dequeue_pkts;
      dequeued_batch = if some_sent then u64 (st.dequeued_batch + 1) else st.dequeued_batch;
      packets_num = sub64 st.packets_num cnt;
    }

-- The part after it, for a batch that is not empty. The bits are those of the packets that were sent.
unfoldable pub send : Eiffel → PacketBatch → Turn → QueueStats → TaskResult × Eiffel × QueueStats
send st batch turn stats =
    let sent = sent_of turn in
    let out = take sent (live batch) in
    (
      record {
        sent_packets = out;
        freed = drop sent (live batch);
        block = false;
        packets = u32 batch.cnt;
        bits = u64 (bytes_of out * 8);
      },
      (if turn.admin_up then note_sent st batch.cnt turn.sent else st),
      count_out turn.self_out_stats stats batch sent,
    )

-- The packets that `Enqueue` drops come first.
unfoldable pub run_task :
    Eiffel → PacketBatch → Turn → QueueStats → List Packet × TaskResult × Eiffel × QueueStats
run_task st batch turn stats =
    if turn.overload then ([], blocked, st, stats) else elim (generate st turn) [
      | none ↦ ([], blocked, st, stats)
      | some (dropped, st1) ↦
          let (st2, batch2) = dequeue st1 batch turn.ns in
          let (result, st3, stats') = send st2 batch2 turn stats in
          if batch2.cnt == 0 then (dropped, blocked, st2, stats) else (dropped, result, st3, stats')
    ]
