-- ===== src/Carousel/Task.antt =====
-- bess/core/modules/carousel.cc: `RunTask`.
use flow_bundler.Common.{
  ℕ, ◌+◌, ◌*◌, List, [], take, drop, u32, u64, sub64, ltb, ◌==◌, if◌then◌else◌, false, Option, none,
  some,
}
use flow_bundler.CircularQueue
use flow_bundler.Packet.{Packet, PacketBatch, live}
use flow_bundler.Task.{Turn, sent_of, QueueStats, TaskResult, blocked, bytes_of, count_out}
use flow_bundler.Carousel.{Carousel, enqueue, dequeue}

-- The part of `RunTask` before `Dequeue`: `none` where it returns.
unfoldable pub generate : Carousel → Turn → Option (List Packet × Carousel)
generate st turn =
    if CircularQueue.is_empty st.shared.flow_to_gen
    then some ([], st)
    else elim (turn.generated) [ none ↦ none | some pkts ↦ some (enqueue st pkts) ]

-- What `SendPackets` reports for the counters.
unfoldable pub note_sent : Carousel → ℕ → Carousel
note_sent st sent =
    let some_sent = ltb 0 sent in
    record st {
      dequeue_pkts = if some_sent then u64 (st.dequeue_pkts + sent) else st.dequeue_pkts;
      dequeued_batch = if some_sent then u64 (st.dequeued_batch + 1) else st.dequeued_batch;
      packets_num = sub64 st.packets_num sent;
    }

-- The part after it, for a batch that is not empty.
unfoldable pub send :
    Carousel → PacketBatch → Turn → QueueStats → TaskResult × Carousel × QueueStats
send st batch turn stats =
    let sent = sent_of turn in
    let out = take sent (live batch) in
    (
      record {
        sent_packets = out;
        freed = drop sent (live batch);
        block = false;
        packets = u32 batch.cnt;
        bits = u64 (bytes_of (live batch) * 8);
      },
      (if turn.admin_up then note_sent st turn.sent else st),
      count_out turn.self_out_stats stats batch sent,
    )

-- The packets that `Enqueue` drops come first. `none` if the loop of `Dequeue` runs out of fuel.
unfoldable pub run_task :
    Carousel
    → PacketBatch
    → Turn
    → QueueStats
    → Option (List Packet × TaskResult × Carousel × QueueStats)
unfolding generate send
run_task st batch turn stats =
    if turn.overload then some ([], blocked, st, stats) else elim (generate st turn) [
      | none ↦ some ([], blocked, st, stats)
      | some (dropped, st1) ↦ elim (dequeue st1 batch turn.ns) [
        | none ↦ none
        | some (st2, batch2) ↦
            if batch2.cnt == 0
            then some (dropped, blocked, st2, stats)
            else let (result, st3, stats') = send st2 batch2 turn stats in
              some (dropped, result, st3, stats')
      ]
    ]
