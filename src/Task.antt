-- ===== src/Task.antt =====
-- What the `RunTask` of each shaper has: its result (bess/core/task.h), and the statistics that it keeps
-- of a queue of the port (bess/core/port.h), but for the histograms.
use flow_bundler.Common.{
  ℕ, ◌+◌, ◌-◌, List, [], take, sum_by, u64, if◌then◌else◌, Bool, true, Option,
}
use flow_bundler.Packet.{Packet, PacketBatch, live}

-- `queue_stats[PACKET_DIR_OUT][qid]` of the port
pub record QueueStats : Type 0 where
  pub packets : ℕ  -- uint64_t
  pub dropped : ℕ  -- uint64_t
  pub bytes : ℕ  -- uint64_t

-- What the turn sends and frees, and the three fields that `RunTask` returns.
pub record TaskResult : Type 0 where
  pub sent_packets : List Packet
  pub freed : List Packet
  pub block : Bool
  pub packets : ℕ  -- uint32_t
  pub bits : ℕ  -- uint64_t

abbrev pub blocked : TaskResult
blocked = record { sent_packets = []; freed = []; block = true; packets = 0; bits = 0 }

abbrev pub bytes_of : List Packet → ℕ
bytes_of ps = sum_by (λ p. p.total_len) ps

-- `self_out_stats` is the flag DRIVER_FLAG_SELF_OUT_STATS of the driver.
unfoldable pub count_out : Bool → QueueStats → PacketBatch → ℕ → QueueStats
count_out self_out_stats stats batch sent = if self_out_stats then stats else record {
  packets = u64 (stats.packets + sent);
  dropped = u64 (stats.dropped + (batch.cnt - sent));
  bytes = u64 (stats.bytes + bytes_of (take sent (live batch)));
}

-- A turn of Eiffel or Carousel: what the packet generator, the clock and the port do in it.
-- `generated` is the batch that the generator makes, with the clock's reading for each packet, or
-- `none` where it cannot allocate; `sent` is what `SendPackets` returns.
pub record Turn : Type 0 where
  pub overload : Bool
  pub generated : Option (List (ℕ × Packet))
  pub ns : ℕ
  pub admin_up : Bool
  pub sent : ℕ
  pub self_out_stats : Bool

-- `sent_pkts`
abbrev pub sent_of : Turn → ℕ
sent_of turn = if turn.admin_up then turn.sent else 0
