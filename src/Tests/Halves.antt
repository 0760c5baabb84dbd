-- ===== src/Tests/Halves.antt =====
-- Two halves of four buckets of 100 ns.
use flow_bundler.Common.{◌⊎◌}
use flow_bundler.Platform.{Platform, InitError, Refused, EarlyPassed, PortPassed}
use flow_bundler.Eiffel.{failed}
use flow_bundler.Eiffel.Start.{Fresh}
use flow_bundler.Common.{
  ◌≡◌, ℕ, refl, arith, ap, [], ◌∷◌, replicate, get_or-replicate_lt, Bool, true, false, some,
}
use flow_bundler.CircularQueue
use flow_bundler.MemoryPool.{create}
use flow_bundler.Packet.{Packet, PacketBatch}
use flow_bundler.ListBucket.{ListBucket, new_bucket}
use flow_bundler.BitMap.{zero_layers}
use flow_bundler.BitMap.Size.{zero_layers-IsLinked, slot-zero_layers}
use flow_bundler.Eiffel.{Half, Eiffel, bucket_at, drop_packet_insert}
use flow_bundler.Eiffel.{EiffelArg, ready, init}
use flow_bundler.Eiffel.Start.{eiffel_init_lem}
use flow_bundler.Task.{Turn, QueueStats}
use flow_bundler.Eiffel.Task.{run_task}
use flow_bundler.Eiffel.Round.{run_task-IsEiffel}
use flow_bundler.Eiffel.Marks.{IsHalf}
use flow_bundler.Eiffel.Calendar.{IsEiffel}

abbrev half : Half
half = record { queue = replicate 4 (new_bucket 3000); map = zero_layers 1 }

half-IsHalf : IsHalf 4 half
unfolding zero_layers bucket_at
half-IsHalf = record {
  buckets = refl;
  linked = zero_layers-IsLinked 1 (omega arith);
  enough = omega arith;
  small = omega arith;
  within = λ i used. absurd (used (slot-zero_layers 1 i));
  marked = λ i hi used. absurd (
      used (
        ap (λ (b : ListBucket). b.node_num)
          (get_or-replicate_lt 4 i (new_bucket 3000) (new_bucket 0) hi)));
}

abbrev shaper : Eiffel
shaper = record {
  main = half;
  buffer = half;
  max_dequeue_burst = 32;
  dequeue_burst = 0;
  main_ts = 1000;
  buffer_ts = 1400;
  granularity = 100;
  horizon = 400;
  slots = 4;
  shared = record {
    pool = create 3 7;
    pkts_num = 0 ∷ 0 ∷ [];
    flow_to_gen = CircularQueue.create 0 8;
  };
  flow_info = replicate 2 (record { last_stamp = 900; rate = 100 });
  generate_burst = 32;
  packets_num = 0;
  max_bytes_per_flow = 3000;
  enqueue_pkts = 0;
  dequeue_pkts = 0;
  dequeued_batch = 0;
}

shaper-IsEiffel : IsEiffel 4 shaper
shaper-IsEiffel = record {
  some_bucket = omega arith;
  step = omega arith;
  reach = omega arith;
  phase = refl;
  main_half = half-IsHalf;
  buffer_half = half-IsHalf;
}

abbrev packet : Packet
packet = record { buffer = 9; total_len = 1500; src = 0; dst = 77 }

abbrev inserted : Bool × ℕ × Eiffel
inserted = drop_packet_insert shaper packet 1250 0

abbrev no_packets : PacketBatch
no_packets = record { cnt = 0; pkts = replicate 32 packet }

abbrev arg : EiffelArg
arg = record { size = 3; max_pkts_kbytes = 3; generate_burst = 32; granularity = 100; slots = 4 }

abbrev platform : Platform
platform = record { task_made = true; port_named = true; port_found = true; queues_acquired = true }

eiffel_init_lem_example :
    let out = init platform arg shaper.shared 1000 7 in
    ((e : InitError) × (out ≡ failed e) × Refused platform 32 e)
    ⊎ ((st : Eiffel) × (out ≡ ready st)
        × EarlyPassed platform 32
        × PortPassed platform
        × IsEiffel 4 st
        × Fresh arg 1000 st)
eiffel_init_lem_example =
    eiffel_init_lem platform arg shaper.shared 1000 7 (omega arith) (omega arith) (omega arith)
      (omega arith)

-- A turn that generates two packets, and sends what is due.
abbrev turn : Turn
turn = record {
  overload = false;
  generated = some ((1200, packet) ∷ (1210, packet) ∷ []);
  ns = 1300;
  admin_up = true;
  sent = 1;
  self_out_stats = false;
}

abbrev no_stats : QueueStats
no_stats = record { packets = 0; dropped = 0; bytes = 0 }

run_task-IsEiffel_example : IsEiffel 4 (run_task shaper no_packets turn no_stats).2
run_task-IsEiffel_example =
    run_task-IsEiffel 4 shaper no_packets turn no_stats shaper-IsEiffel (omega arith) (omega arith)
