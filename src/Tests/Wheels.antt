-- ===== src/Tests/Wheels.antt =====
-- A ring of four slots of 1000 ns, with one flow of 400 Mbit/s.
use flow_bundler.Common.{
  ◌≡◌, ℕ, ◌+◌, ◌/◌, ◌^◌, ◌<◌, ◌⊎◌, ◌++◌, refl, arith, List, [], ◌∷◌, All, length, replicate, true,
  false, ltb, if◌then◌else◌, none, some,
}
use flow_bundler.CircularQueue
use flow_bundler.MemoryPool.{
  create, get_element, put_element, link_blocks, set_next, set_prev, update,
}
use flow_bundler.Packet.{Packet, PacketBatch, add}
use flow_bundler.ListBucket
use flow_bundler.ListBucket.{ListShared, enqueue_packet, dequeue_packet_bulk, release_node}
use flow_bundler.FlowBundler.State.{known_flow, next_stamp}
use flow_bundler.FlowBundler.Setup.{AddFlowArg, set_flows, resize, push_flows, push_rounds}
use flow_bundler.Carousel.{
  Carousel, enqueue, enqueue_one, insert, anchor, set_bucket, advance, bucket_at, dequeue,
  dequeue_loop, serve,
}
use flow_bundler.Carousel.Setup.{
  CarouselArg, acquired, ready, initial_state, init, set_max_dequeue_burst, add_flow, load_flows,
}
use flow_bundler.Task.{Turn, QueueStats, TaskResult, blocked}
use flow_bundler.Carousel.Task.{generate, note_sent, send, run_task}
use flow_bundler.Carousel.Wheel.{waiting, queued}
use flow_bundler.Carousel.Insert.{Accepts, Refuses, due_slot, insert-Accepts}
use flow_bundler.Carousel.Dequeue.{Dequeued, dequeue_returns}
use flow_bundler.Carousel.Due.{Due}
use flow_bundler.Carousel.Turns.{Bounds, Between, logged}
use flow_bundler.Carousel.Start.{init-Between}
use flow_bundler.Carousel.Safety.{
  Run, begin, turn, set_burst, add_flows, Run-Between, no_packet_early,
}

abbrev arg : CarouselArg
arg = record { size = 4; max_pkts_kbytes = 3; generate_burst = 2; granularity = 1000; slots = 4 }

abbrev statics : ListShared
statics = record { pool = create 1 7; pkts_num = []; flow_to_gen = CircularQueue.create 0 8 }

abbrev start : Carousel
start = initial_state arg statics 50_000 7

started : init arg true acquired statics 50_000 7 ≡ ready start
unfolding init
started = refl

abbrev flows : AddFlowArg
flows = record { total_rate = 0; flow_num = 0; flow_rates = 400_000 ∷ [] }

abbrev loaded : Carousel
loaded = load_flows start 1 (record { last_stamp = 50_000; rate = 400_000 } ∷ [])

loaded_lem : add_flow start flows 50_000 (λ _. 50_000) ≡ some loaded
unfolding add_flow
loaded_lem = refl

abbrev before : Carousel
before = set_max_dequeue_burst loaded 32

abbrev run : Run start [] before
run = set_burst (add_flows begin flows 50_000 (λ _. 50_000) loaded_lem) 32

abbrev packet : Packet
packet = record { buffer = 9; total_len = 100; src = 0; dst = 77 }

abbrev no_packets : PacketBatch
no_packets = record { cnt = 0; pkts = replicate 32 packet }

abbrev stats : QueueStats
stats = record { packets = 0; dropped = 0; bytes = 0 }

abbrev turn_at : ℕ → Turn
turn_at ns = record {
  overload = false;
  generated = some ((ns, packet) ∷ []);
  ns = ns;
  admin_up = true;
  sent = if ltb ns 52_000 then 0 else 1;
  self_out_stats = false;
}

bounds : Bounds before no_packets (turn_at 50_500)
unfolding initial_state load_flows set_max_dequeue_burst waiting
bounds = record {
  clocks = (omega arith, tt);
  few = omega arith;
  room = omega arith;
  clock = omega arith;
  array = refl;
}

-- The packet of the first turn is due at 52,000, and leaves in the second.
abbrev after : Carousel
after = elim (run_task before no_packets (turn_at 50_500) stats) [
  | none ↦ before
  | some out ↦ out.2
]

-- What the two turns come to.
two_turns :
    (run_task before no_packets (turn_at 50_500) stats ≡ some ([], blocked, after, stats))
    × Bounds after no_packets (turn_at 52_100)
    × (elim (run_task after no_packets (turn_at 52_100) stats) [
      | none ↦ []
      | some out ↦ out.1.sent_packets
    ]
        ≡ packet ∷ [])
unfolding run_task generate note_sent send initial_state load_flows set_max_dequeue_burst waiting
    enqueue enqueue_one insert anchor set_bucket advance bucket_at dequeue dequeue_loop serve
    next_stamp known_flow set_flows resize push_flows push_rounds enqueue_packet
    ListBucket.dequeue_loop dequeue_packet_bulk release_node get_element put_element link_blocks
    set_next set_prev update create add CircularQueue.is_empty CircularQueue.is_full
    CircularQueue.push CircularQueue.reset CircularQueue.create CircularQueue.double_until
    CircularQueue.round_size
two_turns = (
  refl,
  record {
    clocks = (omega arith, tt);
    few = omega arith;
    room = omega arith;
    clock = omega arith;
    array = refl;
  },
  refl,
)

run_on : Run start (logged before (turn_at 50_500) ++ []) after
run_on = turn run no_packets (turn_at 50_500) stats _ bounds two_turns.0 (omega arith)

no_packet_early_example :
    (out : List Packet × TaskResult × Carousel × QueueStats) × (run_task after no_packets
        (turn_at 52_100)
        stats
      ≡ some out)
    × All
        (Due
          (logged after (turn_at 52_100) ++ (logged before (turn_at 50_500) ++ []))
          (52_100 / after.granularity))
        out.1.sent_packets
no_packet_early_example =
    no_packet_early arg statics 50_000 7 start started (omega arith) (omega arith) run_on no_packets
      (turn_at 52_100) stats two_turns.1

start-Between : Between [] start
start-Between = init-Between arg statics 50_000 7 start started (omega arith) (omega arith)

before-Between : Between [] before
before-Between = Run-Between start-Between run

slot_free : length (queued before (due_slot before 52_000)) + 1 < 2 ^ 31
unfolding initial_state load_flows set_max_dequeue_burst queued bucket_at
slot_free = omega arith

insert-Accepts_example :
    Accepts before packet 52_000 (insert before packet 52_000 0)
    ⊎ Refuses before 52_000 (insert before packet 52_000 0)
insert-Accepts_example = insert-Accepts before packet 52_000 0 before-Between.sound.wheel slot_free

after-Between : Between (logged before (turn_at 50_500) ++ []) after
after-Between = Run-Between start-Between run_on

dequeue_returns_example :
    (out : Carousel × PacketBatch) × (dequeue after no_packets 52_100 ≡ some out)
    × Dequeued (52_100 / after.granularity) after out
dequeue_returns_example =
    dequeue_returns after no_packets 52_100 after-Between.sound.wheel
      (λ few. omega (arith, after-Between.burst few)) two_turns.1.clock
