-- ===== src/Tests/Generators.antt =====
-- A generator of two templates, a ring with two turns, and a turn of the module of Tests.Module.
use flow_bundler.Common.{◌≢◌}
use flow_bundler.Common.{
  ℕ, ◌+◌, ◌/◌, ◌^◌, ◌<◌, ◌≡◌, refl, arith, List, [], ◌∷◌, replicate, get_or, ltb, true, false,
  if◌then◌else◌, Option, some, none, ap,
}
use flow_bundler.CircularQueue.{
  CircularQueue, create, push, is_full, round_size, double_until, elements_num,
}
use flow_bundler.CircularQueue.Invariant.{IsRing, create-IsRing, push-IsRing}
use flow_bundler.CircularQueue.Count.{contents}
use flow_bundler.Packet.{Packet, PacketBatch}
use flow_bundler.PacketGenerator.{PacketGenerator, empty_template, new_generator}
use flow_bundler.PacketGenerator.Templates.{
  new_generator_lem, grouped, template_len, first_seed, nth_dst,
}
use flow_bundler.PacketGenerator.Turns.{generated_lem, generated, Generated, batch_size}
use flow_bundler.Task.{QueueStats}
use flow_bundler.FlowBundler.State.{FlowBundler}
use flow_bundler.FlowBundler.Fill.{HasRoom}
use flow_bundler.FlowBundler.Task.{Turn, Totals, TurnEnd, generate, run_task}
use flow_bundler.FlowBundler.Round.{run_task-Balanced, Balanced}
use flow_bundler.FlowBundler.State.{
  enqueue, enqueue_one, insert, anchor, note_packet, set_bucket, get_bucket, fit_queue, known_flow,
  next_stamp,
}
use flow_bundler.CircularQueue.{is_empty, pop}
use flow_bundler.PacketGenerator.{
  alloc_packets, generate_num, rewrite_using_single_template, rewrite_loop, rewritten,
}
use flow_bundler.HbListBucket.{enqueue_packet}
use flow_bundler.MemoryPool.{get_element, link_blocks, set_next, update}
use flow_bundler.FlowBundler.Setup.{initial_state, static_members}
use flow_bundler.Common.Bits.Scan.{bit_length, clz64, ctz, ffs64}
use flow_bundler.EasyMap.{do_hash, get, create_map}
use flow_bundler.FlowBundler.Geometry.{
  find_bucket_index, find_queue_index, find_real_location, init_geometry,
}
use flow_bundler.MemoryPool
use flow_bundler.Tests.Estimators.{numbers}
use flow_bundler.Tests.Module.{packet, inserted, no_packets, inserted-IsGeometry, inserted-Counted}

new_generator_lem_example :
    (g : PacketGenerator) × (new_generator numbers true 32 42 5 2 ≡ some g)
    × ((k : ℕ)
        → get_or g.templates k empty_template ≡ (
            if ltb k (grouped 5 2)
            then record {
              size = template_len 42;
              src = k;
              dst = nth_dst numbers first_seed (k / 2);
            }
            else empty_template))
new_generator_lem_example = new_generator_lem numbers 32 42 5 2 (omega arith) (omega arith)

abbrev generator : PacketGenerator
generator = record {
  generate_burst = 2;
  generate_pkt_size = 1500;
  num_templates = 2;
  templates =
      record { size = 42; src = 0; dst = 77 } ∷ record { size = 42; src = 1; dst = 77 } ∷ [];
  flows_per_dst = 2;
  seed = 0;
}

abbrev two_turns : CircularQueue ℕ
two_turns = (push (push (create 0 4) 1).1 0).1

two_turns-IsRing : IsRing two_turns
two_turns-IsRing =
    push-IsRing (push (create 0 4) 1).1 0 (push-IsRing (create 0 4) 1 (create-IsRing 0 4))

abbrev pool_of : ℕ → ℕ → Option (List Packet)
pool_of n len = if ltb 5 n then none else some (replicate n packet)

turns-batch : batch_size generator two_turns ≡ 2
unfolding push create is_full round_size double_until elements_num
turns-batch = refl

generated_lem_example :
    (out : CircularQueue ℕ × PacketBatch) × (generated generator two_turns pool_of no_packets
      ≡ some out)
    × Generated generator (contents 0 two_turns) (packet ∷ packet ∷ []) out
generated_lem_example =
    generated_lem generator two_turns pool_of no_packets (packet ∷ packet ∷ []) two_turns-IsRing
      (rw turns-batch refl) (rw turns-batch refl)

abbrev no_stats : QueueStats
no_stats = record { packets = 0; dropped = 0; bytes = 0 }

abbrev no_totals : Totals
no_totals = record { batches = 0; packets = 0 }

abbrev turn : Turn
turn = record {
  overload = false;
  alloc = pool_of;
  clock = λ i. 1000 + i;
  now = 3000;
  garbage = 0;
  admin_up = true;
  sent = 1;
  self_out_stats = false;
}

-- The module with a packet in its calendar and two turns in its ring.
abbrev busy : FlowBundler
busy = record inserted {
  shared = record (inserted.shared) { flow_to_gen = two_turns; pkts_num = 0 ∷ 0 ∷ [] };
  flow_info = replicate 2 (record { last_stamp = 900; rate = 100 });
}

room_left : busy.n_packets_total + 2 < 2 ^ 32
unfolding insert anchor set_bucket get_bucket note_packet enqueue_packet get_element initial_state
    init_geometry MemoryPool.create link_blocks find_real_location find_bucket_index fit_queue
room_left = omega arith

busy-HasRoom : HasRoom 2 busy
busy-HasRoom = record { valid = inserted-IsGeometry; counted = inserted-Counted; room = room_left }

abbrev granule_of : Option (List Packet × List Packet × FlowBundler × PacketBatch) → ℕ
granule_of none = 0
granule_of (some (made, dropped, st, batch)) = st.highest_rate_qid + st.geometry.min_gran_scale

busy_granule : granule_of (generate numbers busy generator no_packets turn) ≡ 4
unfolding generate alloc_packets generate_num rewrite_using_single_template rewrite_loop rewritten
    is_empty elements_num pop push create is_full round_size double_until enqueue enqueue_one insert
    anchor note_packet set_bucket get_bucket fit_queue known_flow next_stamp enqueue_packet
    get_element link_blocks set_next update MemoryPool.create initial_state bit_length clz64 ctz
    ffs64 do_hash get find_bucket_index find_queue_index find_real_location init_geometry
    static_members create_map
busy_granule = refl

fine :
    (made dropped : List Packet) (st1 : FlowBundler) (batch1 : PacketBatch)
    → generate numbers busy generator no_packets turn ≡ some (made, dropped, st1, batch1)
    → st1.n_packets_total ≢ 0
    → st1.highest_rate_qid + st1.geometry.min_gran_scale < 63
fine made dropped st1 batch1 e some_left =
    let same : granule_of (generate numbers busy generator no_packets turn)
        ≡ st1.highest_rate_qid + st1.geometry.min_gran_scale =
      ap granule_of e in
    omega (arith, same, busy_granule)

run_task-Balanced_example :
    (end : TurnEnd) × (run_task numbers busy generator no_packets turn no_stats no_totals
      ≡ some end)
    × Balanced busy end
run_task-Balanced_example =
    run_task-Balanced numbers busy generator no_packets turn no_stats no_totals busy-HasRoom refl
      (omega arith) fine
