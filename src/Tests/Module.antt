-- ===== src/Tests/Module.antt =====
-- A module with 2 buckets to a queue, granules of 16 ns and two flows.
use flow_bundler.Common.{inl, inr, true, false}
use flow_bundler.Platform.{Platform, InitError, Refused, EarlyPassed, PortPassed}
use flow_bundler.Common.{
  ℕ, ◌+◌, ◌*◌, ◌/◌, ◌^◌, ◌<◌, ◌≡◌, ◌⊎◌, refl, sym, subst, arith, List, [], ◌∷◌, length, replicate,
  some,
}
use flow_bundler.CircularQueue.{CircularQueue, round_size, double_until}
use flow_bundler.CircularQueue
use flow_bundler.CircularQueue.Invariant.{create-IsRing}
use flow_bundler.MemoryPool.{create, link_blocks, get_element}
use flow_bundler.MemoryPool.Laws.{IsPool, first_blocks}
use flow_bundler.Packet.{Packet, PacketBatch}
use flow_bundler.HbListBucket.{Shared, empty_bucket, enqueue_packet}
use flow_bundler.FlowBundler.Geometry.{
  IsGeometry, init_geometry, find_real_location, find_bucket_index,
}
use flow_bundler.FlowBundler.State.{
  FlowBundler, insert, anchor, fit_queue, get_bucket, set_bucket, note_packet, enqueue, dequeue,
}
use flow_bundler.FlowBundler.Setup.{
  FlowBundlerArg, AddFlowArg, static_members, init, initial_state, add_flow,
}
use flow_bundler.FlowBundler.Counted.{Counted, insert-Counted}
use flow_bundler.FlowBundler.Fill.{HasRoom, insert_total, enqueue_lem}
use flow_bundler.FlowBundler.Drain.{Dequeued, dequeue_lem}
use flow_bundler.FlowBundler.Start.{init_geometry-IsGeometry, empty-IsCounted, init_lem}
use flow_bundler.FlowBundler.Flows.{Loaded, flows_of, add_flow_lem}
use flow_bundler.Tests.Estimators.{numbers}

abbrev arg : FlowBundlerArg
arg = record {
  bucket_num_scale = 1;
  min_gran_scale = 4;
  dequeue_burst = 32;
  mempool_size = 3;
  generate_burst = 32;
  max_pkts_kbytes = 3;
}

abbrev statics : Shared
statics = static_members (create 0 0)

abbrev platform : Platform
platform = record {
  task_made = true;
  port_named = true;
  port_found = false;
  queues_acquired = true;
}

init_lem_example :
    let out = init platform arg statics 1000 7 in
    ((e : InitError) × (out ≡ inl e) × Refused platform 32 e)
    ⊎ ((st : FlowBundler) × (out ≡ inr st)
        × EarlyPassed platform 32
        × PortPassed platform
        × IsGeometry st.geometry
        × Counted st
        × IsPool st.shared.pool (first_blocks 3))
init_lem_example = init_lem platform arg statics 1000 7 (omega arith) (omega arith) (omega arith)

abbrev pub start : FlowBundler
start = initial_state arg statics 1000 7

start-HasRoom : (n : ℕ) → n < 2 ^ 32 → HasRoom n start
unfolding initial_state init_geometry
start-HasRoom n h = record {
  valid = init_geometry-IsGeometry 1 4 (omega arith) (omega arith);
  counted = empty-IsCounted 1 (empty_bucket 3000) refl;
  room = omega arith;
}

abbrev pub packet : Packet
packet = record { buffer = 9; total_len = 1500; src = 0; dst = 77 }

insert-Counted_example : Counted (insert start packet 3 2000 0 2).1
insert-Counted_example =
    insert-Counted start packet 3 2000 0 2 (start-HasRoom 1 (omega arith)).valid
      (start-HasRoom 1 (omega arith)).counted (start-HasRoom 1 (omega arith)).room

abbrev two_packets : List (ℕ × Packet)
two_packets = (1000, packet) ∷ (1010, packet) ∷ []

abbrev filled : List Packet × FlowBundler
filled = enqueue numbers start two_packets

enqueue_lem_example :
    HasRoom 0 filled.1 × (filled.1.n_packets_total + length filled.0 ≡ start.n_packets_total + 2)
enqueue_lem_example = enqueue_lem numbers start two_packets (start-HasRoom 2 (omega arith))

abbrev pub inserted : FlowBundler
inserted = (insert start packet 3 2000 0 2).1

pub inserted-IsGeometry : IsGeometry inserted.geometry
inserted-IsGeometry =
    subst IsGeometry
      (sym (insert_total start packet 3 2000 0 2 (start-HasRoom 1 (omega arith)).room).1)
      (start-HasRoom 1 (omega arith)).valid

pub inserted-Counted : Counted inserted
inserted-Counted =
    insert-Counted start packet 3 2000 0 2 (start-HasRoom 1 (omega arith)).valid
      (start-HasRoom 1 (omega arith)).counted (start-HasRoom 1 (omega arith)).room

inserted-granule : inserted.highest_rate_qid + inserted.geometry.min_gran_scale ≡ 7
unfolding insert anchor set_bucket get_bucket note_packet enqueue_packet get_element initial_state
    init_geometry create link_blocks find_real_location find_bucket_index fit_queue
inserted-granule = refl

inserted-head : inserted.head_time ≡ 2000
unfolding insert anchor set_bucket get_bucket note_packet enqueue_packet get_element initial_state
    init_geometry create link_blocks find_real_location find_bucket_index fit_queue
inserted-head = refl

abbrev pub no_packets : PacketBatch
no_packets = record { cnt = 0; pkts = replicate 32 packet }

dequeue_lem_example :
    (out : FlowBundler × PacketBatch) × (dequeue numbers inserted no_packets 3000 5 ≡ some out)
    × Dequeued 3000 5 inserted no_packets out.0 out.1
dequeue_lem_example =
    dequeue_lem numbers inserted no_packets 3000 5 inserted-IsGeometry inserted-Counted
      (λ some_left. omega (arith, inserted-granule)) (omega arith)

-- Two flows, with a ring that has room for their two turns each.
abbrev two_flows : AddFlowArg
two_flows = record { total_rate = 0; flow_num = 0; flow_rates = 100 ∷ 200 ∷ [] }

abbrev with_ring : FlowBundler
with_ring = record start {
  shared = record (start.shared) { flow_to_gen = CircularQueue.create 0 8 };
}

ring_size : start.max_bytes_per_flow / 1500 * 2 < with_ring.shared.flow_to_gen.size
unfolding initial_state CircularQueue.create round_size double_until
ring_size = omega arith

add_flow_lem_example :
    (st' : FlowBundler) × (add_flow with_ring two_flows 1000 (λ i. i) ≡ some st')
    × Loaded (flows_of two_flows 1000 (λ i. i)) with_ring st'
add_flow_lem_example =
    add_flow_lem with_ring two_flows 1000 (λ i. i) (create-IsRing 0 8) (omega arith) (omega arith)
      ring_size

abbrev flows_known : FlowBundler
flows_known = record start {
  flow_info = replicate 2 (record { last_stamp = 900; rate = 100 });
  shared = record (start.shared) { pkts_num = 0 ∷ 0 ∷ [] };
}
