-- ===== src/Tests/Flows.antt =====
-- A flow with four packets. A ring is a list with the number of elements that it has
-- room for.
use flow_bundler.Common.{
  ℕ, ◌≡◌, true, ◌*◌, ◌^◌, ◌-◌, ◌≤◌, refl, arith, List, [], ◌∷◌, ◌++◌, length, replicate, ltb, ◌==◌,
  Option, none, some, if◌then◌else◌,
}
use flow_bundler.Packet.{Packet, PacketBatch, max_burst}
use flow_bundler.Drr.{
  Err, no_error, nobuf, Llring, Flow, Drr, Loop, first_loop, rounds, get_next_packets,
}
use flow_bundler.Drr.Serve.{IsFifo, Taken, get_next_packets_lem}
use flow_bundler.Drr.Fill.{Arrival, enqueue}
use flow_bundler.Drr.Grow.{IsBounded, Entered, drr_enqueue_lem}
use flow_bundler.Drr.Rounds.{Unused, rounds-Unused}

-- The room and the elements.
abbrev Slots : Type 0 → Type 0
Slots A = ℕ × List A

abbrev put : {A : Type 0} → Slots A → A → Err × Slots A
put (n, xs) x = if ltb (length xs) n then (no_error, (n, xs ++ x ∷ [])) else (nobuf, (n, xs))

abbrev take_first : {A : Type 0} → Slots A → Option (A × Slots A)
take_first (n, []) = none
take_first (n, x ∷ xs) = some (x, (n, xs))

abbrev list_ring : (A : Type 0) → Llring A
list_ring A = record {
  Ring = Slots A;
  init = λ n. some (n - 1, []);
  full = λ q. length q.1 == q.0;
  count = λ q. length q.1;
  empty = λ q. length q.1 == 0;
  enqueue = put;
  dequeue = take_first;
}

abbrev list_ring-IsFifo : IsFifo (list_ring Packet)
list_ring-IsFifo = record {
  contents = λ q. q.1;
  empty_law = λ q. refl;
  dequeue_law = λ q x xs e. ((q.0, xs), rw e refl, refl);
}

abbrev packet : ℕ → Packet
packet len = record { buffer = 1; total_len = len; src = 0; dst = 77 }

abbrev flow : Flow (Slots Packet)
flow = record {
  deficit = 3000;
  timer = 0;
  id = record { src_ip = 0; dst_ip = 77; src_port = 1; dst_port = 1; protocol = 17 };
  queue = (3, packet 1500 ∷ packet 200 ∷ packet 1500 ∷ []);
  next_packet = some (packet 1000);
}

abbrev no_packets : PacketBatch
no_packets = record { cnt = 0; pkts = replicate 32 (packet 0) }

get_next_packets_lem_example :
    Taken
      (list_ring Packet)
      (list_ring ℕ)
      ltb
      list_ring-IsFifo
      flow
      no_packets
      0
      (get_next_packets (list_ring Packet) (list_ring ℕ) ltb no_packets flow)
get_next_packets_lem_example =
    get_next_packets_lem (list_ring Packet) (list_ring ℕ) ltb list_ring-IsFifo no_packets flow
      (omega arith) refl (omega arith)

abbrev module_state : Drr (Slots Packet) (Slots ℕ)
module_state = record {
  quantum = 1500;
  max_queue_size = 8192;
  heap = flow ∷ record flow { deficit = 0; next_packet = none } ∷ [];
  flows = [];
  flow_ring = (4, 0 ∷ 1 ∷ []);
  current_flow = none;
}

abbrev before : Loop (list_ring Packet) (list_ring ℕ) ltb
before = first_loop (list_ring Packet) (list_ring ℕ) ltb module_state no_packets

before-Unused : Unused (list_ring Packet) (list_ring ℕ) ltb before × (before.batch.cnt ≤ max_burst)
unfolding first_loop
before-Unused = (refl, omega arith)

rounds-Unused_example :
    let after = rounds (list_ring Packet) (list_ring ℕ) ltb 5 (λ i. i) flow before in
    Unused (list_ring Packet) (list_ring ℕ) ltb after × (after.batch.cnt ≤ max_burst)
rounds-Unused_example =
    rounds-Unused (list_ring Packet) (list_ring ℕ) ltb 5 (λ i. i) flow before before-Unused.0
      before-Unused.1

list_ring-IsBounded : IsBounded list_ring-IsFifo
list_ring-IsBounded = record {
  capacity = λ q. q.0;
  count_law = λ q. refl;
  full_law = λ q. refl;
  nothing_law = λ q e. rw e refl;
  enqueue_law = λ q x h.
      let room : ltb (length q.1) q.0 ≡ true = ground arith in
      ((q.0, q.1 ++ x ∷ []), rw room refl, refl, refl);
  init_law = λ k h. ((2 ^ k - 1, []), refl, refl, refl);
}

flow_slots : list_ring-IsBounded.capacity flow.queue ≡ 2 * 2 ^ 1 - 1
unfolding list_ring-IsBounded
flow_slots = refl

flow_fits : 3 ≤ list_ring-IsBounded.capacity flow.queue
unfolding list_ring-IsBounded
flow_fits = omega arith

abbrev arrival : Arrival
arrival = record { pkt = packet 900; id = flow.id; now = 10; memory = true }

-- The ring of the flow is full.
drr_enqueue_lem_example :
    Entered
      (list_ring Packet)
      (list_ring ℕ)
      ltb
      list_ring-IsFifo
      list_ring-IsBounded
      8192
      flow
      arrival
      (enqueue (list_ring Packet) (list_ring ℕ) ltb 8192 flow arrival)
drr_enqueue_lem_example =
    drr_enqueue_lem (list_ring Packet) (list_ring ℕ) ltb list_ring-IsFifo list_ring-IsBounded 8192
      flow arrival 0 (omega arith) flow_slots flow_fits refl
