-- ===== src/Drr.antt =====
-- bess/core/modules/drr.{h,cc}: how deficit round robin takes packets from its flows. The rings of
-- llring.h, a library, are the parameters `packets` and `rings`. A pointer to a flow is an index of
-- `heap`, and `flows_` is an association list.
pub mod Serve
pub mod Rounds
pub mod Fill
pub mod Grow
use flow_bundler.Common.{
  ℕ, zero, suc, ◌+◌, ◌-◌, ◌^◌, List, [], ◌∷◌, ◌++◌, get_or, set, u32, sub32, ltb, ◌==◌, not, ◌&&◌,
  ◌||◌, if◌then◌else◌, Bool, true, false, Option, none, some,
}
use flow_bundler.Packet.{Packet, max_burst, PacketBatch, add}

-- What `err` holds: 0, or the number of an error.
pub data Err : Type 0 where
  no_error : Err
  nobuf : Err
  noent : Err
  enomem : Err
  einval : Err

abbrev pub is_error : Err → Bool
is_error no_error = false
is_error nobuf = true
is_error noent = true
is_error enomem = true
is_error einval = true

-- The calls of llring.h, by one producer and one consumer. `init`, for a number of slots, and `dequeue`
-- are `none` where they return an error.
pub record Llring (A : Type 0) : Type 1 where
  pub Ring : Type 0
  pub init : ℕ → Option Ring
  pub full : Ring → Bool
  pub count : Ring → ℕ
  pub empty : Ring → Bool
  pub enqueue : Ring → A → Err × Ring
  pub dequeue : Ring → Option (A × Ring)

pub record FlowId : Type 0 where
  pub src_ip : ℕ  -- uint32_t
  pub dst_ip : ℕ  -- uint32_t
  pub src_port : ℕ  -- uint32_t
  pub dst_port : ℕ  -- uint32_t
  pub protocol : ℕ  -- uint8_t

unfoldable pub equal_to : FlowId → FlowId → Bool
equal_to a b =
    let ips = (a.src_ip == b.src_ip) && (a.dst_ip == b.dst_ip) in
    let ports = (a.src_port == b.src_port) && (a.dst_port == b.dst_port) in
    (ips && ports) && (a.protocol == b.protocol)

-- `DRR::Flow`, for a type of rings.
pub record Flow (Queue : Type 0) : Type 0 where
  pub deficit : ℕ  -- int, as a 32-bit word
  pub timer : ℕ  -- double
  pub id : FlowId
  pub queue : Queue
  pub next_packet : Option Packet

pub record Drr (Queue Flows : Type 0) : Type 0 where
  pub quantum : ℕ  -- uint32_t
  pub max_queue_size : ℕ  -- uint32_t
  pub heap : List (Flow Queue)
  pub flows : List (FlowId × ℕ)
  pub flow_ring : Flows
  pub current_flow : Option ℕ

-- `len > deficit`, on numbers of type int.
abbrev pub exceeds : ℕ → ℕ → Bool
exceeds len deficit = ltb (2 ^ 31 - 1) deficit || ltb deficit len

abbrev pub is_none {ℓ} : {A : Type ℓ} → Option A → Bool
is_none none = true
is_none (some x) = false

unfoldable pub remove_id : FlowId → List (FlowId × ℕ) → List (FlowId × ℕ)
remove_id id [] = []
remove_id id ((key, f) ∷ rest) =
    let others = remove_id id rest in if equal_to key id then others else (key, f) ∷ others

-- What the loop finds at the front of a flow.
pub data Front (Queue : Type 0) : Type 0 where
  nothing : Front Queue
  failed : Front Queue
  got : Packet → Flow Queue → Front Queue

-- `expired now timer` is `now - timer > kTtl`, on doubles.
module _ (packets : Llring Packet) (rings : Llring ℕ) (expired : ℕ → ℕ → Bool) where
  abbrev pub State : Type 0
  State = Drr packets.Ring rings.Ring

  -- `llring_empty(f->queue) && !f->next_packet`
  abbrev pub is_idle : Flow packets.Ring → Bool
  is_idle f = packets.empty f.queue && is_none f.next_packet

  unfoldable pub front : Flow packets.Ring → Front packets.Ring
  front f =
      let from_queue : Front packets.Ring = elim (packets.dequeue f.queue) [
        | none ↦ failed
        | some (pkt, queue) ↦ got pkt (record f { queue = queue })
      ] in
      elim (f.next_packet) [
        | some pkt ↦ got pkt (record f { next_packet = none })
        | none ↦ if packets.empty f.queue then nothing else from_queue
      ]

  -- The loop of `GetNextPackets` on a batch that has `room` for as many packets.
  unfoldable pub take_packets :
      ℕ → PacketBatch → Flow packets.Ring → ℕ → ℕ × Err × Flow packets.Ring × PacketBatch
  unfolding front
  take_packets zero batch f total = (total, no_error, f, batch)
  take_packets (suc room) batch f total = elim (front f) [
    | nothing ↦ (total, no_error, f, batch)
    | failed ↦ (total, noent, f, batch)
    | got pkt f1 ↦
        let rest =
          take_packets room (add batch pkt) (record f1 { deficit = sub32 f1.deficit pkt.total_len })
            (u32 (total + pkt.total_len)) in
        if exceeds pkt.total_len f1.deficit
        then (total, no_error, record f1 { next_packet = some pkt }, batch)
        else rest
  ]

  unfoldable pub get_next_packets :
      PacketBatch → Flow packets.Ring → ℕ × Err × Flow packets.Ring × PacketBatch
  get_next_packets batch f = take_packets (max_burst - batch.cnt) batch f 0

  -- The cell of the flow stays in `heap`, where nothing names it any more.
  unfoldable pub remove_flow : State → ℕ → Flow packets.Ring → State
  remove_flow st at f = record st {
    current_flow = elim (st.current_flow) [
      | none ↦ none
      | some current ↦ if current == at then none else some current
    ];
    flows = remove_id f.id st.flows;
  }

  -- The error, the flow, and the module. The flow is `none` for a null pointer.
  unfoldable pub get_next_flow :
      State → ℕ → Flow packets.Ring → Err × Option (ℕ × Flow packets.Ring) × State
  unfolding remove_flow
  get_next_flow st now no_flow = elim (st.current_flow) [
    | some at ↦ (no_error, some (at, get_or st.heap at no_flow), record st { current_flow = none })
    | none ↦ elim (rings.dequeue st.flow_ring) [
      | none ↦ (noent, none, st)
      | some (at, flow_ring) ↦
          let st1 = record st { flow_ring = flow_ring } in
          let f = get_or st.heap at no_flow in
          let (err, again) = rings.enqueue flow_ring at in
          let f' = record f { deficit = u32 (f.deficit + st.quantum) } in
          if is_idle f
          then (if expired now f.timer
              then (no_error, none, remove_flow st1 at f)
              else (err, none, record st { flow_ring = again }))
          else (no_error, some (at, f'), record st1 { heap = set st1.heap at f' })
    ]
  ]

  -- The variables of the loop of `GetNextBatch`.
  pub record Loop : Type 0 where
    pub st : State
    pub batch : PacketBatch
    pub count : ℕ  -- uint32_t
    pub batch_size : ℕ
    pub total_bytes : ℕ  -- uint32_t
    pub err : Err

  -- `!f->next_packet || f->next_packet->total_len() > f->deficit`
  unfoldable pub waits : Flow packets.Ring → Bool
  waits f = elim (f.next_packet) [ none ↦ true | some pkt ↦ exceeds pkt.total_len f.deficit ]

  -- What follows `GetNextPackets`: the loop's variables, and whether it goes on.
  unfoldable pub put_back : Loop → ℕ → Flow packets.Ring → Loop × Bool
  put_back l at f =
      let rested = if is_idle f then record f { deficit = 0 } else f in
      let st = record (l.st) { heap = set l.st.heap at rested } in
      let (err, again) = rings.enqueue st.flow_ring at in
      if waits rested
      then (record l { st = record st { flow_ring = again }; err = err }, not (is_error err))
      else (record l { st = record st { current_flow = some at } }, true)

  -- The body of the loop behind the count of flows.
  unfoldable pub serve_flow : Loop → ℕ → Flow packets.Ring → Loop × Bool
  unfolding put_back get_next_flow get_next_packets
  serve_flow l now no_flow =
      let (err, found, st) = get_next_flow l.st now no_flow in
      let l1 = record l { st = st; err = err } in
      if is_error err then (l1, false) else elim found [
        | none ↦ (l1, true)
        | some (at, f) ↦
            let (bytes, err', f', batch) = get_next_packets l.batch f in
            let l2 = record l1 {
              batch = batch;
              total_bytes = u32 (l.total_bytes + bytes);
              err = err';
            } in
            if is_error err'
            then (record l2 { st = record st { heap = set st.heap at f' } }, false)
            else put_back l2 at f'
      ]

  -- A round of the loop of `GetNextBatch`.
  unfoldable pub round : Loop → ℕ → Flow packets.Ring → Loop × Bool
  unfolding serve_flow
  round l now no_flow =
      let swept = l.count == 0 in
      let count = if swept then rings.count l.st.flow_ring else l.count in
      let size = if swept then l.batch.cnt else l.batch_size in
      if l.batch.cnt == max_burst
      then (l, false)
      else if swept && (l.batch_size == l.batch.cnt)
      then (l, false)
      else serve_flow (record l { count = sub32 count 1; batch_size = size }) now no_flow

  -- The variables before the first round.
  unfoldable pub first_loop : State → PacketBatch → Loop
  first_loop st batch =
      let waiting = rings.count st.flow_ring in
      record {
        st = st;
        batch = batch;
        count = if is_none st.current_flow then waiting else u32 (waiting + 1);
        batch_size = batch.cnt;
        total_bytes = 0;
        err = no_error;
      }

  -- The first rounds, at most the given number, with the clock's reading in each.
  unfoldable pub rounds : ℕ → (ℕ → ℕ) → Flow packets.Ring → Loop → Loop
  unfolding round
  rounds zero clock no_flow l = l
  rounds (suc n) clock no_flow l =
      let (l', goes_on) = round l (clock 0) no_flow in
      let rest = rounds n (λ i. clock (i + 1)) no_flow l' in if goes_on then rest else l'

-- `none` is the failure EINVAL.
unfoldable pub set_quantum_size :
    {Queue Flows : Type 0} → Drr Queue Flows → ℕ → Option (Drr Queue Flows)
set_quantum_size st size = if size == 0 then none else some (record st { quantum = size })

unfoldable pub set_max_flow_queue_size :
    {Queue Flows : Type 0} → Drr Queue Flows → ℕ → Option (Drr Queue Flows)
set_max_flow_queue_size st size =
    if size == 0 then none else some (record st { max_queue_size = size })
