-- ===== src/Drr/Fill.antt =====
-- bess/core/modules/drr.cc: how packets come into the queues, `ProcessBatch` and what it calls.
use flow_bundler.Common.{
  ℕ, zero, suc, ◌+◌, ◌*◌, ◌/◌, ◌^◌, List, [], ◌∷◌, ◌++◌, length, get_or, set, bit_or, u32, sub32,
  leb, not, if◌then◌else◌, Bool, Option, none, some,
}
use flow_bundler.Packet.{Packet}
use flow_bundler.Drr.{
  Err, no_error, nobuf, noent, enomem, einval, is_error, Llring, FlowId, equal_to, Flow, State,
}

unfoldable pub round_to_power_two : ℕ → ℕ
round_to_power_two v =
    let v0 = sub32 v 1 in
    let v1 = bit_or v0 (v0 / 2) in
    let v2 = bit_or v1 (v1 / 2 ^ 2) in
    let v3 = bit_or v2 (v2 / 2 ^ 4) in
    let v4 = bit_or v3 (v3 / 2 ^ 8) in u32 (bit_or v4 (v4 / 2 ^ 16) + 1)

-- A packet that comes in: its five-tuple (`GetId`), the clock, and whether memory for a ring can be had.
pub record Arrival : Type 0 where
  pub pkt : Packet
  pub id : FlowId
  pub now : ℕ  -- double
  pub memory : Bool

unfoldable pub find : FlowId → List (FlowId × ℕ) → Option ℕ
find id [] = none
find id ((key, at) ∷ rest) = let later = find id rest in if equal_to key id then some at else later

-- The ring is `none` for a null pointer.
unfoldable pub add_queue : {A : Type 0} (r : Llring A) → ℕ → Bool → Err × Option r.Ring
add_queue r slots memory =
    if not memory
    then (enomem, none)
    else elim (r.init slots) [ none ↦ (einval, none) | some queue ↦ (no_error, some queue) ]

module _ (packets : Llring Packet) (rings : Llring ℕ) (expired : ℕ → ℕ → Bool) where
  -- The loop of `ResizeQueue` for at most a number of packets. The result also lists the packets that are
  -- freed.
  unfoldable pub migrate :
      ℕ → packets.Ring → packets.Ring → List Packet → Err × Option packets.Ring × List Packet
  migrate zero old new freed = (no_error, some new, freed)
  migrate (suc n) old new freed = elim (packets.dequeue old) [
    | none ↦ (no_error, some new, freed)
    | some (pkt, old') ↦
        let (err, new') = packets.enqueue new pkt in
        let moved = migrate n old' new' freed in
        let dropped = migrate n old' new' (freed ++ pkt ∷ []) in
        elim err [
          | no_error ↦ moved
          | nobuf ↦ dropped
          | noent ↦ (noent, none, freed)
          | enomem ↦ (enomem, none, freed)
          | einval ↦ (einval, none, freed)
        ]
  ]

  unfoldable pub resize_queue : packets.Ring → ℕ → Bool → Err × Option packets.Ring × List Packet
  unfolding migrate add_queue
  resize_queue old new_size memory =
      let (err, made) = add_queue packets new_size memory in
      elim made [ none ↦ (err, none, []) | some new ↦ migrate (packets.count old) old new [] ]

  -- The call of `llring_enqueue` at the end of `Enqueue`.
  unfoldable pub append :
      Flow packets.Ring
      → packets.Ring
      → Arrival
      → List Packet
      → Err × List Packet × Flow packets.Ring
  append f queue a freed =
      let (err, queue') = packets.enqueue queue a.pkt in
      let f' = record f { queue = queue' } in
      if is_error err
      then (err, freed ++ a.pkt ∷ [], f')
      else (no_error, freed, record f' { timer = a.now })

  -- What follows `ResizeQueue`.
  unfoldable pub refill :
      Flow packets.Ring
      → Arrival
      → Err × Option packets.Ring × List Packet
      → Err × List Packet × Flow packets.Ring
  refill f a (err, none, freed) = (err, freed ++ a.pkt ∷ [], f)
  refill f a (err, some queue, freed) = append f queue a freed

  -- The error, the packets that are freed, and the flow; after an error of `ResizeQueue` its queue is a
  -- null pointer, which nothing reads, since `ProcessBatch` asserts that there was no error.
  unfoldable pub enqueue : ℕ → Flow packets.Ring → Arrival → Err × List Packet × Flow packets.Ring
  enqueue max_queue_size f a =
      let slots = round_to_power_two (u32 (packets.count f.queue * 2)) in
      if leb max_queue_size (packets.count f.queue)
      then (no_error, a.pkt ∷ [], f)
      else if packets.full f.queue
      then refill f a (resize_queue f.queue slots a.memory)
      else append f f.queue a []

  -- The address of the new flow is the next of `heap`.
  unfoldable pub add_new_flow :
      State packets rings expired → Arrival → Err × List Packet × State packets rings expired
  unfolding enqueue add_queue
  add_new_flow st a =
      let (err, made) = add_queue packets 2048 a.memory in
      elim made [
        | none ↦ (err, [], st)
        | some queue ↦
            let at = length st.heap in
            let f : Flow packets.Ring = record {
              deficit = 0;
              timer = 0;
              id = a.id;
              queue = queue;
              next_packet = none;
            } in
            let (err', freed, f') = enqueue st.max_queue_size f a in
            let (err'', flow_ring) = rings.enqueue st.flow_ring at in
            let st1 = record st { heap = st.heap ++ f' ∷ []; flows = (a.id, at) ∷ st.flows } in
            if is_error err'
            then (err', freed, st1)
            else (err'', freed, record st1 { flow_ring = flow_ring })
      ]

  -- What `ProcessBatch` does with a packet.
  unfoldable pub process_one :
      State packets rings expired
      → Flow packets.Ring
      → Arrival
      → Err × List Packet × State packets rings expired
  unfolding add_new_flow find
  process_one st no_flow a = elim (find a.id st.flows) [
    | none ↦ if rings.full st.flow_ring then (no_error, a.pkt ∷ [], st) else add_new_flow st a
    | some at ↦
        let (err, freed, f) = enqueue st.max_queue_size (get_or st.heap at no_flow) a in
        (err, freed, record st { heap = set st.heap at f })
  ]

  -- The packets that are freed, and the module; `none` where an assertion fails.
  unfoldable pub process_batch :
      State packets rings expired
      → Flow packets.Ring
      → List Arrival
      → Option (List Packet × State packets rings expired)
  unfolding process_one
  process_batch st no_flow [] = some ([], st)
  process_batch st no_flow (a ∷ rest) =
      let (err, freed, st1) = process_one st no_flow a in
      let others = process_batch st1 no_flow rest in
      if is_error err
      then none
      else elim others [ none ↦ none | some (freed', st2) ↦ some (freed ++ freed', st2) ]
