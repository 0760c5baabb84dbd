-- ===== src/Drr/Serve.antt =====
-- `GetNextPackets` takes the first packets of a flow.
use flow_bundler.Common.{
  ℕ, zero, suc, ◌+◌, ◌-◌, ◌^◌, ◌≤◌, ◌<◌, ◌≡◌, ◌⊎◌, refl, sym, ap, ◌∙◌, List, [], ◌∷◌, ◌++◌,
  append_assoc, append-nil, length, take, drop, u32, sub32, ◌==◌, Bool, true, false, Option, none,
  some, inl, inr, Bool-cases, Option-cases, List-cases, arith,
}
use flow_bundler.Packet.{Packet, max_burst, PacketBatch, add, live, live-add}
use flow_bundler.Drain.{cnt-add, slots-add}
use flow_bundler.Task.{bytes_of}
use flow_bundler.Drr.{
  Err, no_error, Llring, Flow, exceeds, front, got, nothing, take_packets, get_next_packets,
}

-- What llring.h promises of its rings: first in, first out.
pub record IsFifo {A : Type 0} (r : Llring A) : Type 0 where
  pub contents : r.Ring → List A
  pub empty_law : (q : r.Ring) → r.empty q ≡ (length (contents q) == 0)
  pub dequeue_law :
      (q : r.Ring) (x : A) (xs : List A)
      → contents q ≡ x ∷ xs
      → (q' : r.Ring) × (r.dequeue q ≡ some (x, q')) × (contents q' ≡ xs)

abbrev pub held : Option Packet → List Packet
held none = []
held (some p) = p ∷ []

module _ (packets : Llring Packet) (rings : Llring ℕ) (expired : ℕ → ℕ → Bool)
    (fifo : IsFifo packets) where
  -- The packets of a flow, in order.
  abbrev pub waiting : Flow packets.Ring → List Packet
  waiting f = held f.next_packet ++ fifo.contents f.queue

  -- Why the loop stops.
  abbrev pub Stopped : Flow packets.Ring → PacketBatch → Type 0
  Stopped f batch =
      ((batch.cnt ≡ max_burst) × (f.next_packet ≡ none))
      ⊎ (waiting f ≡ [])
      ⊎ ((p : Packet) × (f.next_packet ≡ some p) × (f.deficit < p.total_len))

  pub record Taken (f : Flow packets.Ring) (batch : PacketBatch) (total : ℕ)
      (out : ℕ × Err × Flow packets.Ring × PacketBatch) : Type 0 where
    pub number : ℕ
    pub no_err : out.1 ≡ no_error
    pub sent : live out.3 ≡ live batch ++ take number (waiting f)
    pub left : waiting out.2 ≡ drop number (waiting f)
    pub paid : out.2.deficit + bytes_of (take number (waiting f)) ≡ f.deficit
    pub bytes : out.0 ≡ total + bytes_of (take number (waiting f))
    pub stops : Stopped out.2 out.3

  -- What the front of a flow is.
  front-cases :
      (f : Flow packets.Ring)
      → ((waiting f ≡ []) × (front packets rings expired f ≡ nothing))
        ⊎ ((p : Packet) × (f1 : Flow packets.Ring) × (front packets rings expired f ≡ got p f1)
            × (waiting f ≡ p ∷ waiting f1)
            × (f1.next_packet ≡ none)
            × (f1.deficit ≡ f.deficit))
  unfolding front
  front-cases f = elim (Option-cases f.next_packet) [
    | inr (p, e) ↦ inr (p, record f { next_packet = none }, rw e refl, rw e refl, refl, refl)
    | inl e ↦ elim (List-cases (fifo.contents f.queue)) [
      | inl c ↦
          let empty : packets.empty f.queue ≡ true = rw (fifo.empty_law f.queue, c) refl in
          inl (rw (e, c) refl, rw (e, empty) refl)
      | inr (p, ps, c) ↦
          let some_left : packets.empty f.queue ≡ false =
            rw (fifo.empty_law f.queue, c) (ground arith) in
          let (q, d, behind) = fifo.dequeue_law f.queue p ps c in
          inr
            (p, record f { queue = q }, rw (e, some_left, d) refl, rw (e, c, behind) refl, e, refl)
    ]
  ]

  -- A packet that the flow can pay for goes to the batch.
  module _ (batch : PacketBatch) (f f1 : Flow packets.Ring) (p : Packet) (total : ℕ) where
    abbrev charged : Flow packets.Ring
    charged = record f1 { deficit = sub32 f1.deficit p.total_len }

    take_one-Taken :
        (out : ℕ × Err × Flow packets.Ring × PacketBatch)
        → waiting f ≡ p ∷ waiting f1
        → f1.deficit ≡ f.deficit
        → p.total_len ≤ f.deficit
        → f.deficit < 2 ^ 31
        → total + f.deficit < 2 ^ 32
        → batch.cnt < length batch.pkts
        → Taken charged (add batch p) (u32 (total + p.total_len)) out
        → Taken f batch total out
    take_one-Taken out w d pays fits small slot r = record {
      number = suc r.number;
      no_err = r.no_err;
      sent = rw w (
          r.sent
          ∙ ap (λ ps. ps ++ take r.number (waiting f1)) (live-add batch p slot)
          ∙ append_assoc (live batch) (p ∷ []) (take r.number (waiting f1)));
      left = rw w r.left;
      paid = rw w (omega (arith, r.paid, d));
      bytes = rw w (omega (arith, r.bytes, d));
      stops = r.stops;
    }

  take_packets-Taken :
      (room : ℕ) (batch : PacketBatch) (f : Flow packets.Ring) (total : ℕ)
      → batch.cnt + room ≡ max_burst
      → length batch.pkts ≡ max_burst
      → (room ≡ 0 → f.next_packet ≡ none)
      → f.deficit < 2 ^ 31
      → total + f.deficit < 2 ^ 32
      → Taken f batch total (take_packets packets rings expired room batch f total)
  unfolding take_packets
  take_packets-Taken zero batch f total full slots clear fits small = record {
    number = 0;
    no_err = refl;
    sent = sym (append-nil (live batch));
    left = refl;
    paid = omega arith;
    bytes = omega arith;
    stops = inl (omega (arith, full), clear refl);
  }
  take_packets-Taken (suc room) batch f total full slots clear fits small = elim (front-cases f) [
    | inl (w, e) ↦
        rw (e, take_packets)
          (record {
            number = 0;
            no_err = refl;
            sent = sym (append-nil (live batch));
            left = refl;
            paid = omega arith;
            bytes = omega arith;
            stops = inr (inl w);
          })
    | inr (p, f1, e, w, none_next, d) ↦ elim (Bool-cases (exceeds p.total_len f1.deficit)) [
      | inl over ↦
          rw (e, over, take_packets)
            (record {
              number = 0;
              no_err = refl;
              sent = sym (append-nil (live batch));
              left = rw (w, none_next) refl;
              paid = omega (arith, d);
              bytes = omega arith;
              stops = inr (inr (p, refl, ground (arith, d)));
            })
      | inr enough ↦
          rw (e, enough, take_packets)
            (take_one-Taken batch f f1 p total
              (take_packets packets rings expired room (add batch p) (charged batch f f1 p total)
                (u32 (total + p.total_len)))
              w d (ground (arith, d)) fits small (omega (arith, slots))
              (take_packets-Taken room (add batch p) (charged batch f f1 p total)
                (u32 (total + p.total_len)) (omega (arith, cnt-add batch p))
                (omega (arith, slots-add batch p)) (λ z. none_next) (ground (arith, d))
                (ground (arith, d))))
    ]
  ]

  -- `GetNextPackets` of a batch that is not full takes the first packets of the flow, in their order, to
  -- the end of the batch, and takes their bytes off the deficit. It stops when the batch is full, when the
  -- flow has no packet, or when the deficit does not pay for the first that is left, which it then keeps
  -- out of the ring. The ring must be first in, first out.
  pub get_next_packets_lem :
      (batch : PacketBatch) (f : Flow packets.Ring)
      → batch.cnt < max_burst
      → length batch.pkts ≡ max_burst
      → f.deficit < 2 ^ 31
      → Taken f batch 0 (get_next_packets packets rings expired batch f)
  unfolding get_next_packets
  get_next_packets_lem batch f free slots fits =
      take_packets-Taken (max_burst - batch.cnt) batch f 0 (omega arith) slots
        (λ z. absurd (omega (arith, z))) fits (omega arith)
