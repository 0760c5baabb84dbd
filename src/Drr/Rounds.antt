-- ===== src/Drr/Rounds.antt =====
-- What the loop of `GetNextBatch` does with `current_flow_`, for any rings.
use flow_bundler.Common.{
  ℕ, zero, suc, ◌+◌, ◌-◌, ◌<◌, ◌≡◌, ◌⊎◌, refl, get_or, ◌≤◌, ◌==◌, ◌&&◌, sub32, u32, if◌then◌else◌,
  Bool, true, false, none, inl, inr, Bool-cases, Option-cases, arith,
}
use flow_bundler.Packet.{Packet, add, max_burst, PacketBatch}
use flow_bundler.Drain.{cnt-add}
use flow_bundler.Drr.{
  Llring, Flow, State, exceeds, front, got, nothing, failed, take_packets, get_next_packets,
  is_idle, waits, is_error, remove_flow, get_next_flow, Loop, put_back, serve_flow, round, rounds,
}

module _ (packets : Llring Packet) (rings : Llring ℕ) (expired : ℕ → ℕ → Bool) where
  -- A packet that the loop finds is not at the front of the flow any more.
  front-cases :
      (f : Flow packets.Ring)
      → ((f.next_packet ≡ none)
          × ((front packets rings expired f ≡ nothing) ⊎ (front packets rings expired f ≡ failed)))
        ⊎ ((p : Packet) × (f1 : Flow packets.Ring) × (front packets rings expired f ≡ got p f1)
            × (f1.next_packet ≡ none))
  unfolding front
  front-cases f = elim (Option-cases f.next_packet) [
    | inr (p, e) ↦ inr (p, record f { next_packet = none }, rw e refl, refl)
    | inl e ↦ elim (Bool-cases (packets.empty f.queue)) [
      | inl empty ↦ inl (e, inl (rw (e, empty) refl))
      | inr some_left ↦ elim (Option-cases (packets.dequeue f.queue)) [
        | inl d ↦ inl (e, inr (rw (e, some_left, d) refl))
        | inr ((p, q), d) ↦ inr (p, record f { queue = q }, rw (e, some_left, d) refl, e)
      ]
    ]
  ]

  -- The loop never leaves a packet that the flow can pay for.
  waits-take_packets :
      (room : ℕ) (batch : PacketBatch) (f : Flow packets.Ring) (total : ℕ)
      → (room ≡ 0 → f.next_packet ≡ none)
      → waits packets rings expired (take_packets packets rings expired room batch f total).2 ≡ true
  unfolding take_packets waits
  waits-take_packets zero batch f total clear = rw (clear refl) refl
  waits-take_packets (suc room) batch f total clear = elim (front-cases f) [
    | inl (e, inl n) ↦ rw (n, take_packets, e, waits) refl
    | inl (e, inr n) ↦ rw (n, take_packets, e, waits) refl
    | inr (p, f1, e, gone) ↦ elim (Bool-cases (exceeds p.total_len f1.deficit)) [
      | inl over ↦ rw (e, over, take_packets) over
      | inr enough ↦
          rw (e, enough, take_packets)
            (waits-take_packets room (add batch p)
              (record f1 { deficit = sub32 f1.deficit p.total_len }) (u32 (total + p.total_len))
              (λ z. gone))
    ]
  ]

  -- Neither an empty flow is given a new packet.
  waits-rested :
      (f : Flow packets.Ring)
      → waits packets rings expired f ≡ true
      → waits packets rings expired
          (if is_idle packets rings expired f then record f { deficit = 0 } else f)
        ≡ true
  unfolding waits
  waits-rested f w = elim (Option-cases f.next_packet) [
    | inl e ↦ elim (Bool-cases (is_idle packets rings expired f)) [
      | inl idle ↦ rw (idle, e) refl
      | inr busy ↦ rw busy w
    ]
    | inr (p, e) ↦
        let busy : is_idle packets rings expired f ≡ false =
          (elim (Bool-cases (packets.empty f.queue)) [
            | inl y ↦ rw (y, e) refl
            | inr n ↦ rw n refl
          ]) in
        rw busy w
  ]

  abbrev pub Unused : Loop packets rings expired → Type 0
  Unused l = l.st.current_flow ≡ none

  put_back-Unused :
      (l : Loop packets rings expired) (at : ℕ) (f : Flow packets.Ring)
      → Unused l
      → waits packets rings expired f ≡ true
      → Unused (put_back packets rings expired l at f).0
  unfolding put_back
  put_back-Unused l at f u w = rw (waits-rested f w) u

  get_next_flow-Unused :
      (st : State packets rings expired) (now : ℕ) (no_flow : Flow packets.Ring)
      → st.current_flow ≡ none
      → (get_next_flow packets rings expired st now no_flow).2.current_flow ≡ none
  unfolding get_next_flow remove_flow
  get_next_flow-Unused st now no_flow u = elim (Option-cases (rings.dequeue st.flow_ring)) [
    | inl e ↦ rw (u, e, get_next_flow) u
    | inr ((at, ring), e) ↦
        let f = get_or st.heap at no_flow in
        elim (Bool-cases (is_idle packets rings expired f)) [
          | inr busy ↦ rw (u, e, busy, get_next_flow) u
          | inl idle ↦ elim (Bool-cases (expired now f.timer)) [
            | inl old ↦ rw (u, e, idle, old, get_next_flow, remove_flow) (rw u refl)
            | inr fresh ↦ rw (u, e, idle, fresh, get_next_flow) u
          ]
        ]
  ]

  serve_flow-Unused :
      (l : Loop packets rings expired) (now : ℕ) (no_flow : Flow packets.Ring)
      → Unused l
      → l.batch.cnt < max_burst
      → Unused (serve_flow packets rings expired l now no_flow).0
  unfolding serve_flow get_next_packets
  serve_flow-Unused l now no_flow u free =
      let r = get_next_flow packets rings expired l.st now no_flow in
      let u1 = get_next_flow-Unused l.st now no_flow u in
      elim (Bool-cases (is_error r.0)) [
        | inl bad ↦ rw (bad, serve_flow) u1
        | inr good ↦ elim (Option-cases r.1) [
          | inl e ↦ rw (e, good, serve_flow) u1
          | inr ((at, f), e) ↦
              let t = get_next_packets packets rings expired l.batch f in
              let w : waits packets rings expired t.2 ≡ true =
                waits-take_packets (max_burst - l.batch.cnt) l.batch f 0
                  (λ z. absurd (omega (arith, z))) in
              elim (Bool-cases (is_error t.1)) [
                | inl bad ↦ rw (e, good, bad, serve_flow) u1
                | inr fine ↦
                    rw (e, good, fine, serve_flow)
                      (put_back-Unused
                        (record l {
                          st = r.2;
                          batch = t.3;
                          total_bytes = u32 (l.total_bytes + t.0);
                          err = t.1;
                        })
                        at t.2 u1 w)
              ]
        ]
      ]

  round-Unused :
      (l : Loop packets rings expired) (now : ℕ) (no_flow : Flow packets.Ring)
      → Unused l
      → l.batch.cnt ≤ max_burst
      → Unused (round packets rings expired l now no_flow).0
  unfolding round
  round-Unused l now no_flow u small = elim (Bool-cases (l.batch.cnt == max_burst)) [
    | inl full ↦ rw full u
    | inr free ↦ elim (Bool-cases ((l.count == 0) && (l.batch_size == l.batch.cnt))) [
      | inl swept ↦ rw (free, swept, round) u
      | inr more ↦
          let swept = l.count == 0 in
          let l1 = record l {
            count = sub32 (if swept then rings.count l.st.flow_ring else l.count) 1;
            batch_size = if swept then l.batch.cnt else l.batch_size;
          } in
          rw (free, more, round) (serve_flow-Unused l1 now no_flow u (ground arith))
    ]
  ]

  cnt-take_packets :
      (room : ℕ) (batch : PacketBatch) (f : Flow packets.Ring) (total : ℕ)
      → (take_packets packets rings expired room batch f total).3.cnt ≤ batch.cnt + room
  unfolding take_packets
  cnt-take_packets zero batch f total = omega arith
  cnt-take_packets (suc room) batch f total = elim (front-cases f) [
    | inl (e, inl n) ↦ rw (n, take_packets) (omega arith)
    | inl (e, inr n) ↦ rw (n, take_packets) (omega arith)
    | inr (p, f1, e, gone) ↦
        let more =
          cnt-take_packets room (add batch p) (record f1 { deficit = sub32 f1.deficit p.total_len })
            (u32 (total + p.total_len)) in
        elim (Bool-cases (exceeds p.total_len f1.deficit)) [
          | inl over ↦ rw (e, over, take_packets) (omega arith)
          | inr enough ↦ rw (e, enough, take_packets) (omega (arith, more, cnt-add batch p))
        ]
  ]

  cnt-put_back :
      (l : Loop packets rings expired) (at : ℕ) (f : Flow packets.Ring)
      → (put_back packets rings expired l at f).0.batch ≡ l.batch
  unfolding put_back
  cnt-put_back l at f =
      elim (Bool-cases (
        waits packets rings expired
          (if is_idle packets rings expired f then record f { deficit = 0 } else f))) [
            | inl w ↦ rw w refl
            | inr n ↦ rw n refl
          ]

  cnt-serve_flow :
      (l : Loop packets rings expired) (now : ℕ) (no_flow : Flow packets.Ring)
      → l.batch.cnt ≤ max_burst
      → (serve_flow packets rings expired l now no_flow).0.batch.cnt ≤ max_burst
  unfolding serve_flow get_next_packets
  cnt-serve_flow l now no_flow small =
      let r = get_next_flow packets rings expired l.st now no_flow in
      elim (Bool-cases (is_error r.0)) [
        | inl bad ↦ rw (bad, serve_flow) small
        | inr good ↦ elim (Option-cases r.1) [
          | inl e ↦ rw (e, good, serve_flow) small
          | inr ((at, f), e) ↦
              let t = get_next_packets packets rings expired l.batch f in
              let le : t.3.cnt ≤ max_burst =
                omega (arith, cnt-take_packets (max_burst - l.batch.cnt) l.batch f 0) in
              let l2 = record l {
                st = r.2;
                batch = t.3;
                total_bytes = u32 (l.total_bytes + t.0);
                err = t.1;
              } in
              elim (Bool-cases (is_error t.1)) [
                | inl bad ↦ rw (e, good, bad, serve_flow) le
                | inr fine ↦ rw (e, good, fine, serve_flow, cnt-put_back l2 at t.2) le
              ]
        ]
      ]

  cnt-round :
      (l : Loop packets rings expired) (now : ℕ) (no_flow : Flow packets.Ring)
      → l.batch.cnt ≤ max_burst
      → (round packets rings expired l now no_flow).0.batch.cnt ≤ max_burst
  unfolding round
  cnt-round l now no_flow small = elim (Bool-cases (l.batch.cnt == max_burst)) [
    | inl full ↦ rw full small
    | inr free ↦ elim (Bool-cases ((l.count == 0) && (l.batch_size == l.batch.cnt))) [
      | inl swept ↦ rw (free, swept, round) small
      | inr more ↦
          let swept = l.count == 0 in
          let l1 = record l {
            count = sub32 (if swept then rings.count l.st.flow_ring else l.count) 1;
            batch_size = if swept then l.batch.cnt else l.batch_size;
          } in
          rw (free, more, round) (cnt-serve_flow l1 now no_flow small)
    ]
  ]

  -- If `current_flow_` is null before the loop of `GetNextBatch`, and the batch has at most its capacity of
  -- packets, then both are so after any number of rounds, whatever the rings, the clock and the flows are.
  pub rounds-Unused :
      (n : ℕ) (clock : ℕ → ℕ) (no_flow : Flow packets.Ring) (l : Loop packets rings expired)
      → Unused l
      → l.batch.cnt ≤ max_burst
      → let l' = rounds packets rings expired n clock no_flow l in
        Unused l' × (l'.batch.cnt ≤ max_burst)
  unfolding rounds
  rounds-Unused zero clock no_flow l u small = (u, small)
  rounds-Unused (suc n) clock no_flow l u small =
      let r = round packets rings expired l (clock 0) no_flow in
      let u1 = round-Unused l (clock 0) no_flow u small in
      let small1 = cnt-round l (clock 0) no_flow small in
      elim (Bool-cases r.1) [
        | inl goes_on ↦
            rw (goes_on, rounds) (rounds-Unused n (λ i. clock (i + 1)) no_flow r.0 u1 small1)
        | inr stops ↦ rw (stops, rounds) (u1, small1)
      ]
