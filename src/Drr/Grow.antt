-- ===== src/Drr/Grow.antt =====
-- `Enqueue` of deficit round robin, and the ring that grows.
use flow_bundler.Common.{
  ℕ, zero, suc, ◌+◌, ◌-◌, ◌*◌, ◌/◌, ◌%◌, ◌^◌, ◌≤◌, ◌<◌, ◌≡◌, ◌⊎◌, refl, sym, ap, subst, ◌∙◌, List,
  [], ◌∷◌, ◌++◌, append_assoc, append-nil, length, length-append, bit_or, u32, sub32, leb, ◌==◌,
  Bool, true, false, none, some, inl, inr, Bool-cases, arith,
}
use flow_bundler.Common.Bits.Digits.{bit_or_step}
use flow_bundler.Common.Bits.Masks.{two-pow-le, two-pow-pos, two-pow-suc}
use flow_bundler.Packet.{Packet}
use flow_bundler.Drr.{Err, no_error, Llring, Flow}
use flow_bundler.Drr.Serve.{IsFifo}
use flow_bundler.Drr.Fill.{
  round_to_power_two, Arrival, add_queue, migrate, resize_queue, append, refill, enqueue,
}

-- A number whose digits are all ones swallows any other of its length.
ones_or : (n x : ℕ) → x < 2 ^ n → bit_or (2 ^ n - 1) x ≡ 2 ^ n - 1
ones_or zero x h = let z : x ≡ 0 = omega arith in rw z refl
ones_or (suc n) x h =
    let half : (2 ^ suc n - 1) / 2 ≡ 2 ^ n - 1 = omega arith in
    let odd : (2 ^ suc n - 1) % 2 ≡ 1 = omega arith in
    let below = ones_or n (x / 2) (omega arith) in
    bit_or_step (2 ^ suc n - 1) x ∙ rw (half, odd, below) (omega arith)

-- Twice the packets of a full ring, rounded up.
first_step : (m : ℕ) → bit_or (4 * 2 ^ suc m - 3) (2 * 2 ^ suc m - 2) ≡ 4 * 2 ^ suc m - 1
first_step m =
    let q = 2 ^ suc m in
    let even : q ≡ 2 * 2 ^ m = two-pow-suc m in
    let pos = two-pow-pos m in
    let a1 : (4 * q - 3) / 2 ≡ 2 * q - 2 = omega (arith, even, pos) in
    let a0 : (4 * q - 3) % 2 ≡ 1 = omega (arith, even, pos) in
    let b1 : (2 * q - 2) / 2 ≡ q - 1 = omega (arith, even, pos) in
    let b0 : (2 * q - 2) % 2 ≡ 0 = omega (arith, even, pos) in
    let c1 : (q - 1) / 2 ≡ 2 ^ m - 1 = omega (arith, even, pos) in
    let c0 : (q - 1) % 2 ≡ 1 = omega (arith, even, pos) in
    let low : bit_or (q - 1) (2 ^ m - 1) ≡ q - 1 =
      ones_or (suc m) (2 ^ m - 1) (omega (arith, even, pos)) in
    let second : bit_or (2 * q - 2) (q - 1) ≡ 2 * q - 1 =
      bit_or_step (2 * q - 2) (q - 1) ∙ rw (b1, b0, c1, c0, low) (omega (arith, even, pos)) in
    bit_or_step (4 * q - 3) (2 * q - 2) ∙ rw (a1, a0, b1, b0, second) (omega (arith, even, pos))

four_times : (m : ℕ) → 2 ^ suc (suc (suc m)) ≡ 4 * 2 ^ suc m
four_times m = two-pow-suc (suc (suc m)) ∙ ap (λ k. 2 * k) (two-pow-suc (suc m)) ∙ omega arith

round_to_power_two_lem :
    (m : ℕ) → m ≤ 28 → round_to_power_two (u32 ((2 * 2 ^ suc m - 1) * 2)) ≡ 2 ^ suc (suc (suc m))
unfolding round_to_power_two
round_to_power_two_lem m small =
    let n = suc (suc (suc m)) in
    let ones = 2 ^ n - 1 in
    let whole : 2 ^ n ≡ 4 * 2 ^ suc m = four_times m in
    let top : 2 ^ n ≤ 2 ^ 31 = two-pow-le n 31 (omega arith) in
    let pos = two-pow-pos m in
    let even : 2 ^ suc m ≡ 2 * 2 ^ m = two-pow-suc m in
    let v0 : sub32 (u32 ((2 * 2 ^ suc m - 1) * 2)) 1 ≡ 4 * 2 ^ suc m - 3 =
      omega (arith, whole, top, pos, even) in
    let h0 : (4 * 2 ^ suc m - 3) / 2 ≡ 2 * 2 ^ suc m - 2 = omega (arith, even, pos) in
    let v1 : bit_or (4 * 2 ^ suc m - 3) (2 * 2 ^ suc m - 2) ≡ ones =
      first_step m ∙ omega (arith, whole) in
    let pos_n = two-pow-pos n in
    let stays2 : bit_or ones (ones / 2 ^ 2) ≡ ones =
      ones_or n (ones / 2 ^ 2) (omega (arith, pos_n)) in
    let stays4 : bit_or ones (ones / 2 ^ 4) ≡ ones =
      ones_or n (ones / 2 ^ 4) (omega (arith, pos_n)) in
    let stays8 : bit_or ones (ones / 2 ^ 8) ≡ ones =
      ones_or n (ones / 2 ^ 8) (omega (arith, pos_n)) in
    let stays16 : bit_or ones (ones / 2 ^ 16) ≡ ones =
      ones_or n (ones / 2 ^ 16) (omega (arith, pos_n)) in
    rw (v0, h0, v1, stays2, stays4, stays8, stays16) (omega (arith, whole, top, pos_n))

-- What llring.h also promises: its rings have a slot less of room than they have slots, a power of two
-- (the bytes of a ring are an int, which bounds the slots).
pub record IsBounded {r : Llring Packet} (fifo : IsFifo r) : Type 0 where
  pub capacity : r.Ring → ℕ
  pub count_law : (q : r.Ring) → r.count q ≡ length (fifo.contents q)
  pub full_law : (q : r.Ring) → r.full q ≡ (length (fifo.contents q) == capacity q)
  pub nothing_law : (q : r.Ring) → fifo.contents q ≡ [] → r.dequeue q ≡ none
  pub enqueue_law :
      (q : r.Ring) (x : Packet)
      → length (fifo.contents q) < capacity q
      → (q' : r.Ring) × (r.enqueue q x ≡ (no_error, q'))
        × (fifo.contents q' ≡ fifo.contents q ++ x ∷ [])
        × (capacity q' ≡ capacity q)
  pub init_law :
      (k : ℕ)
      → k ≤ 27
      → (q : r.Ring) × (r.init (2 ^ k) ≡ some q) × (fifo.contents q ≡ []) × (capacity q ≡ 2 ^ k - 1)

module _ (packets : Llring Packet) (rings : Llring ℕ) (expired : ℕ → ℕ → Bool)
    (fifo : IsFifo packets) (bound : IsBounded fifo) where
  -- All packets move to a ring with room for them, in their order.
  migrate_lem :
      (xs done : List Packet) (old new : packets.Ring) (freed : List Packet)
      → fifo.contents old ≡ xs
      → fifo.contents new ≡ done
      → length done + length xs ≤ bound.capacity new
      → (new' : packets.Ring) × (migrate packets rings expired (length xs) old new freed
          ≡ (no_error, some new', freed))
        × (fifo.contents new' ≡ done ++ xs)
        × (bound.capacity new' ≡ bound.capacity new)
  unfolding migrate
  migrate_lem [] done old new freed e d room = (new, refl, d ∙ sym (append-nil done), refl)
  migrate_lem (x ∷ xs) done old new freed e d room =
      let (old', taken, behind) = fifo.dequeue_law old x xs e in
      let (new1, put, after, same) = bound.enqueue_law new x (rw d (omega arith)) in
      let (new', moved, all, same') =
        migrate_lem xs (done ++ x ∷ []) old' new1 freed behind (after ∙ ap (λ ps. ps ++ x ∷ []) d)
          (omega (arith, length-append done (x ∷ []), same)) in
      (
        new',
        rw (taken, ap (λ r. r.0) put, migrate, ap (λ r. r.1) put) moved,
        all ∙ append_assoc done (x ∷ []) xs,
        same' ∙ same,
      )

  resized :
      (q new q' : packets.Ring) (slots k : ℕ)
      → slots ≡ k
      → packets.init k ≡ some new
      → migrate packets rings expired (packets.count q) q new [] ≡ (no_error, some q', [])
      → resize_queue packets rings expired q slots true ≡ (no_error, some q', [])
  unfolding resize_queue add_queue
  resized q new q' slots k e made moved = rw (e, made) moved

  -- A full ring grows to twice its slots.
  resize_lem :
      (q : packets.Ring) (m : ℕ)
      → m ≤ 24
      → length (fifo.contents q) ≡ 2 * 2 ^ suc m - 1
      → (q' : packets.Ring) × (resize_queue packets rings expired q
            (round_to_power_two (u32 (packets.count q * 2)))
            true
          ≡ (no_error, some q', []))
        × (fifo.contents q' ≡ fifo.contents q)
        × (length (fifo.contents q') < bound.capacity q')
  resize_lem q m small full =
      let slots : round_to_power_two (u32 (packets.count q * 2)) ≡ 2 ^ suc (suc (suc m)) =
        rw (bound.count_law q, full) (round_to_power_two_lem m (omega arith)) in
      let whole = four_times m in
      let (new, made, none_yet, wide) = bound.init_law (suc (suc (suc m))) (omega arith) in
      let (q', moved, all, same) =
        migrate_lem (fifo.contents q) [] q new [] refl none_yet
          (omega (arith, full, wide, whole)) in
      (
        q',
        resized q new q' (round_to_power_two (u32 (packets.count q * 2))) (2 ^ suc (suc (suc m)))
            slots made
            (subst (λ n. migrate packets rings expired n q new [] ≡ (no_error, some q', []))
              (sym (bound.count_law q)) moved),
        all,
        omega (arith, ap length all, full, same, wide, whole, two-pow-pos (suc m)),
      )

  append_lem :
      (f : Flow packets.Ring) (q : packets.Ring) (a : Arrival)
      → length (fifo.contents q) < bound.capacity q
      → (q' : packets.Ring) × (append packets rings expired f q a []
          ≡ (no_error, [], record f { queue = q'; timer = a.now }))
        × (fifo.contents q' ≡ fifo.contents q ++ a.pkt ∷ [])
  unfolding append
  append_lem f q a room =
      let (q', put, after, same) = bound.enqueue_law q a.pkt room in
      (q', rw (ap (λ r. r.0) put, append, ap (λ r. r.1) put) refl, after)

  -- A packet beyond the limit is dropped, and any other is the last of its flow.
  abbrev pub Entered :
      ℕ → Flow packets.Ring → Arrival → Err × List Packet × Flow packets.Ring → Type 0
  Entered max_size f a out =
      ((max_size ≤ length (fifo.contents f.queue)) × (out ≡ (no_error, a.pkt ∷ [], f)))
      ⊎ ((length (fifo.contents f.queue) < max_size)
          × (q' : packets.Ring) × (out ≡ (no_error, [], record f { queue = q'; timer = a.now }))
          × (fifo.contents q' ≡ fifo.contents f.queue ++ a.pkt ∷ []))

  grown :
      (max_size : ℕ) (f : Flow packets.Ring) (a : Arrival) (q : packets.Ring)
      (out : Err × List Packet × Flow packets.Ring)
      → leb max_size (packets.count f.queue) ≡ false
      → packets.full f.queue ≡ true
      → a.memory ≡ true
      → resize_queue packets rings expired f.queue
          (round_to_power_two (u32 (packets.count f.queue * 2)))
          true
        ≡ (no_error, some q, [])
      → append packets rings expired f q a [] ≡ out
      → enqueue packets rings expired max_size f a ≡ out
  unfolding enqueue refill append
  grown max_size f a q out under full memory e1 e = rw (under, full, memory, e1) e

  -- `Enqueue` drops a packet exactly if the queue of the flow has the largest size already. Otherwise the
  -- packet is the last of the queue, behind all that were there, in their order, and the flow has the new
  -- time, also where the ring is full and the packets move to a larger one. The rings must keep the
  -- promises of llring.h, with a ring of at least 4 and at most 2 ^ 26 slots, and memory must be had.
  pub drr_enqueue_lem :
      (max_size : ℕ) (f : Flow packets.Ring) (a : Arrival) (m : ℕ)
      → m ≤ 24
      → bound.capacity f.queue ≡ 2 * 2 ^ suc m - 1
      → length (fifo.contents f.queue) ≤ bound.capacity f.queue
      → a.memory ≡ true
      → Entered max_size f a (enqueue packets rings expired max_size f a)
  unfolding enqueue
  drr_enqueue_lem max_size f a m small slots fits memory =
      let len = length (fifo.contents f.queue) in
      elim (Bool-cases (leb max_size (packets.count f.queue))) [
        | inl over ↦ inl (ground (arith, bound.count_law f.queue), rw over refl)
        | inr under ↦ elim (Bool-cases (packets.full f.queue)) [
          | inr room ↦
              let (q', e, after) =
                append_lem f f.queue a (ground (arith, bound.full_law f.queue)) in
              inr (ground (arith, bound.count_law f.queue), q', rw (under, room) e, after)
          | inl full ↦
              let exact : len ≡ 2 * 2 ^ suc m - 1 = ground (arith, bound.full_law f.queue) in
              let (new, wider, all, room) = resize_lem f.queue m small exact in
              let (q', e, after) = append_lem f new a room in
              inr (
                ground (arith, bound.count_law f.queue),
                q',
                grown max_size f a new (no_error, [], record f { queue = q'; timer = a.now }) under
                    full memory wider e,
                after ∙ ap (λ ps. ps ++ a.pkt ∷ []) all,
              )
        ]
      ]
