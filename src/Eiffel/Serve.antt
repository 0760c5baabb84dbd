-- ===== src/Eiffel/Serve.antt =====
-- `Dequeue` of Eiffel serves the first bucket that has a packet.
use flow_bundler.Common.{
  ℕ, ◌+◌, ◌*◌, ◌^◌, ◌≤◌, ◌<◌, ◌≡◌, ◌≢◌, ◌⊎◌, refl, u64, ltb, ◌==◌, if◌then◌else◌, eq_or_ne, inl,
  inr, arith, Bool-cases,
}
use flow_bundler.Packet.{PacketBatch, clear}
use flow_bundler.BitMap.{find_first, top_word}
use flow_bundler.BitMap.Links.{slot}
use flow_bundler.BitMap.First.{find_first_lem, top_word-zero}
use flow_bundler.Eiffel.{Half, Eiffel, bucket_at, ffs, adjust_rotation, serve, dequeue}
use flow_bundler.Eiffel.Marks.{IsHalf, serve-IsHalf}
use native.Mathlib.Nat.{mul-le-mul}
use flow_bundler.Eiffel.Calendar.{IsEiffel}

-- What `Dequeue` does by the first marked bucket. Without one, both halves are empty and start anew from
-- the clock. With one, it is in `st1`, the module after the rotation, if there is one, with the times of
-- its halves, and no bucket before it has a packet; it is served if it is due, and else nothing more happens.
pub record Served (n now : ℕ) (st : Eiffel) (batch : PacketBatch) (out : Eiffel × PacketBatch)
    : Type 0 where
  pub kept : IsEiffel n out.0
  pub outcome :
      (((i : ℕ)
          → i < n
          → ((bucket_at st.main i).node_num ≡ 0) × ((bucket_at st.buffer i).node_num ≡ 0))
        × (out.0.main_ts ≡ now)
        × (out.0.buffer_ts ≡ now + st.horizon)
        × (out.1 ≡ clear batch))
      ⊎ ((st1 : Eiffel) × (index : ℕ) × (index < n)
          × (((st1.main ≡ st.main)
                × (st1.buffer ≡ st.buffer)
                × (st1.main_ts ≡ st.main_ts)
                × (st1.buffer_ts ≡ st.buffer_ts))
              ⊎ ((st1.main ≡ st.buffer)
                  × (st1.buffer ≡ st.main)
                  × (st1.main_ts ≡ st.buffer_ts)
                  × (st1.buffer_ts ≡ st.buffer_ts + st.horizon)
                  × ((i : ℕ) → i < n → (bucket_at st.main i).node_num ≡ 0)))
          × (slot st1.main.map index ≡ 1)
          × ((i : ℕ) → i < index → (bucket_at st1.main i).node_num ≡ 0)
          × (out ≡ (
              if ltb now (index * st1.granularity + st1.main_ts)
              then (st1, clear batch)
              else serve st1 (clear batch) index)))

-- No packet stands in a half whose first word is zero, or before its first mark.
none_marked :
    (n : ℕ) (h : Half)
    → IsHalf n h
    → top_word h.map ≡ 0
    → (i : ℕ) → i < n
    → (bucket_at h i).node_num ≡ 0
none_marked n h v e i hi =
    let clear_slot = top_word-zero h.map v.linked e i (omega (arith, v.enough)) in
    elim (eq_or_ne (bucket_at h i).node_num 0) [
      | inl z ↦ z
      | inr used ↦ absurd (omega (arith, v.marked i hi used, clear_slot))
    ]

first_marked :
    (n : ℕ) (h : Half)
    → IsHalf n h
    → top_word h.map ≢ 0
    → (find_first h.map < n)
      × (slot h.map (find_first h.map) ≡ 1)
      × ((i : ℕ) → i < find_first h.map → (bucket_at h i).node_num ≡ 0)
first_marked n h v e =
    let f = find_first_lem h.map v.linked e in
    let inside = v.within (find_first h.map) (omega (arith, f.found)) in
    (
      inside,
      f.found,
      λ i hi. elim (eq_or_ne (bucket_at h i).node_num 0) [
        | inl z ↦ z
        | inr used ↦ absurd (omega (arith, v.marked i (omega arith) used, f.before i hi))
      ],
    )

serve-IsEiffel :
    (n : ℕ) (st : Eiffel) (batch : PacketBatch) (index : ℕ)
    → IsEiffel n st
    → index < n
    → slot st.main.map index ≡ 1
    → IsEiffel n (serve st batch index).0
unfolding serve
serve-IsEiffel n st batch index v inside found = record {
  some_bucket = v.some_bucket;
  step = v.step;
  reach = v.reach;
  phase = v.phase;
  main_half = serve-IsHalf n st.main v.main_half index inside _ found;
  buffer_half = v.buffer_half;
}

-- From a module whose first marked bucket is in the main half.
serve_first :
    (n now : ℕ) (st : Eiffel) (batch : PacketBatch)
    → IsEiffel n st
    → top_word st.main.map ≢ 0
    → let index = find_first st.main.map in
      (index < n)
      × (slot st.main.map index ≡ 1)
      × ((i : ℕ) → i < index → (bucket_at st.main i).node_num ≡ 0)
      × IsEiffel n
          (if ltb now (index * st.granularity + st.main_ts)
            then (st, batch)
            else serve st batch index).0
serve_first n now st batch v e =
    let index = find_first st.main.map in
    let (inside, found, before) = first_marked n st.main v.main_half e in
    (
      inside,
      found,
      before,
      elim (Bool-cases (ltb now (index * st.granularity + st.main_ts))) [
        | inl wait ↦ rw wait v
        | inr due ↦ rw due (serve-IsEiffel n st batch index v inside found)
      ],
    )

pub eiffel_dequeue_lem :
    (n : ℕ) (st : Eiffel) (batch : PacketBatch) (now : ℕ)
    → IsEiffel n st
    → st.main_ts + 2 * (n * st.granularity) < 2 ^ 64
    → now + st.horizon < 2 ^ 64
    → Served n now st batch (dequeue st batch now)
unfolding dequeue ffs adjust_rotation
eiffel_dequeue_lem n st batch now v fits early = elim (Bool-cases (top_word st.main.map == 0)) [
  | inr main_set ↦
      let st1 = record st { dequeue_burst = 0 } in
      let v1 : IsEiffel n st1 = record {
        some_bucket = v.some_bucket;
        step = v.step;
        reach = v.reach;
        phase = v.phase;
        main_half = v.main_half;
        buffer_half = v.buffer_half;
      } in
      let index = find_first st.main.map in
      let (inside, found, before, kept) = serve_first n now st1 (clear batch) v1 (ground arith) in
      let small : index * st.granularity ≤ n * st.granularity =
        mul-le-mul (omega arith) (omega arith) in
      let exact : u64 (index * st.granularity + st.main_ts) ≡ index * st.granularity + st.main_ts =
        omega arith in
      rw (main_set, exact, dequeue)
        (record {
          kept = kept;
          outcome = inr (st1, index, inside, inl (refl, refl, refl, refl), found, before, refl);
        })
  | inl main_clear ↦
      let nothing = none_marked n st.main v.main_half (ground arith) in
      elim (Bool-cases (top_word st.buffer.map == 0)) [
        | inl buffer_clear ↦
            rw (main_clear, buffer_clear, dequeue)
              (record {
                kept = record {
                  some_bucket = v.some_bucket;
                  step = v.step;
                  reach = v.reach;
                  phase = omega arith;
                  main_half = v.main_half;
                  buffer_half = v.buffer_half;
                };
                outcome = inl (
                  (λ i hi.
                      (nothing i hi, none_marked n st.buffer v.buffer_half (ground arith) i hi)),
                  refl,
                  omega arith,
                  refl,
                );
              })
        | inr buffer_set ↦
            let st1 = adjust_rotation (record st { dequeue_burst = 0 }) in
            let next : u64 (st.buffer_ts + st.horizon) ≡ st.buffer_ts + st.horizon =
              omega (arith, v.phase, v.reach) in
            let v1 : IsEiffel n st1 = record {
              some_bucket = v.some_bucket;
              step = v.step;
              reach = v.reach;
              phase = next;
              main_half = v.buffer_half;
              buffer_half = v.main_half;
            } in
            let index = find_first st.buffer.map in
            let (inside, found, before, kept) =
              serve_first n now st1 (clear batch) v1 (ground arith) in
            let small : index * st.granularity ≤ n * st.granularity =
              mul-le-mul (omega arith) (omega arith) in
            let exact : u64 (index * st.granularity + st.buffer_ts)
                ≡ index * st.granularity + st.buffer_ts =
              omega (arith, v.phase, v.reach) in
            rw (main_clear, buffer_set, exact, dequeue)
              (record {
                kept = kept;
                outcome = inr (
                  st1,
                  index,
                  inside,
                  inr (refl, refl, refl, next, nothing),
                  found,
                  before,
                  refl,
                );
              })
      ]
]
