-- ===== src/CircularQueue/Count.antt =====
-- `ElementsNum`, `IsEmpty` and `IsFull` of a valid ring.
use flow_bundler.Common.{
  ℕ, ◌+◌, ◌-◌, ◌%◌, ◌^◌, ◌<◌, ◌≤◌, ◌≡◌, ◌==◌, u32, sub32, arith, length, ◌⊎◌, inl, inr, lt_or_le,
  List, eq_or_ne,
}
use flow_bundler.Common.Bits.Masks.{two-pow-le}
use flow_bundler.CircularQueue.{CircularQueue, is_full, is_empty, elements_num}
use flow_bundler.CircularQueue.Invariant.{IsRing, masked}
use native.Mathlib.Nat.{mod-eq_of_lt, mod_self, add-mod_left}
use flow_bundler.CircularQueue.Window.{window, length-window}

module _ {ℓ} {A : Type ℓ} (d : A) where
  -- The elements of a ring, oldest first.
  abbrev pub contents : CircularQueue A → List A
  contents q = window d q.memory q.size q.head_pos (elements_num q)

  -- `ElementsNum` is the distance from head to tail round the ring.
  pub elements_num_cases :
      (q : CircularQueue A)
      → IsRing q
      → ((q.head_pos ≤ q.tail_pos) × (elements_num q ≡ q.tail_pos - q.head_pos))
        ⊎ ((q.tail_pos < q.head_pos) × (elements_num q ≡ q.size - q.head_pos + q.tail_pos))
  unfolding elements_num
  elements_num_cases q v =
      let cap : 2 ^ v.scale ≤ 2 ^ 31 = two-pow-le v.scale 31 v.scale_le in
      let sum : u32 (sub32 q.size q.head_pos + q.tail_pos) ≡ q.size - q.head_pos + q.tail_pos =
        omega (arith, v.size_pow, v.head_lt, v.tail_lt) in
      rw (sum, masked v.scale q.size (q.size - q.head_pos + q.tail_pos) v.scale_le v.size_pow)
        (elim (lt_or_le q.tail_pos q.head_pos) [
          | inl lt ↦ inr (lt, mod-eq_of_lt (omega (arith, v.head_lt)))
          | inr le ↦
              let e : q.size - q.head_pos + q.tail_pos ≡ q.size + (q.tail_pos - q.head_pos) =
                omega (arith, v.head_lt) in
              inl (le, rw (e, add-mod_left) (mod-eq_of_lt (omega (arith, v.tail_lt))))
        ])

  pub elements_num-lt : (q : CircularQueue A) → IsRing q → elements_num q < q.size
  elements_num-lt q v = ground (arith, elements_num_cases q v)

  pub next_cases :
      (size pos : ℕ)
      → pos < size
      → ((pos + 1 < size) × ((pos + 1) % size ≡ pos + 1))
        ⊎ ((pos + 1 ≡ size) × ((pos + 1) % size ≡ 0))
  next_cases size pos h = elim (eq_or_ne (pos + 1) size) [
    | inl last ↦ inr (last, rw last (mod_self size))
    | inr more ↦ inl (omega arith, mod-eq_of_lt (omega arith))
  ]

  pub tail-elements_num :
      (q : CircularQueue A) → IsRing q → (q.head_pos + elements_num q) % q.size ≡ q.tail_pos
  tail-elements_num q v = elim (elements_num_cases q v) [
    | inl (le, e) ↦
        let sum : q.head_pos + elements_num q ≡ q.tail_pos = omega arith in
        rw sum (mod-eq_of_lt v.tail_lt)
    | inr (lt, e) ↦
        let sum : q.head_pos + elements_num q ≡ q.size + q.tail_pos = omega (arith, v.head_lt) in
        rw (sum, add-mod_left) (mod-eq_of_lt v.tail_lt)
  ]

  pub length-contents : (q : CircularQueue A) → length (contents q) ≡ elements_num q
  length-contents q = length-window d q.memory q.size q.head_pos (elements_num q)

  -- `IsEmpty` holds exactly of the ring without elements.
  pub is_empty-elements_num : (q : CircularQueue A) → IsRing q → is_empty q ≡ (elements_num q == 0)
  unfolding is_empty
  is_empty-elements_num q v = ground (arith, elements_num_cases q v, v.head_lt)

  -- `IsFull` holds exactly at `size - 1` elements.
  pub is_full-elements_num :
      (q : CircularQueue A) → IsRing q → is_full q ≡ (elements_num q == q.size - 1)
  unfolding is_full
  is_full-elements_num q v =
      let cap : 2 ^ v.scale ≤ 2 ^ 31 = two-pow-le v.scale 31 v.scale_le in
      let whole : u32 (q.tail_pos + 1) ≡ q.tail_pos + 1 = omega (arith, v.size_pow, v.tail_lt) in
      rw whole (
        ground (
          arith,
          elements_num_cases q v,
          next_cases q.size q.tail_pos v.tail_lt,
          v.head_lt,
          v.tail_lt,
        ))
