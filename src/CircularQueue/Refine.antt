-- ===== src/CircularQueue/Refine.antt =====
-- A valid ring behaves as a FIFO that holds at most `size - 1` elements.
use flow_bundler.Common.{
  ℕ, suc, ◌+◌, ◌-◌, ◌%◌, ◌<◌, ◌≡◌, refl, subst, sym, ap, ◌∙◌, ◌==◌, if◌then◌else◌, arith, length,
  Bool-cases, inl, inr, List, [], ◌∷◌, ◌++◌, Bool, true, false, get_or, set, get_or-set_self,
}
use flow_bundler.CircularQueue.{CircularQueue, pop, push, is_full, is_empty, elements_num}
use flow_bundler.CircularQueue.Invariant.{IsRing, advance, push-IsRing, pop-IsRing}
use native.Mathlib.Nat.{mod-eq_of_lt, mod-mod}
use flow_bundler.CircularQueue.Window.{window, window-mod, window_last, window-set, mod-ne}
use flow_bundler.CircularQueue.Count.{
  contents, elements_num_cases, elements_num-lt, next_cases, tail-elements_num, length-contents,
  is_empty-elements_num, is_full-elements_num,
}

-- The bounded FIFO: its elements, oldest first, and its capacity.
module _ {ℓ} {A : Type ℓ} (d : A) (capacity : ℕ) where
  unfoldable pub fifo_push : List A → A → Bool × List A
  fifo_push xs x = if length xs == capacity then (false, xs) else (true, xs ++ x ∷ [])

module _ {ℓ} {A : Type ℓ} (d : A) where
  unfoldable pub fifo_pop : List A → A × List A
  fifo_pop [] = (d, [])
  fifo_pop (x ∷ xs) = (x, xs)

module _ {ℓ} {A : Type ℓ} (d : A) where
  -- What `Push` stores where there is room, and `Pop` where there is an element.
  pushed : CircularQueue A → A → CircularQueue A
  pushed q x = record q { memory = set q.memory q.tail_pos x; tail_pos = (q.tail_pos + 1) % q.size }

  popped : CircularQueue A → CircularQueue A
  popped q = record q { temp_pos = q.head_pos; head_pos = (q.head_pos + 1) % q.size }

  push_room :
      (q : CircularQueue A) (x : A) → IsRing q → is_full q ≡ false → push q x ≡ (true, pushed q x)
  unfolding push pushed
  push_room q x v room = rw (room, advance q q.tail_pos v v.tail_lt)

  pop_some :
      (q : CircularQueue A)
      → IsRing q
      → is_empty q ≡ false
      → pop d q ≡ (get_or q.memory q.head_pos d, popped q)
  unfolding pop popped is_empty
  pop_some q v some = rw (some, advance q q.head_pos v v.head_lt)

  pop_none : (q : CircularQueue A) → is_empty q ≡ true → pop d q ≡ (d, q)
  unfolding pop is_empty
  pop_none q empty = rw empty

  elements_num-pushed :
      (q : CircularQueue A) (x : A)
      → IsRing q
      → is_full q ≡ false
      → elements_num (pushed q x) ≡ elements_num q + 1
  unfolding pushed
  elements_num-pushed q x v room =
      let w : IsRing (pushed q x) =
        subst (λ r. IsRing r.1) (push_room q x v room) (push-IsRing q x v) in
      ground (
        arith,
        elements_num_cases d q v,
        elements_num_cases d (pushed q x) w,
        next_cases d q.size q.tail_pos v.tail_lt,
        is_full-elements_num d q v,
        v.head_lt,
        v.tail_lt,
      )

  elements_num-popped :
      (q : CircularQueue A)
      → IsRing q
      → is_empty q ≡ false
      → elements_num q ≡ suc (elements_num (popped q))
  unfolding popped
  elements_num-popped q v some =
      let w : IsRing (popped q) = subst (λ r. IsRing r.1) (pop_some q v some) (pop-IsRing d q v) in
      ground (
        arith,
        elements_num_cases d q v,
        elements_num_cases d (popped q) w,
        next_cases d q.size q.head_pos v.head_lt,
        is_empty-elements_num d q v,
        v.head_lt,
        v.tail_lt,
      )

  contents-pushed :
      (q : CircularQueue A) (x : A)
      → IsRing q
      → is_full q ≡ false
      → contents d (pushed q x) ≡ contents d q ++ x ∷ []
  unfolding pushed
  contents-pushed q x v room =
      let n = elements_num q in
      let more : elements_num (pushed q x) ≡ suc n =
        omega (arith, elements_num-pushed q x v room) in
      let free : n < q.size - 1 =
        ground (arith, is_full-elements_num d q v, elements_num-lt d q v) in
      let last : (q.head_pos + n) % q.size ≡ q.tail_pos = tail-elements_num d q v in
      ap (window d (set q.memory q.tail_pos x) q.size q.head_pos) more
      ∙ window_last d (set q.memory q.tail_pos x) q.size q.head_pos n
      ∙ ap
          (λ i.
            window d (set q.memory q.tail_pos x) q.size q.head_pos n
            ++ get_or (set q.memory q.tail_pos x) i d ∷ [])
          last
      ∙ ap (λ a. window d (set q.memory q.tail_pos x) q.size q.head_pos n ++ a ∷ [])
          (get_or-set_self q.memory q.tail_pos x d (omega (arith, v.memory_len, v.tail_lt)))
      ∙ ap (λ l. l ++ x ∷ [])
          (window-set d q.memory q.size q.head_pos n q.tail_pos x
            λ j h e. mod-ne q.size q.head_pos j n h (omega arith) (e ∙ sym last))

  contents-popped :
      (q : CircularQueue A)
      → IsRing q
      → is_empty q ≡ false
      → contents d q ≡ get_or q.memory q.head_pos d ∷ contents d (popped q)
  unfolding popped
  contents-popped q v some =
      let here : q.head_pos % q.size ≡ q.head_pos = mod-eq_of_lt v.head_lt in
      ap (window d q.memory q.size q.head_pos) (elements_num-popped q v some)
      ∙ ap
          (λ i.
            get_or q.memory i d
            ∷ window d q.memory q.size (q.head_pos + 1) (elements_num (popped q)))
          here
      ∙ ap (◌∷◌ (get_or q.memory q.head_pos d)) (
          window-mod d q.memory q.size (q.head_pos + 1) ((q.head_pos + 1) % q.size)
            (elements_num (popped q)) (sym (mod-mod (q.head_pos + 1) q.size)))

  -- `Push` appends to the elements, unless `size - 1` of them are there.
  pub push_refines :
      (q : CircularQueue A) (x : A)
      → IsRing q
      → let (done, q') = push q x in
        (done, contents d q') ≡ fifo_push d (q.size - 1) (contents d q) x
  unfolding fifo_push push
  push_refines q x v = elim (Bool-cases (is_full q)) [
    | inl full ↦
        let test : (length (contents d q) == q.size - 1) ≡ true =
          rw length-contents (sym (is_full-elements_num d q v) ∙ full) in
        rw (full, test)
    | inr room ↦
        let test : (length (contents d q) == q.size - 1) ≡ false =
          rw length-contents (sym (is_full-elements_num d q v) ∙ room) in
        rw (push_room q x v room, test) (ap (λ l. (true, l)) (contents-pushed q x v room))
  ]

  -- `Pop` takes the oldest element, and gives `T{}` from an empty ring.
  pub pop_refines :
      (q : CircularQueue A)
      → IsRing q
      → let (x, q') = pop d q in (x, contents d q') ≡ fifo_pop d (contents d q)
  unfolding fifo_pop
  pop_refines q v = elim (Bool-cases (is_empty q)) [
    | inl empty ↦
        let zero_left : elements_num q ≡ 0 = ground (arith, is_empty-elements_num d q v) in
        let nil : contents d q ≡ [] = ap (window d q.memory q.size q.head_pos) zero_left in
        ap (λ r. (r.0, contents d r.1)) (pop_none q empty)
        ∙ subst (λ l. (d, l) ≡ fifo_pop d l) (sym nil) refl
    | inr some ↦
        ap (λ r. (r.0, contents d r.1)) (pop_some q v some)
        ∙ sym (ap (fifo_pop d) (contents-popped q v some))
  ]

pub data Call (A : Type 0) : Type 0 where
  push_of : A → Call A
  pop_of : Call A

module _ {A : Type 0} (d : A) where
  -- A client's calls in order, with what each returns.
  unfoldable pub run : CircularQueue A → List (Call A) → List (Bool × A)
  run q [] = []
  run q (push_of x ∷ cs) = let (done, q') = push q x in (done, d) ∷ run q' cs
  run q (pop_of ∷ cs) = let (x, q') = pop d q in (true, x) ∷ run q' cs

  unfoldable pub fifo_run : ℕ → List A → List (Call A) → List (Bool × A)
  fifo_run capacity xs [] = []
  fifo_run capacity xs (push_of x ∷ cs) =
      let (done, xs') = fifo_push d capacity xs x in (done, d) ∷ fifo_run capacity xs' cs
  fifo_run capacity xs (pop_of ∷ cs) =
      let (x, xs') = fifo_pop d xs in (true, x) ∷ fifo_run capacity xs' cs

  pub size-push : (q : CircularQueue A) (x : A) → (push q x).1.size ≡ q.size
  unfolding push
  size-push q x = ground arith

  size-pop : (q : CircularQueue A) → (pop d q).1.size ≡ q.size
  unfolding pop
  size-pop q = ground arith

  -- No sequence of calls tells a valid ring from the FIFO of its elements.
  pub run_refines :
      (cs : List (Call A)) (q : CircularQueue A)
      → IsRing q
      → run q cs ≡ fifo_run (q.size - 1) (contents d q) cs
  unfolding run fifo_run
  run_refines [] q v = refl
  run_refines (push_of x ∷ cs) q v =
      rw (run_refines cs (push q x).1 (push-IsRing q x v), ← push_refines d q x v, size-push)
  run_refines (pop_of ∷ cs) q v =
      rw (run_refines cs (pop d q).1 (pop-IsRing d q v), ← pop_refines d q v, size-pop)
