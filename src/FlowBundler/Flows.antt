-- ===== src/FlowBundler/Flows.antt =====
-- `AddFlow`: every flow gets its rate and a first turn to generate packets.
use flow_bundler.Common.{
  ℕ, zero, suc, ◌+◌, ◌-◌, ◌*◌, ◌/◌, ◌^◌, ◌<◌, ◌≡◌, ◌≢◌, refl, ap, sym, ◌∙◌, List, [], ◌∷◌, ◌++◌,
  append_assoc, append-nil, length, length-append, length-replicate, length-take, take, replicate,
  set-append, set, u32, ltb, ◌==◌, if◌then◌else◌, inl, inr, some, false, arith, Bool-cases, ==_iff,
}
use flow_bundler.CircularQueue.{CircularQueue, push, reset, elements_num, is_empty}
use flow_bundler.CircularQueue.Invariant.{IsRing, push-IsRing, reset-IsRing}
use flow_bundler.CircularQueue.Count.{contents, is_empty-elements_num}
use flow_bundler.CircularQueue.Window.{window}
use flow_bundler.CircularQueue.Refine.{fifo_push, push_refines, size-push}
use flow_bundler.FlowBundler.State.{FlowBundler, FlowInfo}
use flow_bundler.FlowBundler.Setup.{
  AddFlowArg, resize, set_flows, listed, equal, push_flows, push_rounds, load_flows, add_flow,
}

length-resize {ℓ} : {A : Type ℓ} (xs : List A) (n : ℕ) (d : A) → length (resize xs n d) ≡ n
unfolding resize
length-resize xs n d = omega (
  arith,
  length-append (take n xs) (replicate (n - length xs) d),
  length-take n xs,
  length-replicate (n - length xs) d,
)

-- The flows before `i` are done.
set_flows_rest :
    (rest done infos : List FlowInfo) (zeros nums : List ℕ) (i : ℕ)
    → length done ≡ i
    → length zeros ≡ i
    → length infos ≡ length rest
    → length nums ≡ length rest
    → set_flows rest i (done ++ infos) (zeros ++ nums)
      ≡ (done ++ rest, zeros ++ replicate (length rest) 0)
unfolding set_flows
set_flows_rest [] done [] zeros [] i d z e k = refl
set_flows_rest [] done (x ∷ infos) zeros nums i d z e k = absurd (omega arith)
set_flows_rest [] done [] zeros (y ∷ nums) i d z e k = absurd (omega arith)
set_flows_rest (r ∷ rest) done [] zeros nums i d z e k = absurd (omega arith)
set_flows_rest (r ∷ rest) done (x ∷ infos) zeros [] i d z e k = absurd (omega arith)
set_flows_rest (r ∷ rest) done (x ∷ infos) zeros (y ∷ nums) i d z e k =
    let first : set (done ++ x ∷ infos) i r ≡ (done ++ r ∷ []) ++ infos =
      ap (λ n. set (done ++ x ∷ infos) n r) (sym d)
      ∙ set-append done x r infos
      ∙ sym (append_assoc done (r ∷ []) infos) in
    let second : set (zeros ++ y ∷ nums) i 0 ≡ (zeros ++ 0 ∷ []) ++ nums =
      ap (λ n. set (zeros ++ y ∷ nums) n 0) (sym z)
      ∙ set-append zeros y 0 nums
      ∙ sym (append_assoc zeros (0 ∷ []) nums) in
    let next =
      set_flows_rest rest (done ++ r ∷ []) infos (zeros ++ 0 ∷ []) nums (i + 1)
        (omega (arith, length-append done (r ∷ []))) (omega (arith, length-append zeros (0 ∷ [])))
        (omega arith) (omega arith) in
    rw (
      first,
      second,
      next,
      append_assoc done (r ∷ []) rest,
      append_assoc zeros (0 ∷ []) (replicate (length rest) 0),
    )

-- `n` numbers from `j` on.
abbrev pub upto : ℕ → ℕ → List ℕ
upto zero j = []
upto (suc n) j = j ∷ upto n (j + 1)

abbrev pub repeat : ℕ → List ℕ → List ℕ
repeat zero xs = []
repeat (suc n) xs = xs ++ repeat n xs

length-upto : (n j : ℕ) → length (upto n j) ≡ n
length-upto zero j = refl
length-upto (suc n) j = ap suc (length-upto n (j + 1))

record Filled (q : CircularQueue ℕ) (xs : List ℕ) (size : ℕ) : Type 0 where
  ring : IsRing q
  holds : contents 0 q ≡ xs
  same : q.size ≡ size

push-Filled :
    (q : CircularQueue ℕ) (xs : List ℕ) (size x : ℕ)
    → Filled q xs size
    → length xs + 1 < size
    → Filled (push q x).1 (xs ++ x ∷ []) size
unfolding fifo_push
push-Filled q xs size x v room =
    let free : (length (contents 0 q) == q.size - 1) ≡ false =
      rw (v.holds, v.same) (ground arith) in
    record {
      ring = push-IsRing q x v.ring;
      holds = ap (λ r. r.1) (push_refines 0 q x v.ring) ∙ rw (free, v.holds) refl;
      same = size-push 0 q x ∙ v.same;
    }

push_flows-Filled :
    (n j : ℕ) (q : CircularQueue ℕ) (xs : List ℕ) (size : ℕ)
    → Filled q xs size
    → length xs + n < size
    → Filled (push_flows n j q) (xs ++ upto n j) size
unfolding push_flows
push_flows-Filled zero j q xs size v room = rw (append-nil xs) v
push_flows-Filled (suc n) j q xs size v room =
    let next =
      push_flows-Filled n (j + 1) (push q j).1 (xs ++ j ∷ []) size
        (push-Filled q xs size j v (omega arith)) (omega (arith, length-append xs (j ∷ []))) in
    rw (← append_assoc xs (j ∷ []) (upto n (j + 1))) next

push_rounds-Filled :
    (rounds n : ℕ) (q : CircularQueue ℕ) (xs : List ℕ) (size : ℕ)
    → Filled q xs size
    → length xs + rounds * n < size
    → Filled (push_rounds rounds n q) (xs ++ repeat rounds (upto n 0)) size
unfolding push_rounds
push_rounds-Filled zero n q xs size v room = rw (append-nil xs) v
push_rounds-Filled (suc rounds) n q xs size v room =
    let next =
      push_rounds-Filled rounds n (push_flows n 0 q) (xs ++ upto n 0) size
        (push_flows-Filled n 0 q xs size v (omega arith))
        (omega (arith, length-append xs (upto n 0), length-upto n 0)) in
    rw (← append_assoc xs (upto n 0) (repeat rounds (upto n 0))) next

length-equal : (n i rate : ℕ) (clock : ℕ → ℕ) → length (equal n i rate clock) ≡ n
unfolding equal
length-equal zero i rate clock = refl
length-equal (suc n) i rate clock = ap suc (length-equal n (i + 1) rate clock)

length-listed : (rates : List ℕ) (now : ℕ) → length (listed rates now) ≡ length rates
length-listed [] now = refl
length-listed (r ∷ rates) now = ap suc (length-listed rates now)

reset-Filled : (q : CircularQueue ℕ) → IsRing q → Filled (reset q) [] q.size
unfolding reset is_empty
reset-Filled q v =
    let ring = reset-IsRing q v in
    let none_left : elements_num (reset q) ≡ 0 =
      (==_iff (elements_num (reset q)) 0).0 (sym (is_empty-elements_num 0 (reset q) ring)) in
    record { ring = ring; holds = ap (window 0 q.memory q.size 0) none_left; same = refl }

-- What the tables hold for these flows.
pub record Loaded (infos : List FlowInfo) (st st' : FlowBundler) : Type 0 where
  pub flows : st'.flow_info ≡ infos
  pub idle : st'.shared.pkts_num ≡ replicate (length infos) 0
  pub ring : IsRing st'.shared.flow_to_gen
  pub turns :
      contents 0 st'.shared.flow_to_gen
      ≡ repeat (st.max_bytes_per_flow / 1500) (upto (length infos) 0)

module _ (st : FlowBundler) (v : IsRing st.shared.flow_to_gen) where
  load_flows-Loaded :
      (n : ℕ) (infos : List FlowInfo)
      → length infos ≡ n
      → st.max_bytes_per_flow / 1500 * n < st.shared.flow_to_gen.size
      → Loaded infos st (load_flows st n infos)
  unfolding load_flows
  load_flows-Loaded n infos e room =
      let info0 : FlowInfo = record { last_stamp = 0; rate = 0 } in
      let tables =
        set_flows_rest infos [] (resize st.flow_info n info0) [] (resize st.shared.pkts_num n 0) 0
          refl refl (length-resize st.flow_info n info0 ∙ sym e)
          (length-resize st.shared.pkts_num n 0 ∙ sym e) in
      let f =
        push_rounds-Filled (st.max_bytes_per_flow / 1500) n (reset st.shared.flow_to_gen) []
          st.shared.flow_to_gen.size (reset-Filled st.shared.flow_to_gen v) (omega arith) in
      record {
        flows = ap (λ r. r.0) tables;
        idle = ap (λ r. r.1) tables;
        ring = f.ring;
        turns = f.holds ∙ ap (λ i. repeat (st.max_bytes_per_flow / 1500) (upto i 0)) (sym e);
      }

-- The flows of the message: those listed, or else as many as it says.
abbrev pub flow_count : AddFlowArg → ℕ
flow_count arg = if ltb 0 (length arg.flow_rates) then length arg.flow_rates else arg.flow_num

abbrev pub flows_of : AddFlowArg → ℕ → (ℕ → ℕ) → List FlowInfo
flows_of arg now clock =
    if ltb 0 (length arg.flow_rates)
    then listed arg.flow_rates now
    else equal arg.flow_num 0 (u32 (arg.total_rate / arg.flow_num)) clock

-- Whatever flows there were before, `AddFlow` leaves those of the message, with no packet queued and
-- with a turn to generate packets for each 1500 bytes that a flow may have in the queue. The message
-- must have a flow, and the ring room for these turns.
pub add_flow_lem :
    (st : FlowBundler) (arg : AddFlowArg) (now : ℕ) (clock : ℕ → ℕ)
    → IsRing st.shared.flow_to_gen
    → flow_count arg ≢ 0
    → length arg.flow_rates < 2 ^ 32
    → st.max_bytes_per_flow / 1500 * flow_count arg < st.shared.flow_to_gen.size
    → (st' : FlowBundler) × (add_flow st arg now clock ≡ some st')
      × Loaded (flows_of arg now clock) st st'
unfolding add_flow
add_flow_lem st arg now clock v some_flow fits room =
    elim (Bool-cases (ltb 0 (length arg.flow_rates))) [
      | inl given ↦
          let exact : u32 (length arg.flow_rates) ≡ length arg.flow_rates = omega arith in
          (
            load_flows st (u32 (length arg.flow_rates)) (listed arg.flow_rates now),
            rw (given, add_flow) refl,
            rw (given) (
                load_flows-Loaded st v (u32 (length arg.flow_rates)) (listed arg.flow_rates now)
                  (length-listed arg.flow_rates now ∙ sym exact) (rw (exact) (rw given at room))),
          )
      | inr by_number ↦
          let pos : (arg.flow_num == 0) ≡ false = ground arith in
          let infos = equal arg.flow_num 0 (u32 (arg.total_rate / arg.flow_num)) clock in
          (
            load_flows st arg.flow_num infos,
            rw (by_number, pos, add_flow) refl,
            rw by_number (
                load_flows-Loaded st v arg.flow_num infos (length-equal arg.flow_num 0 _ clock)
                  (rw by_number at room)),
          )
    ]
