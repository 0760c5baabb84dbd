-- ===== src/TrafficClass/Step.antt =====
-- bess/core/traffic_class.{h,cc}: which leaf is picked, what is accounted for it, and the ways towards the
-- root.
use flow_bundler.Common.{
  ℕ, zero, suc, ◌+◌, ◌-◌, ◌*◌, ◌/◌, ◌^◌, List, [], ◌∷◌, ◌++◌, u64, length, sub64, ltb, leb, ◌==◌,
  ◌||◌, if◌then◌else◌, Bool, true, false, Option, none, some,
}
use flow_bundler.TrafficClass.{
  Usage, used, accumulate, Head, Limiter, Tc, leaf, priority, round_robin, rate_limit, Children,
  no_children, child, head_of, blocked, flags, is_childless, push_back, insert_sorted, has_priority,
  scan_from, unblock, block, no_free_child,
}

-- `PickNextChild` from `c` on, down to a leaf; `none` where there is no child to pick.
unfoldable mutual
  pub next_leaf : Tc → Option ℕ
  next_leaf (leaf h w) = some h.id
  next_leaf (priority h first_runnable cs) = next_of first_runnable cs
  next_leaf (round_robin h next_child run wait) = next_of next_child run
  next_leaf (rate_limit h l cs) = next_of 0 cs

  pub next_of : ℕ → Children → Option ℕ
  next_of n no_children = none
  next_of zero (child p c cs) = next_leaf c
  next_of (suc n) (child p c cs) = next_of n cs

-- Whether the child at a position is blocked.
unfoldable pub blocked_at : ℕ → List Bool → Bool
blocked_at n [] = false
blocked_at zero (b ∷ bs) = b
blocked_at (suc n) (b ∷ bs) = blocked_at n bs

unfoldable pub erase : ℕ → Children → Children
erase n no_children = no_children
erase zero (child p c cs) = cs
erase (suc n) (child p c cs) = child p c (erase n cs)

-- The child at a position, alone.
unfoldable pub only : ℕ → Children → Children
only n no_children = no_children
only zero (child p c cs) = child p c no_children
only (suc n) (child p c cs) = only n cs

unfoldable pub charge : Head → Usage → Head
charge h usage = record h { usage = accumulate h.usage usage }

-- `FinishAndAccountTowardsRoot` at one class, for a child that has finished.
unfoldable pub account_priority : Head → ℕ → Children → Usage → Tc
unfolding charge
account_priority h first_runnable cs usage =
    let h1 = charge h usage in
    let first = scan_from first_runnable (flags cs) in
    if blocked_at first_runnable (flags cs)
    then priority (record h1 { blocked = first == length (flags cs) }) first cs
    else priority h1 first_runnable cs

unfoldable pub wrapped : ℕ → Children → ℕ
wrapped next run = if leb (length (flags run)) next then 0 else next

unfoldable pub account_round_robin : Head → ℕ → Children → Children → Usage → Tc
unfolding charge wrapped
account_round_robin h next_child run wait usage =
    let h1 = charge h usage in
    let run' = erase next_child run in
    let further = u64 (next_child + usage.counts) in
    if blocked_at next_child (flags run)
    then round_robin (record h1 { blocked = is_childless run' }) (wrapped next_child run') run'
        (push_back wait (only next_child run))
    else round_robin h1 (wrapped further run) run wait

unfoldable pub to_work_units : ℕ → ℕ
to_work_units x = u64 (x * 2 ^ 32)

-- The tokens of a rate limit that has the new ones, and the work of a child.
unfoldable pub new_tokens : Limiter → ℕ → ℕ
new_tokens l tsc = u64 (l.tokens + u64 (l.limit * sub64 tsc l.last_tsc))

unfoldable pub work : Limiter → Usage → ℕ
unfolding to_work_units
work l usage = to_work_units (used usage l.resource)

-- The members, those of the limit, and the time to wake up at, if the class goes to the wakeup queue.
unfoldable pub account_limit : Head → Limiter → Usage → ℕ → Head × Limiter × Option ℕ
unfolding new_tokens work charge
account_limit h l usage tsc =
    let h1 = charge h usage in
    let tokens = new_tokens l tsc in
    let consumed = work l usage in
    let left = tokens - consumed in
    let wakeup = u64 (tsc + (consumed - tokens) / l.limit) in
    let throttled = record h1 { blocked = true; cnt_throttled = u64 (h1.cnt_throttled + 1) } in
    let empty = record l { last_tsc = tsc; tokens = 0 } in
    if ltb tokens consumed
    then (if l.limit == 0
        then (throttled, empty, none)
        else (record throttled { wakeup_time = wakeup }, empty, some wakeup))
    else (
      h1,
      record l { last_tsc = tsc; tokens = if ltb l.max_burst left then l.max_burst else left },
      none,
    )

-- What a scheduler does to the leaf that has run: its members and `wait_cycles_`, and the time to wake up
-- at, if the leaf goes to the wakeup queue.
abbrev pub LeafStep : Type 0
LeafStep = Head → ℕ → Head × ℕ × Option ℕ

unfoldable pub entry : ℕ → Option ℕ → List (ℕ × ℕ)
entry id none = []
entry id (some time) = (id, time) ∷ []

-- `FinishAndAccountTowardsRoot` of each class from the leaf that `next_leaf` finds, up to the root: the tree,
-- and what goes to the wakeup queue.
module _ (step : LeafStep) (usage : Usage) (tsc : ℕ) where
  unfoldable mutual
    unfolding charge account_priority account_round_robin account_limit entry

    pub account : Tc → Tc × List (ℕ × ℕ)
    account (leaf h w) =
        let (h', w', wakeup) = step h w in (leaf (charge h' usage) w', entry h.id wakeup)
    account (priority h first_runnable cs) =
        let (cs', woken) = account_of first_runnable cs in
        (account_priority h first_runnable cs' usage, woken)
    account (round_robin h next_child run wait) =
        let (run', woken) = account_of next_child run in
        (account_round_robin h next_child run' wait usage, woken)
    account (rate_limit h l cs) =
        let (cs', woken) = account_of 0 cs in
        let (h', l', wakeup) = account_limit h l usage tsc in
        let h2 = record h' { blocked = h'.blocked || no_free_child cs' } in
        (rate_limit h2 l' cs', woken ++ entry h.id wakeup)

    pub account_of : ℕ → Children → Children × List (ℕ × ℕ)
    account_of n no_children = (no_children, [])
    account_of zero (child p c cs) = let (c', woken) = account c in (child p c' cs, woken)
    account_of (suc n) (child p c cs) = let (cs', woken) = account_of n cs in (child p c cs', woken)

-- A walk towards the root. `start` is done at the class with the number `id`, and `further` at its parent
-- as long as a class tells its parent.
module _ (id : ℕ) (start further : Tc → Tc × Bool) where
  unfoldable pub climb : Bool → Tc → Tc × Bool
  climb told t = if told then further t else (t, false)

  unfoldable mutual
    unfolding climb

    pub towards_root : Tc → Tc × Bool
    towards_root (leaf h w) = if h.id == id then start (leaf h w) else (leaf h w, false)
    towards_root (priority h first_runnable cs) =
        let (cs', told) = children_towards_root cs in
        if h.id == id
        then start (priority h first_runnable cs)
        else climb told (priority h first_runnable cs')
    towards_root (round_robin h next_child run wait) =
        let (run', told) = children_towards_root run in
        let (wait', told') = children_towards_root wait in
        if h.id == id
        then start (round_robin h next_child run wait)
        else climb (told || told') (round_robin h next_child run' wait')
    towards_root (rate_limit h l cs) =
        let (cs', told) = children_towards_root cs in
        if h.id == id then start (rate_limit h l cs) else climb told (rate_limit h l cs')

    pub children_towards_root : Children → Children × Bool
    children_towards_root no_children = (no_children, false)
    children_towards_root (child p c cs) =
        let (c', told) = towards_root c in
        let (cs', told') = children_towards_root cs in (child p c' cs', (told || told'))

-- `AddChild` of each policy, for a child without a parent: the class, and whether the parent is told. A
-- class that refuses the child is as it was.
unfoldable pub add_priority : ℕ → ℕ → Tc → Head → ℕ → Children → Tc × Bool
unfolding unblock insert_sorted
add_priority tsc p c h first_runnable cs =
    if has_priority p cs
    then (priority h first_runnable cs, false)
    else unblock tsc (priority h first_runnable (insert_sorted p c cs))

unfoldable pub add_round_robin : ℕ → Tc → Head → ℕ → Children → Children → Tc × Bool
unfolding unblock
add_round_robin tsc c h next_child run wait =
    let one = child 0 c no_children in
    if blocked c
    then unblock tsc (round_robin h next_child run (push_back wait one))
    else unblock tsc (round_robin h next_child (push_back run one) wait)

unfoldable pub add_rate_limit : ℕ → Tc → Head → Limiter → Children → Tc × Bool
unfolding unblock
add_rate_limit tsc c h l cs =
    if is_childless cs
    then unblock tsc (rate_limit h l (child 0 c no_children))
    else (rate_limit h l cs, false)

unfoldable pub add_child : ℕ → ℕ → Tc → Tc → Tc × Bool
unfolding add_priority add_round_robin add_rate_limit
add_child tsc p c (leaf h w) = (leaf h w, false)
add_child tsc p c (priority h first_runnable cs) = add_priority tsc p c h first_runnable cs
add_child tsc p c (round_robin h next_child run wait) = add_round_robin tsc c h next_child run wait
add_child tsc p c (rate_limit h l cs) = add_rate_limit tsc c h l cs

-- `AddChild` of the class with this number, and its way towards the root.
unfoldable pub attach : ℕ → ℕ → ℕ → Tc → Tc → Tc
unfolding towards_root add_child
attach tsc id p c t = (towards_root id (add_child tsc p c) (unblock tsc) t).0

unfoldable pub after : Option ℕ → Option ℕ
after none = none
after (some i) = some (suc i)

-- Where the child with this number stands.
unfoldable pub position : ℕ → Children → Option ℕ
unfolding after
position id no_children = none
position id (child p c cs) =
    let further = after (position id cs) in if (head_of c).id == id then some 0 else further

-- A position after the one that is erased.
unfoldable pub shifted : ℕ → ℕ → ℕ
shifted i n = if ltb i n then n - 1 else n

-- `RemoveChild` of each policy, for the child with this number: the class, and whether the parent is told.
unfoldable pub remove_priority : ℕ → Head → ℕ → Children → Tc × Bool
unfolding position shifted block
remove_priority id h first_runnable cs = elim (position id cs) [
  | none ↦ (priority h first_runnable cs, false)
  | some i ↦ block (priority h (shifted i first_runnable) (erase i cs))
]

unfoldable pub remove_round_robin : ℕ → Head → ℕ → Children → Children → Tc × Bool
unfolding position shifted wrapped block
remove_round_robin id h next_child run wait = elim (position id wait) [
  | some i ↦ (round_robin h next_child run (erase i wait), false)
  | none ↦ elim (position id run) [
    | none ↦ (round_robin h next_child run wait, false)
    | some i ↦
        let run' = erase i run in
        block (round_robin h (wrapped (shifted i next_child) run') run' wait)
  ]
]

unfoldable pub remove_rate_limit : ℕ → Head → Limiter → Children → Tc × Bool
unfolding position block
remove_rate_limit id h l cs = elim (position id cs) [
  | none ↦ (rate_limit h l cs, false)
  | some i ↦ block (rate_limit h l no_children)
]

unfoldable pub remove_child : ℕ → Tc → Tc × Bool
unfolding remove_priority remove_round_robin remove_rate_limit
remove_child id (leaf h w) = (leaf h w, false)
remove_child id (priority h first_runnable cs) = remove_priority id h first_runnable cs
remove_child id (round_robin h next_child run wait) = remove_round_robin id h next_child run wait
remove_child id (rate_limit h l cs) = remove_rate_limit id h l cs

-- `RemoveChild` of the class with the first number, and its way towards the root.
unfoldable pub detach : ℕ → ℕ → Tc → Tc
unfolding towards_root remove_child block
detach id gone t = (towards_root id (remove_child gone) block t).0
