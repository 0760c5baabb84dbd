-- ===== src/TrafficClass.antt =====
-- bess/core/traffic_class.{h,cc}: trees of traffic classes, without the weighted fair class. A class owns its
-- children, and its parent is the class that holds it; what a step towards the root hands to the parent
-- is a result. A class is known by a number, for its address.
pub mod Step
pub mod Consistent
pub mod Position
pub mod Account
pub mod Order
pub mod Erase
pub mod Climb
pub mod Unblock
pub mod Add
pub mod Block
pub mod Remove
pub mod Limit
use flow_bundler.Common.{
  ℕ, ◌-◌, zero, suc, ◌+◌, ◌*◌, ◌/◌, ◌^◌, List, [], ◌∷◌, ◌++◌, u64, length, ltb, leb, ◌==◌, ◌||◌,
  ◌&&◌, not, if◌then◌else◌, Bool, true, false, Option, none, some,
}

pub data Resource : Type 0 where
  count : Resource
  cycle : Resource
  packet : Resource
  bit : Resource

-- `resource_arr_t`
pub record Usage : Type 0 where
  pub counts : ℕ  -- uint64_t
  pub cycles : ℕ  -- uint64_t
  pub packets : ℕ  -- uint64_t
  pub bits : ℕ  -- uint64_t

unfoldable pub used : Usage → Resource → ℕ
used u count = u.counts
used u cycle = u.cycles
used u packet = u.packets
used u bit = u.bits

unfoldable pub accumulate : Usage → Usage → Usage
accumulate acc x = record {
  counts = u64 (acc.counts + x.counts);
  cycles = u64 (acc.cycles + x.cycles);
  packets = u64 (acc.packets + x.packets);
  bits = u64 (acc.bits + x.bits);
}

-- The members of every class.
pub record Head : Type 0 where
  pub id : ℕ
  pub usage : Usage
  pub cnt_throttled : ℕ  -- uint64_t
  pub wakeup_time : ℕ  -- uint64_t
  pub blocked : Bool

-- Those of a rate limit.
pub record Limiter : Type 0 where
  pub resource : Resource
  pub limit : ℕ  -- uint64_t
  pub limit_arg : ℕ  -- uint64_t
  pub max_burst : ℕ  -- uint64_t
  pub max_burst_arg : ℕ  -- uint64_t
  pub tokens : ℕ  -- uint64_t
  pub last_tsc : ℕ  -- uint64_t

-- A leaf has its `wait_cycles_`, a priority class its `first_runnable_`, and a round robin class its
-- `next_child_` with the runnable and the blocked children. A rate limit has one child at most.
mutual
  pub data Tc : Type 0 where
    leaf : Head → ℕ → Tc
    priority : Head → ℕ → Children → Tc
    round_robin : Head → ℕ → Children → Children → Tc
    rate_limit : Head → Limiter → Children → Tc

  -- Each child with its priority, which only a priority class reads.
  pub data Children : Type 0 where
    no_children : Children
    child : ℕ → Tc → Children → Children

unfoldable pub head_of : Tc → Head
head_of (leaf h wait_cycles) = h
head_of (priority h first_runnable cs) = h
head_of (round_robin h next_child run wait) = h
head_of (rate_limit h l cs) = h

abbrev pub blocked : Tc → Bool
blocked t = (head_of t).blocked

-- The `blocked_` of each child.
unfoldable pub flags : Children → List Bool
flags no_children = []
flags (child p c cs) = blocked c ∷ flags cs

unfoldable pub is_childless : Children → Bool
is_childless no_children = true
is_childless (child p c cs) = false

unfoldable pub push_back : Children → Children → Children
push_back no_children others = others
push_back (child p c cs) others = child p c (push_back cs others)

unfoldable pub has_at_most : ℕ → Children → Bool
has_at_most p no_children = false
has_at_most p (child q c cs) = leb q p || has_at_most p cs

-- `InsertSorted`: behind the last child whose number is not greater.
unfoldable pub insert_sorted : ℕ → Tc → Children → Children
unfolding has_at_most
insert_sorted p c no_children = child p c no_children
insert_sorted p c (child q d cs) =
    let later = child q d (insert_sorted p c cs) in
    if has_at_most p (child q d cs) then later else child p c (child q d cs)

unfoldable pub has_priority : ℕ → Children → Bool
has_priority p no_children = false
has_priority p (child q c cs) = (q == p) || has_priority p cs

-- The children that are blocked, and the others.
unfoldable pub blocked_part : Children → Children
blocked_part no_children = no_children
blocked_part (child p c cs) =
    let others = blocked_part cs in if blocked c then child p c others else others

unfoldable pub free_part : Children → Children
free_part no_children = no_children
free_part (child p c cs) =
    let others = free_part cs in if blocked c then others else child p c others

-- The first that is not blocked, or the number of all.
unfoldable pub first_free : List Bool → ℕ
first_free [] = 0
first_free (b ∷ bs) = let later = suc (first_free bs) in if b then later else 0

-- The loop of a priority class from a position on.
unfoldable pub scan_from : ℕ → List Bool → ℕ
unfolding first_free
scan_from zero bs = first_free bs
scan_from (suc n) [] = suc n
scan_from (suc n) (b ∷ bs) = suc (scan_from n bs)

-- `Size`
unfoldable mutual
  pub class_size : Tc → ℕ
  class_size (leaf h w) = 1
  class_size (priority h first_runnable cs) = suc (children_size cs)
  class_size (round_robin h next_child run wait) = suc (children_size run + children_size wait)
  class_size (rate_limit h l cs) = suc (children_size cs)

  pub children_size : Children → ℕ
  children_size no_children = 0
  children_size (child p c cs) = class_size c + children_size cs

-- `UnblockTowardsRootSetBlocked` and `BlockTowardsRootSetBlocked`: the members, and whether the parent is
-- told.
unfoldable pub unblock_set : Head → Bool → Head × Bool
unblock_set h nowblocked = (record h { blocked = nowblocked }, (not nowblocked && h.blocked))

unfoldable pub block_set : Head → Bool → Head × Bool
block_set h nowblocked = (record h { blocked = nowblocked }, (nowblocked && not h.blocked))

-- `!child_ || child_->blocked_`
unfoldable pub no_free_child : Children → Bool
no_free_child no_children = true
no_free_child (child p c cs) = blocked c

-- `UnblockTowardsRoot` at one class, of each policy.
unfoldable pub unblock_leaf : Head → ℕ → Tc × Bool
unfolding unblock_set
unblock_leaf h wait_cycles = let (h', tell) = unblock_set h false in (leaf h' wait_cycles, tell)

unfoldable pub unblock_priority : Head → Children → Tc × Bool
unfolding unblock_set
unblock_priority h cs =
    let first = first_free (flags cs) in
    let (h', tell) = unblock_set h (leb (length (flags cs)) first) in (priority h' first cs, tell)

unfoldable pub unblock_round_robin : Head → ℕ → Children → Children → Tc × Bool
unfolding unblock_set
unblock_round_robin h next_child run wait =
    let run' = push_back run (free_part wait) in
    let (h', tell) = unblock_set h (is_childless run') in
    (round_robin h' next_child run' (blocked_part wait), tell)

unfoldable pub unblock_rate_limit : ℕ → Head → Limiter → Children → Tc × Bool
unfolding unblock_set
unblock_rate_limit tsc h l cs =
    let (h', tell) = unblock_set h (not (h.wakeup_time == 0) || no_free_child cs) in
    (rate_limit h' (record l { last_tsc = tsc }) cs, tell)

unfoldable pub unblock : ℕ → Tc → Tc × Bool
unfolding unblock_leaf unblock_priority unblock_round_robin unblock_rate_limit
unblock tsc (leaf h wait_cycles) = unblock_leaf h wait_cycles
unblock tsc (priority h first_runnable cs) = unblock_priority h cs
unblock tsc (round_robin h next_child run wait) = unblock_round_robin h next_child run wait
unblock tsc (rate_limit h l cs) = unblock_rate_limit tsc h l cs

-- The loop of `BlockTowardsRoot` of a round robin class, for the runnable children from the `i`th on, of
-- `n` that there are: those that stay, those that move, and `next_child_`.
unfoldable pub block_loop : Children → ℕ → ℕ → ℕ → Children × Children × ℕ
block_loop no_children i n next = (no_children, no_children, next)
block_loop (child p c cs) i n next =
    let n' = n - 1 in
    let moved = if ltb i next then next - 1 else next in
    let next' = if leb n' moved then 0 else moved in
    let (run, wait, last) = block_loop cs i n' next' in
    let (run1, wait1, last1) = block_loop cs (i + 1) n next in
    if blocked c then (run, child p c wait, last) else (child p c run1, wait1, last1)

-- `BlockTowardsRoot` at one class, of each policy.
unfoldable pub block_leaf : Head → ℕ → Tc × Bool
unfolding block_set
block_leaf h wait_cycles = let (h', tell) = block_set h false in (leaf h' wait_cycles, tell)

unfoldable pub block_priority : Head → ℕ → Children → Tc × Bool
unfolding block_set
block_priority h first_runnable cs =
    let first = scan_from first_runnable (flags cs) in
    let (h', tell) = block_set h (first == length (flags cs)) in (priority h' first cs, tell)

unfoldable pub block_round_robin : Head → ℕ → Children → Children → Tc × Bool
unfolding block_set
block_round_robin h next_child run wait =
    let (run', moved, next) = block_loop run 0 (length (flags run)) next_child in
    let (h', tell) = block_set h (is_childless run') in
    (round_robin h' next run' (push_back wait moved), tell)

unfoldable pub block_rate_limit : Head → Limiter → Children → Tc × Bool
unfolding block_set
block_rate_limit h l cs =
    let (h', tell) = block_set h (no_free_child cs) in (rate_limit h' l cs, tell)

unfoldable pub block : Tc → Tc × Bool
unfolding block_leaf block_priority block_round_robin block_rate_limit
block (leaf h wait_cycles) = block_leaf h wait_cycles
block (priority h first_runnable cs) = block_priority h first_runnable cs
block (round_robin h next_child run wait) = block_round_robin h next_child run wait
block (rate_limit h l cs) = block_rate_limit h l cs
