-- ===== src/Scheduler.antt =====
-- bess/core/scheduler.h: the scheduler of a worker, with the time of the wakeup queue's entries and what a
-- task returns as arguments. The classes are those of TrafficClass.
pub mod Wake
pub mod Size
pub mod Tree
pub mod Shape
use flow_bundler.Common.{
  ℕ, zero, suc, ◌+◌, ◌*◌, ◌/◌, ◌^◌, List, [], ◌∷◌, ◌++◌, u64, length, sub64, ltb, leb, ◌==◌, ◌&&◌,
  not, if◌then◌else◌, Bool, true, false, Option, none, some,
}
use flow_bundler.TrafficClass.{
  Usage, Head, Tc, leaf, priority, round_robin, rate_limit, Children, no_children, child, head_of,
  blocked, push_back, class_size, unblock,
}
use flow_bundler.TrafficClass.Step.{towards_root, next_leaf, LeafStep, account, add_child}

-- `default_rr_class_` is the root wherever it is set. An entry of the wakeup queue is a class and its
-- `wakeup_time_`, which nothing changes while it is there.
pub record Scheduler : Type 0 where
  pub root : Option Tc
  pub has_default : Bool
  pub wakeups : List (ℕ × ℕ)
  pub cnt_idle : ℕ  -- uint64_t
  pub cycles_idle : ℕ  -- uint64_t
  pub checkpoint : ℕ  -- uint64_t

-- `q_.top()`, an entry with the least time, and what `q_.pop()` leaves.
unfoldable pub earliest : ℕ × ℕ → List (ℕ × ℕ) → (ℕ × ℕ) × List (ℕ × ℕ)
earliest e [] = (e, [])
earliest e (x ∷ xs) =
    let (top, others) = earliest x xs in if ltb top.1 e.1 then (top, e ∷ others) else (e, x ∷ xs)

abbrev pub roused : Head → Head
roused h = record h { wakeup_time = 0 }

-- A class that wakes up: `wakeup_time_ = 0` and its `UnblockTowardsRoot`.
unfoldable pub rouse : ℕ → Tc → Tc × Bool
unfolding unblock
rouse tsc (leaf h w) = unblock tsc (leaf (roused h) w)
rouse tsc (priority h first cs) = unblock tsc (priority (roused h) first cs)
rouse tsc (round_robin h next run wait) = unblock tsc (round_robin (roused h) next run wait)
rouse tsc (rate_limit h l cs) = unblock tsc (rate_limit (roused h) l cs)

unfoldable pub wake : ℕ × ℕ → Option Tc → Option Tc
unfolding towards_root rouse unblock
wake e none = none
wake e (some t) = some (towards_root e.0 (rouse e.1) (unblock e.1) t).0

-- The loop of `WakeTCs`, for as many rounds as there are entries at most.
unfoldable pub wake_loop : ℕ → ℕ → List (ℕ × ℕ) → Option Tc → Option Tc × List (ℕ × ℕ)
unfolding earliest wake
wake_loop zero tsc q root = (root, q)
wake_loop (suc n) tsc [] root = (root, [])
wake_loop (suc n) tsc (e ∷ q) root =
    let (top, others) = earliest e q in
    let further = wake_loop n tsc others (wake top root) in
    if ltb top.1 tsc then further else (root, e ∷ q)

unfoldable pub wake_tcs : ℕ → Scheduler → Scheduler
unfolding wake_loop
wake_tcs tsc s =
    let (root, q) = wake_loop (length s.wakeups) tsc s.wakeups s.root in
    record s { root = root; wakeups = q }

-- The leaf of a tree, if its root is not blocked.
unfoldable pub pick : Option Tc → Option ℕ
unfolding next_leaf
pick none = none
pick (some t) = if blocked t then none else next_leaf t

-- `Next`
unfoldable pub next : ℕ → Scheduler → Scheduler × Option ℕ
unfolding wake_tcs pick
next tsc s = let s' = wake_tcs tsc s in (s', pick s'.root)

-- What a task returns, and the time at which it returns.
pub record Ran : Type 0 where
  pub block : Bool
  pub packets : ℕ  -- uint32_t
  pub bits : ℕ  -- uint64_t
  pub now : ℕ  -- uint64_t

unfoldable pub usage_of : ℕ → Ran → Usage
usage_of checkpoint ran = record {
  counts = 1;
  cycles = sub64 ran.now checkpoint;
  packets = ran.packets;
  bits = ran.bits;
}

unfoldable pub finish : LeafStep → Usage → ℕ → Option Tc → Option Tc × List (ℕ × ℕ)
unfolding account
finish step usage now none = (none, [])
finish step usage now (some t) = let (t', woken) = account step usage now t in (some t', woken)

-- `ScheduleOnce`, for what the scheduler does to the leaf and accounts for, and the leaf whose task has run.
unfoldable pub run_round : LeafStep → Usage → ℕ → Scheduler → Scheduler × Option ℕ
unfolding next finish
run_round step usage now s =
    let (s1, chosen) = next s.checkpoint s in
    let (root, woken) = finish step usage now s1.root in
    elim chosen [
      | none ↦ (
        record s1 {
          cnt_idle = u64 (s1.cnt_idle + 1);
          cycles_idle = u64 (s1.cycles_idle + sub64 now s.checkpoint);
          checkpoint = now;
        },
        none,
      )
      | some x ↦
          (record s1 { root = root; wakeups = s1.wakeups ++ woken; checkpoint = now }, some x)
    ]

unfoldable pub schedule_once : Ran → Scheduler → Scheduler × Option ℕ
unfolding run_round usage_of
schedule_once ran s = run_round (λ h w. (h, w, none)) (usage_of s.checkpoint ran) ran.now s

-- That of the experimental scheduler, which lets a leaf sleep that has nothing to do, for longer each time.
unfoldable pub idles : Ran → Bool
idles ran = (ran.packets == 0) && ran.block

unfoldable pub wait_of : ℕ → ℕ
wait_of w = let twice = u64 (w * 2) in if ltb twice (2 ^ 20) then twice else 2 ^ 20

unfoldable pub backoff : Ran → LeafStep
unfolding idles wait_of
backoff ran h w =
    let wait = wait_of w in
    let time = u64 (ran.now + wait) in
    if idles ran
    then (record h { blocked = true; wakeup_time = time }, wait, some time)
    else (h, u64 (w + 1) / 2, none)

unfoldable pub no_usage : Usage
no_usage = record { counts = 0; cycles = 0; packets = 0; bits = 0 }

unfoldable pub schedule_experimental : Ran → Scheduler → Scheduler × Option ℕ
unfolding run_round usage_of backoff idles no_usage
schedule_experimental ran s =
    let usage = if idles ran then no_usage else usage_of s.checkpoint ran in
    run_round (backoff ran) usage ran.now s

-- A round robin class as its constructor leaves it.
unfoldable pub new_round_robin : ℕ → Tc
unfolding no_usage
new_round_robin id =
    let h : Head = record {
      id = id;
      usage = no_usage;
      cnt_throttled = 0;
      wakeup_time = 0;
      blocked = true;
    } in
    round_robin h 0 no_children no_children

-- `AttachOrphan`, with the number of the class that it may create and the time.
unfoldable pub attach_orphan : ℕ → ℕ → Tc → Scheduler → Scheduler
unfolding add_child new_round_robin
attach_orphan tsc fresh c s = elim (s.root) [
  | none ↦ record s { root = some c }
  | some t ↦
      let (grown, told) = add_child tsc 0 c t in
      let (one, told1) = add_child tsc 0 t (new_round_robin fresh) in
      let (both, told2) = add_child tsc 0 c one in
      if s.has_default
      then record s { root = some grown }
      else record s { root = some both; has_default = true }
]

unfoldable pub children_of : Tc → Children
children_of (leaf h w) = no_children
children_of (priority h first cs) = cs
children_of (round_robin h next run wait) = push_back run wait
children_of (rate_limit h l cs) = cs

-- The root of a tree without its default class.
unfoldable pub simplified : Children → Option (Option Tc)
simplified no_children = some none
simplified (child p c no_children) = some (some c)
simplified (child p c (child q d cs)) = none

-- `AdjustDefault`
unfoldable pub adjust_default : Scheduler → Scheduler
unfolding children_of simplified
adjust_default s = elim (s.root) [
  | none ↦ s
  | some t ↦
      if s.has_default
      then elim (simplified (children_of t)) [
        | none ↦ s
        | some root ↦ record s { root = root; has_default = false }
      ]
      else s
]

-- `RemoveRoot` of the class with this number.
unfoldable pub remove_root : ℕ → Scheduler → Scheduler × Bool
remove_root id s = elim (s.root) [
  | none ↦ (s, false)
  | some t ↦
      if ((head_of t).id == id) && not s.has_default
      then (record s { root = none }, true)
      else (s, false)
]

-- `NumTcs`
unfoldable pub num_tcs : Scheduler → ℕ
unfolding class_size
num_tcs s = elim (s.root) [ none ↦ 0 | some t ↦ class_size t ]
