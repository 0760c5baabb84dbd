-- ===== src/Tests/Classes.antt =====
-- A tree of traffic classes: a round robin class over a priority class of two leaves, and over a rate limit
-- of one leaf that sleeps.
use flow_bundler.Common.{
  ℕ, ◌+◌, ◌*◌, ◌≤◌, ◌≡◌, ◌⊎◌, refl, List, [], ◌∷◌, Bool, true, false, inl, some, arith,
}
use flow_bundler.TrafficClass.{
  Usage, Head, Limiter, Tc, leaf, priority, round_robin, rate_limit, no_children, child, packet,
  used, head_of, blocked, flags, class_size, first_free, no_free_child, unblock_rate_limit,
  unblock_set,
}
use flow_bundler.TrafficClass.Step.{attach, detach}
use flow_bundler.TrafficClass.Consistent.{Consistent}
use flow_bundler.TrafficClass.Add.{attach_lem}
use flow_bundler.TrafficClass.Remove.{detach_lem}
use flow_bundler.TrafficClass.Limit.{
  throttles, Event, ran, told, woken, AllAllowed, Served, clock, served, nothing_served, serve_all,
  serve_all_lem,
}
use flow_bundler.TrafficClass.Step.{to_work_units, work, new_tokens, charge, account_limit}
use flow_bundler.Scheduler.{
  Scheduler, Ran, no_usage, wake_tcs, schedule_once, schedule_experimental, attach_orphan,
  adjust_default, num_tcs,
}
use flow_bundler.Scheduler.Wake.{Sound, not_due, wake_tcs_lem, Chosen}
use flow_bundler.Scheduler.Tree.{Ready, attach_orphan_lem, adjust_default_lem}
use flow_bundler.Scheduler.Shape.{schedule_lem}

abbrev head_with : ℕ → ℕ → Bool → Head
head_with id time busy = record {
  id = id;
  usage = no_usage;
  cnt_throttled = 0;
  wakeup_time = time;
  blocked = busy;
}

abbrev leaf_with : ℕ → Tc
leaf_with id = leaf (head_with id 0 false) 16384

abbrev limiter : Limiter
limiter = record {
  resource = packet;
  limit = 4;
  limit_arg = 4;
  max_burst = 100;
  max_burst_arg = 100;
  tokens = 0;
  last_tsc = 400;
}

abbrev limited : Tc
limited = rate_limit (head_with 2 500 true) limiter (child 0 (leaf_with 3) no_children)

abbrev ranked : Tc
ranked =
    priority (head_with 4 0 false) 0 (child 1 (leaf_with 5) (child 7 (leaf_with 6) no_children))

abbrev tree : Tc
tree =
    round_robin (head_with 1 0 false) 0 (child 0 ranked no_children) (child 0 limited no_children)

tree-Consistent : Consistent tree
unfolding Consistent flags first_free no_free_child head_of
tree-Consistent = (
  record { run_free = (refl, tt); wait_busy = (refl, tt); turn_in = inl refl; robin_flag = refl },
  ((record { first_is = refl; priority_flag = refl }, (tt, (tt, tt))), tt),
  (
    (
      record {
        child_free = λ e. refl;
        awake = λ e. let no : true ≡ false = e in cc;
        single = omega arith;
      },
      (tt, tt),
    ),
    tt,
  ),
)

leaf-Consistent : (id : ℕ) → Consistent (leaf_with id)
unfolding Consistent
leaf-Consistent id = tt

attach_lem_example :
    Consistent (attach 600 4 3 (leaf_with 7) tree)
    × (blocked tree ≡ false → blocked (attach 600 4 3 (leaf_with 7) tree) ≡ false)
attach_lem_example = attach_lem 600 4 3 (leaf_with 7) tree (leaf-Consistent 7) tree-Consistent

detach_lem_example :
    Consistent (detach 4 5 tree) × (blocked tree ≡ true → blocked (detach 4 5 tree) ≡ true)
detach_lem_example = detach_lem 4 5 tree tree-Consistent

abbrev scheduler : Scheduler
scheduler = record {
  root = some tree;
  has_default = true;
  wakeups = (2, 500) ∷ (8, 2000) ∷ [];
  cnt_idle = 0;
  cycles_idle = 0;
  checkpoint = 1000;
}

scheduler-Ready : Ready scheduler
scheduler-Ready = record { sound = tree-Consistent; default_is = λ e. refl }

wake_tcs_lem_example :
    Sound (wake_tcs 1000 scheduler).root
    × ((wake_tcs 1000 scheduler).wakeups ≡ not_due 1000 ((2, 500) ∷ (8, 2000) ∷ []))
wake_tcs_lem_example = wake_tcs_lem 1000 scheduler tree-Consistent

abbrev idle_turn : Ran
idle_turn = record { block = true; packets = 0; bits = 0; now = 1100 }

schedule_lem_example :
    let woken = (wake_tcs 1000 scheduler).root in
    let once = schedule_once idle_turn scheduler in
    let other = schedule_experimental idle_turn scheduler in
    Chosen woken once.1 × Ready once.0 × Chosen woken other.1 × Ready other.0
schedule_lem_example = schedule_lem idle_turn scheduler scheduler-Ready

attach_orphan_lem_example :
    let s' = attach_orphan 1000 9 (leaf_with 7) scheduler in
    Ready s'
    × ((num_tcs s' ≡ num_tcs scheduler + class_size (leaf_with 7))
        ⊎ ((true ≡ false)
            × (s'.has_default ≡ true)
            × (num_tcs s' ≡ 1 + num_tcs scheduler + class_size (leaf_with 7))))
attach_orphan_lem_example =
    attach_orphan_lem 1000 9 (leaf_with 7) scheduler (leaf-Consistent 7) scheduler-Ready

adjust_default_lem_example :
    let s' = adjust_default scheduler in
    Ready s'
    × (s'.has_default ≡ true → 3 ≤ num_tcs s')
    × ((s' ≡ scheduler)
        ⊎ ((true ≡ true) × (s'.has_default ≡ false) × (num_tcs scheduler ≡ 1 + num_tcs s')))
adjust_default_lem_example = adjust_default_lem scheduler scheduler-Ready

abbrev of_packets : ℕ → Usage
of_packets n = record { counts = 1; cycles = 10; packets = n; bits = 0 }

-- One packet in a cycle, and two accountings, of which the second one throttles the class.
abbrev fast : Limiter
fast = record limiter { limit = 4294967296 }

-- Two accountings, of which the second one throttles the class; its own wakeup; and the wakeup of a class
-- below it that was due earlier.
abbrev events : List Event
events =
    ran (of_packets 3) 410
    ∷ ran (of_packets 5) 411
    ∷ woken no_children
    ∷ told (child 0 (leaf_with 3) no_children) 405
    ∷ []

events-AllAllowed : AllAllowed (nothing_served (head_with 2 0 false) fast) events
unfolding account_limit charge work new_tokens to_work_units throttles used clock served
    unblock_rate_limit unblock_set no_free_child
events-AllAllowed = (
  (refl, record { in_order = omega arith; earned_fits = omega arith; used_fits = omega arith }),
  (
    (refl, record { in_order = omega arith; earned_fits = omega arith; used_fits = omega arith }),
    ((λ e. omega (arith, e)), (tt, tt)),
  ),
)

serve_all_lem_example :
    let h = head_with 2 0 false in
    let s = serve_all (nothing_served h fast) events in
    s.total + s.limiter.tokens + 4294967296 * clock h fast
    ≤ 0 + 4294967296 * clock (s.head) (s.limiter) + 4294967296 * s.times + 4294967296 * s.back
serve_all_lem_example =
    serve_all_lem (head_with 2 0 false) fast events (omega arith) events-AllAllowed

abbrev after_events : Served
after_events = serve_all (nothing_served (head_with 2 0 false) fast) events

-- The wakeup below sets the clock back by 9 cycles.
set_back_once :
    (after_events.times ≡ 1) × (after_events.back ≡ 9) × (after_events.limiter.last_tsc ≡ 405)
unfolding account_limit charge work new_tokens to_work_units throttles used clock served
    unblock_rate_limit unblock_set no_free_child
set_back_once = (refl, refl, refl)
