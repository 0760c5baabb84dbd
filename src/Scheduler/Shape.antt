-- ===== src/Scheduler/Shape.antt =====
-- The rounds of a scheduler and the policy of its root.
use flow_bundler.TrafficClass.{
  unblock_leaf, unblock_priority, unblock_round_robin, unblock_rate_limit,
}
use flow_bundler.Common.{if◌then◌else◌}
use flow_bundler.Common.{
  ℕ, zero, suc, ◌≡◌, refl, ◌∙◌, List, [], ◌∷◌, length, ltb, ◌==◌, ◌||◌, Bool, true, false, inl, inr,
  Option, none, some, Bool-cases, Option-cases,
}
use flow_bundler.TrafficClass.{Usage, Tc, leaf, priority, round_robin, rate_limit, flags, unblock}
use flow_bundler.TrafficClass.Step.{
  climb, towards_root, children_towards_root, account, account_of, account_priority,
  account_round_robin, blocked_at,
}
use flow_bundler.Scheduler.{
  Scheduler, earliest, rouse, wake, wake_loop, wake_tcs, pick, next, Ran, usage_of, finish,
  schedule_once,
}
use flow_bundler.Scheduler.Wake.{run_round_lem, Chosen}
use flow_bundler.TrafficClass.Step.{LeafStep}
use flow_bundler.Scheduler.{run_round, schedule_experimental, idles, no_usage, backoff}
use flow_bundler.Scheduler.Tree.{HasRobin, Ready}
use flow_bundler.Scheduler.Size.{is_robin, is_robin-unblock}

module _ (id : ℕ) (start further : Tc → Tc × Bool)
    (start_same : (t : Tc) → is_robin (start t).0 ≡ is_robin t)
    (further_same : (t : Tc) → is_robin (further t).0 ≡ is_robin t) where
  is_robin-climb : (told : Bool) (t : Tc) → is_robin (climb id start further told t).0 ≡ is_robin t
  unfolding climb
  is_robin-climb true t = further_same t
  is_robin-climb false t = refl

  is_robin-towards_root : (t : Tc) → is_robin (towards_root id start further t).0 ≡ is_robin t
  unfolding towards_root
  is_robin-towards_root (leaf h w) = elim (Bool-cases (h.id == id)) [
    | inl here ↦ rw here (start_same (leaf h w))
    | inr other ↦ rw other refl
  ]
  is_robin-towards_root (priority h first cs) =
      let r = children_towards_root id start further cs in
      elim (Bool-cases (h.id == id)) [
        | inl here ↦ rw here (start_same (priority h first cs))
        | inr other ↦ rw other (is_robin-climb r.1 (priority h first r.0))
      ]
  is_robin-towards_root (round_robin h next run wait) =
      let r = children_towards_root id start further run in
      let q = children_towards_root id start further wait in
      elim (Bool-cases (h.id == id)) [
        | inl here ↦ rw here (start_same (round_robin h next run wait))
        | inr other ↦ rw other (is_robin-climb (r.1 || q.1) (round_robin h next r.0 q.0))
      ]
  is_robin-towards_root (rate_limit h l cs) =
      let r = children_towards_root id start further cs in
      elim (Bool-cases (h.id == id)) [
        | inl here ↦ rw here (start_same (rate_limit h l cs))
        | inr other ↦ rw other (is_robin-climb r.1 (rate_limit h l r.0))
      ]

is_robin-rouse : (tsc : ℕ) (t : Tc) → is_robin (rouse tsc t).0 ≡ is_robin t
unfolding rouse unblock unblock_leaf unblock_priority unblock_round_robin unblock_rate_limit
is_robin-rouse tsc (leaf h w) = refl
is_robin-rouse tsc (priority h first cs) = refl
is_robin-rouse tsc (round_robin h next run wait) = refl
is_robin-rouse tsc (rate_limit h l cs) = refl

HasRobin-wake : (e : ℕ × ℕ) (root : Option Tc) → HasRobin root → HasRobin (wake e root)
unfolding wake
HasRobin-wake e none r = r
HasRobin-wake e (some t) r =
    is_robin-towards_root e.0 (rouse e.1) (unblock e.1) (is_robin-rouse e.1) (is_robin-unblock e.1)
      t
    ∙ r

HasRobin-wake_loop :
    (n tsc : ℕ) (q : List (ℕ × ℕ)) (root : Option Tc)
    → HasRobin root
    → HasRobin (wake_loop n tsc q root).0
unfolding wake_loop
HasRobin-wake_loop zero tsc q root r = r
HasRobin-wake_loop (suc n) tsc [] root r = r
HasRobin-wake_loop (suc n) tsc (e ∷ q) root r =
    let top = (earliest e q).0 in
    elim (Bool-cases (ltb top.1 tsc)) [
      | inl due ↦
          rw due
            (HasRobin-wake_loop n tsc (earliest e q).1 (wake top root) (HasRobin-wake top root r))
      | inr late ↦ rw late r
    ]

is_robin-account :
    (step : LeafStep) (usage : Usage) (now : ℕ) (t : Tc)
    → is_robin (account step usage now t).0 ≡ is_robin t
unfolding account account_priority account_round_robin
is_robin-account step usage now (leaf h w) = refl
is_robin-account step usage now (priority h first cs) =
    elim (Bool-cases (blocked_at first (flags (account_of step usage now first cs).0))) [
      | inl busy ↦ rw (busy, account_priority) refl
      | inr free ↦ rw (free, account_priority) refl
    ]
is_robin-account step usage now (round_robin h next run wait) =
    elim (Bool-cases (blocked_at next (flags (account_of step usage now next run).0))) [
      | inl busy ↦ rw (busy, account_round_robin) refl
      | inr free ↦ rw (free, account_round_robin) refl
    ]
is_robin-account step usage now (rate_limit h l cs) = refl

HasRobin-finish :
    (step : LeafStep) (usage : Usage) (now : ℕ) (root : Option Tc)
    → HasRobin root
    → HasRobin (finish step usage now root).0
unfolding finish
HasRobin-finish step usage now none r = r
HasRobin-finish step usage now (some t) r = is_robin-account step usage now t ∙ r

run_round-Ready :
    (step : LeafStep) (usage : Usage) (now : ℕ) (s : Scheduler)
    → Ready s
    → Ready (run_round step usage now s).0
unfolding run_round next wake_tcs
run_round-Ready step usage now s ready =
    let s1 = wake_tcs s.checkpoint s in
    let robin1 : s.has_default ≡ true → HasRobin s1.root = λ has.
      HasRobin-wake_loop (length s.wakeups) s.checkpoint s.wakeups s.root (ready.default_is has) in
    record {
      sound = (run_round_lem step usage now s ready.sound).1;
      default_is = elim (Option-cases (pick s1.root)) [
        | inl idle ↦ rw (idle, run_round) robin1
        | inr (x, e) ↦
            rw (e, run_round) (λ has. HasRobin-finish step usage now s1.root (robin1 has))
      ];
    }

-- If the scheduler is ready, a round, of the default scheduler and of the experimental one, runs the leaf that
-- has its turn in the tree that `WakeTCs` leaves, or none where its root is blocked or there is none, and the
-- scheduler is ready after it.
pub schedule_lem :
    (ran : Ran) (s : Scheduler)
    → Ready s
    → let woken = (wake_tcs s.checkpoint s).root in
      let once = schedule_once ran s in
      let other = schedule_experimental ran s in
      Chosen woken once.1 × Ready once.0 × Chosen woken other.1 × Ready other.0
unfolding schedule_once schedule_experimental
schedule_lem ran s ready =
    let usage = usage_of s.checkpoint ran in
    let usage' = if idles ran then no_usage else usage in
    (
      (run_round_lem (λ h w. (h, w, none)) usage ran.now s ready.sound).0,
      run_round-Ready (λ h w. (h, w, none)) usage ran.now s ready,
      (run_round_lem (backoff ran) usage' ran.now s ready.sound).0,
      run_round-Ready (backoff ran) usage' ran.now s ready,
    )
