-- ===== src/Scheduler/Wake.antt =====
-- `WakeTCs`, and what a round picks and accounts for.
use flow_bundler.Common.{
  ℕ, zero, suc, ◌<◌, ◌≤◌, ◌≡◌, ◌⊎◌, refl, ap, ◌∙◌, sym, List, [], ◌∷◌, length, All, ltb,
  if◌then◌else◌, true, false, inl, inr, Option, none, some, arith, Bool-cases, Option-cases,
}
use flow_bundler.TrafficClass.{
  Usage, Tc, leaf, priority, round_robin, rate_limit, head_of, blocked, flags, first_free, unblock,
}
use flow_bundler.TrafficClass.Step.{LeafStep}
use flow_bundler.Scheduler.{run_round}
use flow_bundler.TrafficClass.Consistent.{Consistent, Turn, first_free-le, next_leaf_lem}
use flow_bundler.TrafficClass.Account.{account-Consistent}
use flow_bundler.TrafficClass.Climb.{Stepped, towards_root-Stepped}
use flow_bundler.TrafficClass.Unblock.{unblock-Stepped, unblock-Climbing}
use flow_bundler.Scheduler.{
  Scheduler, earliest, roused, rouse, wake, wake_loop, wake_tcs, pick, next, finish,
}

abbrev pub Sound : Option Tc → Type 0
Sound none = Unit
Sound (some t) = Consistent t

-- The entries that are not due.
unfoldable pub not_due : ℕ → List (ℕ × ℕ) → List (ℕ × ℕ)
not_due tsc [] = []
not_due tsc (e ∷ q) = let later = not_due tsc q in if ltb e.1 tsc then later else e ∷ later

length-earliest : (e : ℕ × ℕ) (q : List (ℕ × ℕ)) → length (earliest e q).1 ≡ length q
unfolding earliest
length-earliest e [] = refl
length-earliest e (x ∷ xs) = elim (Bool-cases (ltb (earliest x xs).0.1 e.1)) [
  | inl before ↦ rw before (ap suc (length-earliest x xs))
  | inr first ↦ rw first refl
]

earliest-All :
    (t : ℕ) (e : ℕ × ℕ) (q : List (ℕ × ℕ))
    → t ≤ (earliest e q).0.1
    → All (λ (x : ℕ × ℕ). t ≤ x.1) (e ∷ q)
unfolding earliest
earliest-All t e [] h = (h, tt)
earliest-All t e (x ∷ xs) h = elim (Bool-cases (ltb (earliest x xs).0.1 e.1)) [
  | inl before ↦
      let h' : t ≤ (earliest x xs).0.1 = rw before at h in
      (ground (arith, before, h'), earliest-All t x xs h')
  | inr first ↦
      let h' : t ≤ e.1 = rw first at h in (h', earliest-All t x xs (ground (arith, first, h')))
]

not_due-All : (tsc : ℕ) (q : List (ℕ × ℕ)) → All (λ (x : ℕ × ℕ). tsc ≤ x.1) q → not_due tsc q ≡ q
unfolding not_due
not_due-All tsc [] hs = refl
not_due-All tsc (e ∷ q) (h, hs) =
    let late : ltb e.1 tsc ≡ false = ground (arith, h) in
    rw late (ap (λ r. e ∷ r) (not_due-All tsc q hs))

not_due-earliest :
    (tsc : ℕ) (e : ℕ × ℕ) (q : List (ℕ × ℕ))
    → ltb (earliest e q).0.1 tsc ≡ true
    → not_due tsc (earliest e q).1 ≡ not_due tsc (e ∷ q)
unfolding earliest not_due
not_due-earliest tsc e [] due = rw due refl
not_due-earliest tsc e (x ∷ xs) due = elim (Bool-cases (ltb (earliest x xs).0.1 e.1)) [
  | inl before ↦
      let due' : ltb (earliest x xs).0.1 tsc ≡ true = rw before at due in
      let more = not_due-earliest tsc x xs due' in
      rw before (ap (λ r. if ltb e.1 tsc then r else e ∷ r) more)
  | inr first ↦ let due' : ltb e.1 tsc ≡ true = rw first at due in rw (first, due') refl
]

wake_loop-not_due :
    (n tsc : ℕ) (q : List (ℕ × ℕ)) (root : Option Tc)
    → length q ≤ n
    → (wake_loop n tsc q root).1 ≡ not_due tsc q
unfolding wake_loop not_due
wake_loop-not_due zero tsc [] root h = refl
wake_loop-not_due zero tsc (e ∷ q) root h = absurd (omega arith)
wake_loop-not_due (suc n) tsc [] root h = refl
wake_loop-not_due (suc n) tsc (e ∷ q) root h = elim (Bool-cases (ltb (earliest e q).0.1 tsc)) [
  | inl due ↦ rw due (
      wake_loop-not_due n tsc (earliest e q).1 (wake (earliest e q).0 root)
        (omega (arith, length-earliest e q))
      ∙ not_due-earliest tsc e q due)
  | inr late ↦ rw late (sym (not_due-All tsc (e ∷ q) (earliest-All tsc e q (ground (arith, late)))))
]

rouse-Stepped : (tsc : ℕ) (t : Tc) → Consistent t → Stepped false t (rouse tsc t)
unfolding rouse Consistent head_of
rouse-Stepped tsc (leaf h w) v =
    let s = unblock-Stepped tsc (leaf (roused h) w) v in record { kept = s.kept; flag = s.flag }
rouse-Stepped tsc (priority h first cs) (own, vs) =
    let some_free : h.blocked ≡ false → first_free (flags cs) < length (flags cs) =
      λ e. ground (arith, own.first_is, own.priority_flag, first_free-le (flags cs), e) in
    let s = unblock-Stepped tsc (priority (roused h) first cs) (some_free, vs) in
    record { kept = s.kept; flag = s.flag }
rouse-Stepped tsc (round_robin h next run wait) (own, vs, ws) =
    let some_run : h.blocked ≡ false → 0 < length (flags run) =
      λ e. ground (arith, own.robin_flag, e) in
    let s =
      unblock-Stepped tsc (round_robin (roused h) next run wait)
        (own.run_free, own.turn_in, some_run, vs, ws) in
    record { kept = s.kept; flag = s.flag }
rouse-Stepped tsc (rate_limit h l cs) (own, vs) =
    let s = unblock-Stepped tsc (rate_limit (roused h) l cs) (
      record { free_child = own.child_free; not_asleep = λ e. refl; one_child = own.single },
      vs,
    ) in
    record { kept = s.kept; flag = s.flag }

wake-Sound : (e : ℕ × ℕ) (root : Option Tc) → Sound root → Sound (wake e root)
unfolding wake
wake-Sound e none v = tt
wake-Sound e (some t) v =
    (towards_root-Stepped false e.0 (rouse e.1) (unblock e.1) (unblock-Climbing e.1)
      (rouse-Stepped e.1) t v).kept

wake_loop-Sound :
    (n tsc : ℕ) (q : List (ℕ × ℕ)) (root : Option Tc)
    → Sound root
    → Sound (wake_loop n tsc q root).0
unfolding wake_loop
wake_loop-Sound zero tsc q root v = v
wake_loop-Sound (suc n) tsc [] root v = v
wake_loop-Sound (suc n) tsc (e ∷ q) root v =
    let top = (earliest e q).0 in
    elim (Bool-cases (ltb top.1 tsc)) [
      | inl due ↦
          rw due (wake_loop-Sound n tsc (earliest e q).1 (wake top root) (wake-Sound top root v))
      | inr late ↦ rw late v
    ]

-- If the tree is consistent, it is so after `WakeTCs`, and the wakeup queue then holds exactly the entries
-- that are not due, in their order.
pub wake_tcs_lem :
    (tsc : ℕ) (s : Scheduler)
    → Sound s.root
    → let s' = wake_tcs tsc s in Sound s'.root × (s'.wakeups ≡ not_due tsc s.wakeups)
unfolding wake_tcs
wake_tcs_lem tsc s v = (
  wake_loop-Sound (length s.wakeups) tsc s.wakeups s.root v,
  wake_loop-not_due (length s.wakeups) tsc s.wakeups s.root (omega arith),
)

-- What is picked of a tree: nothing where there is nothing to run, and else the leaf that has its turn.
abbrev pub Chosen : Option Tc → Option ℕ → Type 0
Chosen none chosen = chosen ≡ none
Chosen (some t) chosen =
    ((blocked t ≡ true) × (chosen ≡ none))
    ⊎ ((blocked t ≡ false) × ((x : ℕ) × (chosen ≡ some x) × Turn t x))

pick-Chosen : (root : Option Tc) → Sound root → Chosen root (pick root)
unfolding pick
pick-Chosen none v = refl
pick-Chosen (some t) v = elim (Bool-cases (blocked t)) [
  | inl busy ↦ inl (busy, rw busy refl)
  | inr free ↦ inr (free, rw free (next_leaf_lem t v free))
]

-- The rest of a round, for the tree after `WakeTCs`.
finish-Sound :
    (step : LeafStep) (usage : Usage) (now : ℕ) (root : Option Tc) (x : ℕ)
    → Sound root
    → pick root ≡ some x
    → Sound (finish step usage now root).0
unfolding finish pick
finish-Sound step usage now none x v e = tt
finish-Sound step usage now (some t) x v e = elim (Bool-cases (blocked t)) [
  | inl busy ↦ let no : none ≡ some x = rw busy at e in cc
  | inr free ↦ account-Consistent step usage now t v free
]

pub run_round_lem :
    (step : LeafStep) (usage : Usage) (now : ℕ) (s : Scheduler)
    → Sound s.root
    → let out = run_round step usage now s in
      Chosen (wake_tcs s.checkpoint s).root out.1 × Sound out.0.root
unfolding run_round next
run_round_lem step usage now s v =
    let s1 = wake_tcs s.checkpoint s in
    let v1 = (wake_tcs_lem s.checkpoint s v).0 in
    let chosen = pick-Chosen s1.root v1 in
    elim (Option-cases (pick s1.root)) [
      | inl idle ↦ rw (idle, run_round) (rw idle at chosen, v1)
      | inr (x, e) ↦
          let v' = finish-Sound step usage now s1.root x v1 e in
          rw (e, run_round) (rw e at chosen, v')
    ]
