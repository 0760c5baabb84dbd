-- ===== src/TrafficClass/Account.antt =====
-- The accounting for a leaf that has run, and the members of the classes above it.
use flow_bundler.Common.{
  ℕ, zero, suc, ◌<◌, ◌≤◌, ◌≡◌, ◌⊎◌, refl, ap, ◌∙◌, sym, subst, ◌∷◌, length, length-set, set, ◌==◌,
  ltb, ◌||◌, Bool, true, false, inl, inr, arith, Bool-cases,
}
use flow_bundler.TrafficClass.{
  Usage, Head, Limiter, Tc, leaf, priority, round_robin, rate_limit, Children, no_children, child,
  head_of, blocked, flags, first_free, no_free_child,
}
use flow_bundler.TrafficClass.Step.{
  new_tokens, work, next_leaf, blocked_at, erase, only, charge, account_priority, wrapped,
  account_round_robin, account_limit, account, account_of, LeafStep,
}
use flow_bundler.TrafficClass.Order.{or_false}
use flow_bundler.TrafficClass.Erase.{All-erase, ConsistentAll-erase}
use flow_bundler.TrafficClass.Consistent.{
  AllFree, AllBusy, OwnPriority, OwnRoundRobin, Consistent, ConsistentAll, length-is_childless,
  flags-push_back, ConsistentAll-push_back, All-append, scan_from_lem, first_free-le,
}
use flow_bundler.TrafficClass.Position.{
  blocked_at-set, set-first_free, first_free-set-le, set-AllFree, ConsistentAll-only, AllBusy-only,
  none_blocked, first_is_free, head_is_free,
}

module _ (step : LeafStep) (usage : Usage) (tsc : ℕ) where
  -- The child that ran is the only one that changes.
  flags-account_of :
      (cs : Children) (n : ℕ)
      → let cs' = (account_of step usage tsc n cs).0 in
        flags cs' ≡ set (flags cs) n (blocked_at n (flags cs'))
  unfolding flags account blocked_at
  flags-account_of no_children n = refl
  flags-account_of (child p c cs) zero = refl
  flags-account_of (child p c cs) (suc n) = ap (λ bs. blocked c ∷ bs) (flags-account_of cs n)

  one_child :
      (cs : Children)
      → length (flags cs) ≤ 1
      → length (flags (account_of step usage tsc 0 cs).0) ≤ 1
  one_child cs h =
      let cs' = (account_of step usage tsc 0 cs).0 in
      omega (
        arith,
        ap length (flags-account_of cs 0),
        length-set (flags cs) 0 (blocked_at 0 (flags cs')),
        h,
      )

  erase-account_of :
      (cs : Children) (n : ℕ) → erase n (account_of step usage tsc n cs).0 ≡ erase n cs
  unfolding erase account
  erase-account_of no_children n = refl
  erase-account_of (child p c cs) zero = refl
  erase-account_of (child p c cs) (suc n) = ap (child p c) (erase-account_of cs n)

  -- Each policy, for children of which one may have become blocked.
  priority-Consistent :
      (h : Head) (first : ℕ) (cs cs' : Children) (b : Bool)
      → OwnPriority h first (flags cs)
      → h.blocked ≡ false
      → flags cs' ≡ set (flags cs) first b
      → ConsistentAll cs'
      → Consistent (account_priority h first cs' usage)
  unfolding account_priority charge Consistent
  priority-Consistent h first cs cs' false own free e vs =
      let inside : first < length (flags cs) =
        ground (arith, own.first_is, own.priority_flag, first_free-le (flags cs), free) in
      let same : flags cs' ≡ flags cs =
        e
        ∙ ap (λ n. set (flags cs) n false) own.first_is
        ∙ set-first_free (flags cs) (omega (arith, own.first_is)) in
      let at : blocked_at first (flags cs') ≡ false =
        ap (blocked_at first) e ∙ blocked_at-set (flags cs) first false inside in
      rw (at, account_priority)
        (
          record {
            first_is = own.first_is ∙ ap first_free (sym same);
            priority_flag = own.priority_flag ∙ ap (λ bs. first == length bs) (sym same);
          },
          vs,
        )
  priority-Consistent h first cs cs' true own free e vs =
      let inside : first < length (flags cs) =
        ground (arith, own.first_is, own.priority_flag, first_free-le (flags cs), free) in
      let at : blocked_at first (flags cs') ≡ true =
        ap (blocked_at first) e ∙ blocked_at-set (flags cs) first true inside in
      let further : first ≤ first_free (flags cs') = omega (
        arith,
        ap first_free (e ∙ ap (λ n. set (flags cs) n true) own.first_is),
        first_free-set-le (flags cs) true,
        own.first_is,
      ) in
      rw (at, account_priority)
        (record { first_is = scan_from_lem first (flags cs') further; priority_flag = refl }, vs)

  robin-Consistent :
      (h : Head) (next : ℕ) (run run' wait : Children) (b : Bool)
      → OwnRoundRobin h next (flags run) (flags wait)
      → h.blocked ≡ false
      → flags run' ≡ set (flags run) next b
      → erase next run' ≡ erase next run
      → ConsistentAll run'
      → ConsistentAll wait
      → Consistent (account_round_robin h next run' wait usage)
  unfolding account_round_robin charge Consistent wrapped
  robin-Consistent h next run run' wait false own free e rest vs ws =
      let inside : next < length (flags run) = ground (arith, own.turn_in, own.robin_flag, free) in
      let same : flags run' ≡ flags run = e ∙ set-AllFree (flags run) next own.run_free in
      let at : blocked_at next (flags run') ≡ false =
        ap (blocked_at next) e ∙ blocked_at-set (flags run) next false inside in
      rw (at, account_round_robin)
        (
          record {
            run_free = subst AllFree (sym same) own.run_free;
            wait_busy = own.wait_busy;
            turn_in = ground arith;
            robin_flag = own.robin_flag ∙ ap (λ bs. length bs == 0) (sym same);
          },
          vs,
          ws,
        )
  robin-Consistent h next run run' wait true own free e rest vs ws =
      let inside : next < length (flags run) = ground (arith, own.turn_in, own.robin_flag, free) in
      let at : blocked_at next (flags run') ≡ true =
        ap (blocked_at next) e ∙ blocked_at-set (flags run) next true inside in
      let gone = only next run' in
      rw (at, account_round_robin)
        (
          record {
            run_free =
                subst (λ cs. AllFree (flags cs)) (sym rest)
                  (All-erase (λ b. b ≡ false) run next own.run_free);
            wait_busy = subst AllBusy (sym (flags-push_back wait gone)) (
                All-append (λ b. b ≡ true) (flags wait) (flags gone) own.wait_busy
                  (AllBusy-only run' next at));
            turn_in = ground arith;
            robin_flag = length-is_childless (erase next run');
          },
          ConsistentAll-erase run' next vs,
          ConsistentAll-push_back wait gone ws (ConsistentAll-only run' next vs),
        )

  account_limit-cases :
      (h : Head) (l : Limiter)
      → let h' = (account_limit h l usage tsc).0 in
        (h'.blocked ≡ true) ⊎ (h'.wakeup_time ≡ h.wakeup_time)
  unfolding account_limit charge
  account_limit-cases h l = elim (Bool-cases (ltb (new_tokens l tsc) (work l usage))) [
    | inr enough ↦ inr (rw enough refl)
    | inl over ↦ elim (Bool-cases (l.limit == 0)) [
      | inl never ↦ inl (rw (over, never, account_limit) refl)
      | inr later ↦ inl (rw (over, later, account_limit) refl)
    ]
  ]

  limit-Consistent :
      (h : Head) (l : Limiter) (cs : Children)
      → h.wakeup_time ≡ 0
      → length (flags cs) ≤ 1
      → ConsistentAll cs
      → let out = account_limit h l usage tsc in
        Consistent
          (rate_limit (record (out.0) { blocked = out.0.blocked || no_free_child cs }) out.1 cs)
  unfolding account_limit charge Consistent
  limit-Consistent h l cs awake one vs =
      let known = account_limit-cases h l in
      let h' = (account_limit h l usage tsc).0 in
      (
        record {
          child_free = λ run. (or_false h'.blocked (no_free_child cs) run).1;
          awake = λ run. elim known [
            | inl busy ↦ let quiet = (or_false h'.blocked (no_free_child cs) run).0 in cc
            | inr same ↦ same ∙ awake
          ];
          single = one;
        },
        vs,
      )

  -- If the tree is consistent and its root is not blocked, it is consistent after the accounting, too.
  mutual
    unfolding account Consistent flags blocked_at next_leaf head_of

    pub account-Consistent :
        (t : Tc) → Consistent t → blocked t ≡ false → Consistent (account step usage tsc t).0
    account-Consistent (leaf h w) v free = tt
    account-Consistent (priority h first cs) (own, vs) free =
        priority-Consistent h first cs (account_of step usage tsc first cs).0
          (blocked_at first (flags (account_of step usage tsc first cs).0)) own free
          (flags-account_of cs first)
          (account_of-Consistent cs first vs (first_is_free h first (flags cs) own free))
    account-Consistent (round_robin h next run wait) (own, vs, ws) free =
        robin-Consistent h next run (account_of step usage tsc next run).0 wait
          (blocked_at next (flags (account_of step usage tsc next run).0)) own free
          (flags-account_of run next) (erase-account_of run next)
          (account_of-Consistent run next vs (none_blocked (flags run) next own.run_free)) ws
    account-Consistent (rate_limit h l cs) (own, vs) free =
        limit-Consistent h l (account_of step usage tsc 0 cs).0 (own.awake free)
          (one_child cs own.single)
          (account_of-Consistent cs 0 vs (head_is_free cs (own.child_free free)))

    account_of-Consistent :
        (cs : Children) (n : ℕ)
        → ConsistentAll cs
        → blocked_at n (flags cs) ≡ false
        → ConsistentAll (account_of step usage tsc n cs).0
    account_of-Consistent no_children n vs free = tt
    account_of-Consistent (child p c cs) zero (v, vs) free = (account-Consistent c v free, vs)
    account_of-Consistent (child p c cs) (suc n) (v, vs) free =
        (v, account_of-Consistent cs n vs free)
