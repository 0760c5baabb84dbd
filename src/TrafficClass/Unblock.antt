-- ===== src/TrafficClass/Unblock.antt =====
-- `UnblockTowardsRoot`, and the members of the classes.
use flow_bundler.TrafficClass.{
  unblock_leaf, unblock_priority, unblock_round_robin, unblock_rate_limit,
}
use flow_bundler.Common.{
  ℕ, ◌<◌, ◌≤◌, ◌≡◌, ◌⊎◌, refl, ap, ◌∙◌, sym, subst, length, ◌==◌, leb, ◌||◌, not, Bool, true, false,
  inl, inr, arith, Bool-cases,
}
use flow_bundler.TrafficClass.{
  Head, Tc, leaf, priority, round_robin, rate_limit, Children, no_children, child, head_of, blocked,
  flags, is_childless, push_back, free_part, blocked_part, first_free, no_free_child, unblock_set,
  unblock,
}
use flow_bundler.TrafficClass.Order.{
  length-append_le, first_free-freed, All-Moved, length-Moved, no_free-freed, no_free-flags,
}
use flow_bundler.TrafficClass.Climb.{Stepped, Climbing}
use flow_bundler.TrafficClass.Consistent.{
  AllFree, AllBusy, Consistent, ConsistentAll, length-is_childless, flags-push_back,
  ConsistentAll-push_back, All-append, first_free-le,
}

-- A class whose children may have become free: if it is not blocked, it has a child to run.
pub record FreedLimit (h : Head) (cs : Children) : Type 0 where
  pub free_child : h.blocked ≡ false → no_free_child cs ≡ false
  pub not_asleep : h.blocked ≡ false → h.wakeup_time ≡ 0
  pub one_child : length (flags cs) ≤ 1

abbrev pub Freed : Tc → Type 0
Freed (leaf h w) = Unit
Freed (priority h first cs) =
    (h.blocked ≡ false → first_free (flags cs) < length (flags cs)) × ConsistentAll cs
Freed (round_robin h next run wait) =
    AllFree (flags run)
    × ((next ≡ 0) ⊎ (next < length (flags run)))
    × (h.blocked ≡ false → 0 < length (flags run))
    × ConsistentAll run
    × ConsistentAll wait
Freed (rate_limit h l cs) = FreedLimit h cs × ConsistentAll cs

AllFree-free_part : (cs : Children) → AllFree (flags (free_part cs))
unfolding free_part flags
AllFree-free_part no_children = tt
AllFree-free_part (child p c cs) = elim (Bool-cases (blocked c)) [
  | inl busy ↦ rw busy (AllFree-free_part cs)
  | inr free ↦ rw (free, free_part, flags) (free, AllFree-free_part cs)
]

AllBusy-blocked_part : (cs : Children) → AllBusy (flags (blocked_part cs))
unfolding blocked_part flags
AllBusy-blocked_part no_children = tt
AllBusy-blocked_part (child p c cs) = elim (Bool-cases (blocked c)) [
  | inl busy ↦ rw (busy, blocked_part, flags) (busy, AllBusy-blocked_part cs)
  | inr free ↦ rw free (AllBusy-blocked_part cs)
]

ConsistentAll-parts :
    (cs : Children)
    → ConsistentAll cs
    → ConsistentAll (free_part cs) × ConsistentAll (blocked_part cs)
unfolding free_part blocked_part Consistent
ConsistentAll-parts no_children vs = (tt, tt)
ConsistentAll-parts (child p c cs) (v, vs) =
    let (us, ws) = ConsistentAll-parts cs vs in
    elim (Bool-cases (blocked c)) [
      | inl busy ↦ (rw busy us, rw (busy, blocked_part, Consistent) (v, ws))
      | inr free ↦ (rw (free, free_part, Consistent) (v, us), rw free ws)
    ]

flag_of :
    (h : Head) (b : Bool)
    → (h.blocked ≡ false → b ≡ false)
    → let out = unblock_set h b in
      ((out.1 ≡ true) × (h.blocked ≡ true) × (out.0.blocked ≡ false))
      ⊎ ((out.1 ≡ false) × (out.0.blocked ≡ h.blocked))
unfolding unblock_set
flag_of h b still = elim (Bool-cases h.blocked) [
  | inl was ↦ elim (Bool-cases b) [
    | inl now ↦ inr (rw now refl, now ∙ sym was)
    | inr gone ↦ inl (rw (gone, was) refl, was, gone)
  ]
  | inr was ↦ inr (rw (still was) was, still was ∙ sym was)
]

pub unblock-Stepped : (tsc : ℕ) (t : Tc) → Freed t → Stepped false t (unblock tsc t)
unfolding unblock unblock_leaf unblock_priority unblock_round_robin unblock_rate_limit unblock_set
    Consistent head_of
unblock-Stepped tsc (leaf h w) v = record { kept = tt; flag = flag_of h false (λ e. refl) }
unblock-Stepped tsc (priority h first cs) (some_free, vs) =
    let le = first_free-le (flags cs) in
    record {
      kept = (record { first_is = refl; priority_flag = ground (arith, le) }, vs);
      flag =
          flag_of h (leb (length (flags cs)) (first_free (flags cs)))
            (λ e. ground (arith, some_free e));
    }
unblock-Stepped tsc (round_robin h next run wait) (free, turn, some_run, vs, ws) =
    let (us, bs) = ConsistentAll-parts wait ws in
    let run' = push_back run (free_part wait) in
    let e = flags-push_back run (free_part wait) in
    let longer : length (flags run) ≤ length (flags run') =
      omega (arith, ap length e, length-append_le (flags run) (flags (free_part wait))) in
    record {
      kept = (
        record {
          run_free = subst AllFree (sym e) (
              All-append (λ b. b ≡ false) (flags run) (flags (free_part wait)) free
                (AllFree-free_part wait));
          wait_busy = AllBusy-blocked_part wait;
          turn_in = ground (arith, longer, turn);
          robin_flag = length-is_childless run';
        },
        ConsistentAll-push_back run (free_part wait) vs us,
        bs,
      );
      flag =
          flag_of h (is_childless run')
            (λ was. length-is_childless run' ∙ ground (arith, longer, some_run was));
    }
unblock-Stepped tsc (rate_limit h l cs) (own, vs) = record {
  kept = (
    record { child_free = λ e. ground arith; awake = λ e. ground arith; single = own.one_child },
    vs,
  );
  flag =
      flag_of h (not (h.wakeup_time == 0) || no_free_child cs)
        (λ was. rw (own.not_asleep was, own.free_child was) refl);
}

-- On the way towards the root.
pub unblock-Climbing : (tsc : ℕ) → Climbing false (unblock tsc)
unfolding head_of
unblock-Climbing tsc = record {
  at_priority = λ h first cs out own w.
      let some_free : h.blocked ≡ false → first_free (flags out.0) < length (flags out.0) = λ e.
        ground (
          arith,
          own.first_is,
          own.priority_flag,
          first_free-le (flags cs),
          e,
          first_free-freed (flags out.0) (flags cs) w.moved,
          length-Moved false (flags out.0) (flags cs) w.moved,
        ) in
      let s = unblock-Stepped tsc (priority h first out.0) (some_free, w.all) in
      record { kept = s.kept; flag = s.flag };
  at_robin = λ h next run wait r q own wr wq.
      let same = length-Moved false (flags r.0) (flags run) wr.moved in
      let free = All-Moved false (flags r.0) (flags run) wr.moved own.run_free in
      let turn : (next ≡ 0) ⊎ (next < length (flags r.0)) = ground (arith, same, own.turn_in) in
      let some_run : h.blocked ≡ false → 0 < length (flags r.0) =
        λ e. ground (arith, same, own.robin_flag, e) in
      let s =
        unblock-Stepped tsc (round_robin h next r.0 q.0) (free, turn, some_run, wr.all, wq.all) in
      record { kept = s.kept; flag = s.flag };
  at_limit = λ h l cs out own w told.
      let less = length-Moved false (flags out.0) (flags cs) w.moved in
      let s = unblock-Stepped tsc (rate_limit h l out.0) (
        record {
          free_child = λ e.
              no_free-flags out.0
              ∙ no_free-freed (flags out.0) (flags cs) w.moved
                  (sym (no_free-flags cs) ∙ own.child_free e);
          not_asleep = own.awake;
          one_child = omega (arith, less, own.single);
        },
        w.all,
      ) in
      record { kept = s.kept; flag = s.flag };
}
