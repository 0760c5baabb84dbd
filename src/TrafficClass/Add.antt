-- ===== src/TrafficClass/Add.antt =====
-- `AddChild`, and the members of the classes.
use flow_bundler.TrafficClass.Step.{add_priority, add_round_robin, add_rate_limit}
use flow_bundler.Common.{
  ℕ, ◌<◌, ◌≤◌, ◌≡◌, refl, ap, ◌∙◌, sym, subst, length, true, false, inl, inr, arith, Bool-cases,
}
use flow_bundler.TrafficClass.{
  Tc, leaf, priority, round_robin, rate_limit, Children, no_children, child, head_of, blocked,
  flags, is_childless, push_back, insert_sorted, has_at_most, has_priority, first_free,
  no_free_child, unblock,
}
use flow_bundler.TrafficClass.Step.{add_child, attach}
use flow_bundler.TrafficClass.Order.{length-append_le}
use flow_bundler.TrafficClass.Climb.{Stepped, towards_root-Stepped}
use flow_bundler.TrafficClass.Consistent.{
  AllFree, Consistent, ConsistentAll, flags-push_back, ConsistentAll-push_back, All-append,
  first_free-le,
}
use flow_bundler.TrafficClass.Unblock.{unblock-Stepped, unblock-Climbing}

ConsistentAll-insert_sorted :
    (p : ℕ) (c : Tc) (cs : Children)
    → Consistent c
    → ConsistentAll cs
    → ConsistentAll (insert_sorted p c cs)
unfolding insert_sorted Consistent
ConsistentAll-insert_sorted p c no_children v vs = (v, tt)
ConsistentAll-insert_sorted p c (child q d cs) v (u, us) =
    elim (Bool-cases (has_at_most p (child q d cs))) [
      | inl behind ↦
          rw (behind, insert_sorted, Consistent) (u, ConsistentAll-insert_sorted p c cs v us)
      | inr front ↦ rw (front, insert_sorted, Consistent) (v, (u, us))
    ]

-- A free child stays one among more.
free-insert_sorted :
    (p : ℕ) (c : Tc) (cs : Children)
    → first_free (flags cs) < length (flags cs)
    → let bs = flags (insert_sorted p c cs) in first_free bs < length bs
unfolding insert_sorted flags first_free
free-insert_sorted p c no_children h = absurd (omega arith)
free-insert_sorted p c (child q d cs) h = elim (Bool-cases (has_at_most p (child q d cs))) [
  | inl behind ↦ elim (Bool-cases (blocked d)) [
    | inl busy ↦
        rw (behind, insert_sorted, flags, busy, first_free)
          (omega (arith, free-insert_sorted p c cs (omega (arith, rw busy at h))))
    | inr free ↦ rw (behind, insert_sorted, flags, free, first_free) (omega arith)
  ]
  | inr front ↦ elim (Bool-cases (blocked c)) [
    | inl busy ↦ rw (front, insert_sorted, flags, busy, first_free) (omega (arith, h))
    | inr free ↦ rw (front, insert_sorted, flags, free, first_free) (omega arith)
  ]
]

pub add_child-Stepped :
    (tsc p : ℕ) (c t : Tc) → Consistent c → Consistent t → Stepped false t (add_child tsc p c t)
unfolding add_child add_priority add_round_robin add_rate_limit Consistent head_of is_childless
    flags no_free_child
add_child-Stepped tsc p c (leaf h w) u v = record { kept = v; flag = inr (refl, refl) }
add_child-Stepped tsc p c (priority h first cs) u (own, vs) =
    elim (Bool-cases (has_priority p cs)) [
      | inl there ↦ rw there (record { kept = (own, vs); flag = inr (refl, refl) })
      | inr fresh ↦
          let some_free : h.blocked ≡ false → first_free (flags cs) < length (flags cs) =
            λ e. ground (arith, own.first_is, own.priority_flag, first_free-le (flags cs), e) in
          let out = unblock-Stepped tsc (priority h first (insert_sorted p c cs)) (
            (λ e. free-insert_sorted p c cs (some_free e)),
            ConsistentAll-insert_sorted p c cs u vs,
          ) in
          rw fresh (record { kept = out.kept; flag = out.flag })
    ]
add_child-Stepped tsc p c (round_robin h next run wait) u (own, vs, ws) =
    let one = child 0 c no_children in
    let some_run : h.blocked ≡ false → 0 < length (flags run) =
      λ e. ground (arith, own.robin_flag, e) in
    elim (Bool-cases (blocked c)) [
      | inl busy ↦
          let out = unblock-Stepped tsc (round_robin h next run (push_back wait one)) (
            own.run_free,
            own.turn_in,
            some_run,
            vs,
            ConsistentAll-push_back wait one ws (u, tt),
          ) in
          rw busy (record { kept = out.kept; flag = out.flag })
      | inr free ↦
          let e = flags-push_back run one in
          let longer : length (flags run) ≤ length (flags (push_back run one)) =
            omega (arith, ap length e, length-append_le (flags run) (flags one)) in
          let out = unblock-Stepped tsc (round_robin h next (push_back run one) wait) (
            subst AllFree (sym e)
                (All-append (λ b. b ≡ false) (flags run) (flags one) own.run_free (free, tt)),
            ground (arith, longer, own.turn_in),
            (λ was. omega (arith, longer, some_run was)),
            ConsistentAll-push_back run one vs (u, tt),
            ws,
          ) in
          rw free (record { kept = out.kept; flag = out.flag })
    ]
add_child-Stepped tsc p c (rate_limit h l no_children) u (own, vs) =
    let out = unblock-Stepped tsc (rate_limit h l (child 0 c no_children)) (
      record {
        free_child = λ e. let no : true ≡ false = own.child_free e in cc;
        not_asleep = own.awake;
        one_child = omega arith;
      },
      (u, tt),
    ) in
    record { kept = out.kept; flag = out.flag }
add_child-Stepped tsc p c (rate_limit h l (child q d cs)) u (own, vs) = record {
  kept = (own, vs);
  flag = inr (refl, refl);
}

-- If a consistent tree is given a consistent child, which goes to the class with the number `id`, it is
-- consistent after it, and if its root was not blocked, it is not blocked after it.
pub attach_lem :
    (tsc id p : ℕ) (c t : Tc)
    → Consistent c
    → Consistent t
    → Consistent (attach tsc id p c t) × (blocked t ≡ false → blocked (attach tsc id p c t) ≡ false)
unfolding attach
attach_lem tsc id p c t u v =
    let s =
      towards_root-Stepped false id (add_child tsc p c) (unblock tsc) (unblock-Climbing tsc)
        (λ d w. add_child-Stepped tsc p c d u w) t v in
    (s.kept, λ free. elim (s.flag) [ inl (told, was, now) ↦ now | inr (still, now) ↦ now ∙ free ])
