-- ===== src/Scheduler/Size.antt =====
-- How many classes a tree has, and whether its root is a round robin class.
use flow_bundler.TrafficClass.{
  unblock_leaf, unblock_priority, unblock_round_robin, unblock_rate_limit,
}
use flow_bundler.TrafficClass.Step.{add_priority, add_round_robin, add_rate_limit}
use flow_bundler.Common.{ℕ, ◌+◌, ◌≤◌, ◌≡◌, refl, Bool, true, false, inl, inr, arith, Bool-cases}
use flow_bundler.TrafficClass.{
  Head, Tc, leaf, priority, round_robin, rate_limit, Children, no_children, child, blocked,
  push_back, free_part, blocked_part, class_size, children_size, unblock,
}
use flow_bundler.TrafficClass.Step.{add_child}
use flow_bundler.Scheduler.{next, new_round_robin}

abbrev pub is_robin : Tc → Bool
is_robin (leaf h w) = false
is_robin (priority h first cs) = false
is_robin (round_robin h next run wait) = true
is_robin (rate_limit h l cs) = false

pub children_size-push_back :
    (xs ys : Children) → children_size (push_back xs ys) ≡ children_size xs + children_size ys
unfolding class_size push_back
children_size-push_back no_children ys = omega arith
children_size-push_back (child p c cs) ys = omega (arith, children_size-push_back cs ys)

children_size-parts :
    (cs : Children)
    → children_size (free_part cs) + children_size (blocked_part cs) ≡ children_size cs
unfolding class_size free_part blocked_part
children_size-parts no_children = refl
children_size-parts (child p c cs) = elim (Bool-cases (blocked c)) [
  | inl busy ↦ rw busy (omega (arith, children_size-parts cs))
  | inr free ↦ rw free (omega (arith, children_size-parts cs))
]

class_size-unblock :
    (tsc : ℕ) (h : Head) (next : ℕ) (run wait : Children)
    → class_size (unblock tsc (round_robin h next run wait)).0
      ≡ class_size (round_robin h next run wait)
unfolding class_size unblock unblock_leaf unblock_priority unblock_round_robin unblock_rate_limit
class_size-unblock tsc h next run wait =
    omega (arith, children_size-push_back run (free_part wait), children_size-parts wait)

pub class_size-add_child :
    (tsc p : ℕ) (c t : Tc)
    → is_robin t ≡ true
    → class_size (add_child tsc p c t).0 ≡ class_size t + class_size c
unfolding add_child add_priority add_round_robin add_rate_limit class_size
class_size-add_child tsc p c (leaf h w) e = let no : false ≡ true = e in cc
class_size-add_child tsc p c (priority h first cs) e = let no : false ≡ true = e in cc
class_size-add_child tsc p c (rate_limit h l cs) e = let no : false ≡ true = e in cc
class_size-add_child tsc p c (round_robin h next run wait) e =
    let one = child 0 c no_children in
    elim (Bool-cases (blocked c)) [
      | inl busy ↦
          rw (busy, add_child)
            (omega (
              arith,
              class_size-unblock tsc h next run (push_back wait one),
              children_size-push_back wait one,
            ))
      | inr free ↦
          rw (free, add_child)
            (omega (
              arith,
              class_size-unblock tsc h next (push_back run one) wait,
              children_size-push_back run one,
            ))
    ]

pub is_robin-unblock : (tsc : ℕ) (t : Tc) → is_robin (unblock tsc t).0 ≡ is_robin t
unfolding unblock unblock_leaf unblock_priority unblock_round_robin unblock_rate_limit
is_robin-unblock tsc (leaf h w) = refl
is_robin-unblock tsc (priority h first cs) = refl
is_robin-unblock tsc (round_robin h next run wait) = refl
is_robin-unblock tsc (rate_limit h l cs) = refl

pub is_robin-add_child :
    (tsc p : ℕ) (c t : Tc) → is_robin t ≡ true → is_robin (add_child tsc p c t).0 ≡ true
unfolding add_child add_priority add_round_robin add_rate_limit
is_robin-add_child tsc p c (leaf h w) e = e
is_robin-add_child tsc p c (priority h first cs) e = let no : false ≡ true = e in cc
is_robin-add_child tsc p c (rate_limit h l cs) e = let no : false ≡ true = e in cc
is_robin-add_child tsc p c (round_robin h next run wait) e =
    let one = child 0 c no_children in
    elim (Bool-cases (blocked c)) [
      | inl busy ↦ rw busy (is_robin-unblock tsc (round_robin h next run (push_back wait one)))
      | inr free ↦ rw free (is_robin-unblock tsc (round_robin h next (push_back run one) wait))
    ]

pub is_robin-new : (fresh : ℕ) → is_robin (new_round_robin fresh) ≡ true
unfolding new_round_robin
is_robin-new fresh = refl

pub class_size-new : (fresh : ℕ) → class_size (new_round_robin fresh) ≡ 1
unfolding new_round_robin class_size
class_size-new fresh = refl

pub class_size-positive : (t : Tc) → 1 ≤ class_size t
unfolding class_size
class_size-positive (leaf h w) = omega arith
class_size-positive (priority h first cs) = omega arith
class_size-positive (round_robin h next run wait) = omega arith
class_size-positive (rate_limit h l cs) = omega arith
