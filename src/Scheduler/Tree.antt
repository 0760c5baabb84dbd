-- ===== src/Scheduler/Tree.antt =====
-- `AttachOrphan` and `AdjustDefault`, and the classes of the tree.
use flow_bundler.Common.{
  ℕ, ◌+◌, ◌≤◌, ◌≡◌, ◌⊎◌, refl, ap, ◌∙◌, sym, true, false, inl, inr, Option, none, some, arith,
  Bool-cases, Option-cases,
}
use flow_bundler.TrafficClass.{
  Tc, leaf, priority, round_robin, rate_limit, Children, no_children, child, flags, class_size,
  children_size,
}
use flow_bundler.TrafficClass.Step.{add_child}
use flow_bundler.TrafficClass.Consistent.{Consistent, ConsistentAll, ConsistentAll-push_back}
use flow_bundler.TrafficClass.Add.{add_child-Stepped}
use flow_bundler.Scheduler.{
  Scheduler, next, new_round_robin, attach_orphan, children_of, simplified, adjust_default, num_tcs,
}
use flow_bundler.Scheduler.Wake.{Sound}
use flow_bundler.Scheduler.Size.{
  is_robin, children_size-push_back, class_size-add_child, is_robin-add_child, is_robin-new,
  class_size-new, class_size-positive,
}

abbrev pub HasRobin : Option Tc → Type 0
HasRobin none = ⊥
HasRobin (some t) = is_robin t ≡ true

-- What holds of a scheduler between its operations.
pub record Ready (s : Scheduler) : Type 0 where
  pub sound : Sound s.root
  pub default_is : s.has_default ≡ true → HasRobin s.root

new_round_robin-Consistent : (id : ℕ) → Consistent (new_round_robin id)
unfolding new_round_robin Consistent flags
new_round_robin-Consistent id =
    (record { run_free = tt; wait_busy = tt; turn_in = inl refl; robin_flag = refl }, tt, tt)

-- The two children of a new default class.
new_default-Consistent :
    (tsc fresh : ℕ) (c t : Tc)
    → Consistent c
    → Consistent t
    → let one = (add_child tsc 0 t (new_round_robin fresh)).0 in
      Consistent (add_child tsc 0 c one).0
new_default-Consistent tsc fresh c t u v =
    let one = add_child tsc 0 t (new_round_robin fresh) in
    let w =
      add_child-Stepped tsc 0 t (new_round_robin fresh) v (new_round_robin-Consistent fresh) in
    (add_child-Stepped tsc 0 c one.0 u w.kept).kept

class_size-new_default :
    (tsc fresh : ℕ) (c t : Tc)
    → let both = (add_child tsc 0 c (add_child tsc 0 t (new_round_robin fresh)).0).0 in
      (is_robin both ≡ true) × (class_size both ≡ 1 + class_size t + class_size c)
class_size-new_default tsc fresh c t =
    let new = new_round_robin fresh in
    let one = (add_child tsc 0 t new).0 in
    let robin : is_robin new ≡ true = is_robin-new fresh in
    let robin1 = is_robin-add_child tsc 0 t new robin in
    (
      is_robin-add_child tsc 0 c one robin1,
      class_size-add_child tsc 0 c one robin1
          ∙ ap (λ n. n + class_size c)
              (class_size-add_child tsc 0 t new robin
                ∙ ap (λ n. n + class_size t) (class_size-new fresh)),
    )

-- If the scheduler is ready and the class that `AttachOrphan` gets is consistent, the scheduler is ready
-- after it, and has as many classes as before with those of the new one, and one more, the default class, if
-- there was none before and there is one now.
pub attach_orphan_lem :
    (tsc fresh : ℕ) (c : Tc) (s : Scheduler)
    → Consistent c
    → Ready s
    → let s' = attach_orphan tsc fresh c s in
      Ready s'
      × ((num_tcs s' ≡ num_tcs s + class_size c)
          ⊎ ((s.has_default ≡ false)
              × (s'.has_default ≡ true)
              × (num_tcs s' ≡ 1 + num_tcs s + class_size c)))
unfolding attach_orphan num_tcs
attach_orphan_lem tsc fresh c s u ready = elim (Option-cases s.root) [
  | inl empty ↦ elim (Bool-cases s.has_default) [
    | inl has ↦ let no : HasRobin none = rw empty at (ready.default_is has) in absurd no
    | inr without ↦
        rw (empty, attach_orphan)
          (
            record { sound = u; default_is = λ e. let no : true ≡ false = sym e ∙ without in cc },
            inl (omega arith),
          )
  ]
  | inr (t, is) ↦
      let v : Consistent t = rw is at ready.sound in
      elim (Bool-cases s.has_default) [
        | inl has ↦
            let robin : is_robin t ≡ true = rw is at (ready.default_is has) in
            rw (is, has, attach_orphan, num_tcs)
              (
                record {
                  sound = (add_child-Stepped tsc 0 c t u v).kept;
                  default_is = λ e. is_robin-add_child tsc 0 c t robin;
                },
                inl (class_size-add_child tsc 0 c t robin),
              )
        | inr without ↦
            let (robin, size) = class_size-new_default tsc fresh c t in
            rw (is, without, attach_orphan, num_tcs)
              (
                record {
                  sound = new_default-Consistent tsc fresh c t u v;
                  default_is = λ e. robin;
                },
                inr (refl, refl, size),
              )
      ]
]

children_of-robin :
    (t : Tc)
    → is_robin t ≡ true
    → Consistent t
    → (class_size t ≡ 1 + children_size (children_of t)) × ConsistentAll (children_of t)
unfolding children_of class_size Consistent
children_of-robin (leaf h w) e v = let no : false ≡ true = e in cc
children_of-robin (priority h first cs) e v = let no : false ≡ true = e in cc
children_of-robin (rate_limit h l cs) e v = let no : false ≡ true = e in cc
children_of-robin (round_robin h next run wait) e (own, vs, ws) =
    (omega (arith, children_size-push_back run wait), ConsistentAll-push_back run wait vs ws)

-- What is left of a default class: its child if it is the only one.
simplified-cases :
    (cs : Children)
    → ConsistentAll cs
    → ((simplified cs ≡ some none) × (children_size cs ≡ 0))
      ⊎ ((c : Tc) × (simplified cs ≡ some (some c))
          × (children_size cs ≡ class_size c)
          × Consistent c)
      ⊎ ((simplified cs ≡ none) × (2 ≤ children_size cs))
unfolding simplified class_size Consistent
simplified-cases no_children vs = inl (refl, refl)
simplified-cases (child p c no_children) (v, vs) = inr (inl (c, refl, omega arith, v))
simplified-cases (child p c (child q d cs)) vs =
    inr (inr (refl, omega (arith, class_size-positive c, class_size-positive d)))

-- If the scheduler is ready, `AdjustDefault` leaves it ready, and either changes nothing, or there was a
-- default class, there is none after it, and the tree has one class less; if there is a default class after
-- it, there are three classes at least.
pub adjust_default_lem :
    (s : Scheduler)
    → Ready s
    → let s' = adjust_default s in
      Ready s'
      × (s'.has_default ≡ true → 3 ≤ num_tcs s')
      × ((s' ≡ s)
          ⊎ ((s.has_default ≡ true) × (s'.has_default ≡ false) × (num_tcs s ≡ 1 + num_tcs s')))
unfolding adjust_default num_tcs
adjust_default_lem s ready = elim (Option-cases s.root) [
  | inl empty ↦
      simp (empty, adjust_default, num_tcs)
        (
          ready,
          (λ has. let no : HasRobin none = rw empty at (ready.default_is has) in absurd no),
          inl refl,
        )
  | inr (t, is) ↦ elim (Bool-cases s.has_default) [
    | inr without ↦
        simp (is, without, adjust_default, num_tcs)
          (ready, (λ has. let no : false ≡ true = has in cc), inl refl)
    | inl has ↦
        let robin : is_robin t ≡ true = rw is at (ready.default_is has) in
        let v : Consistent t = rw is at ready.sound in
        let (size, vs) = children_of-robin t robin v in
        elim (simplified-cases (children_of t) vs) [
          | inl (gone, none_left) ↦
              rw (is, has, adjust_default, num_tcs, gone)
                (
                  record { sound = tt; default_is = λ e. let no : false ≡ true = e in cc },
                  (λ e. let no : false ≡ true = e in cc),
                  inr (refl, refl, omega (arith, size, none_left)),
                )
          | inr (inl (c, gone, one_left, u)) ↦
              rw (is, has, adjust_default, num_tcs, gone)
                (
                  record { sound = u; default_is = λ e. let no : false ≡ true = e in cc },
                  (λ e. let no : false ≡ true = e in cc),
                  inr (refl, refl, omega (arith, size, one_left)),
                )
          | inr (inr (stays, more)) ↦
              simp (is, has, adjust_default, num_tcs, stays)
                (ready, (λ e. omega (arith, size, more)), inl refl)
        ]
  ]
]
