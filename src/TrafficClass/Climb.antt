-- ===== src/TrafficClass/Climb.antt =====
-- A walk towards the root, in both directions: what it leaves of each class and of its children.
use flow_bundler.Common.{
  ℕ, ◌≤◌, ◌≡◌, ◌⊎◌, refl, ap, ◌∙◌, sym, subst, List, ◌∷◌, length, ◌==◌, ◌||◌, not, Bool, true,
  false, inl, inr, Bool-cases,
}
use flow_bundler.TrafficClass.{
  Head, Limiter, Tc, leaf, priority, round_robin, rate_limit, Children, no_children, child, head_of,
  blocked, flags,
}
use flow_bundler.TrafficClass.Step.{climb, towards_root, children_towards_root}
use flow_bundler.TrafficClass.Consistent.{
  OwnPriority, OwnRoundRobin, OwnLimit, Consistent, ConsistentAll,
}
use flow_bundler.TrafficClass.Order.{Moved, AnyIs, or_false, no_free, no_free-flags}

-- What a step leaves of a class: it is consistent, and the parent is told exactly if `blocked_` has changed,
-- to the value `to`.
pub record Stepped (to : Bool) (t : Tc) (out : Tc × Bool) : Type 0 where
  pub kept : Consistent out.0
  pub flag :
      ((out.1 ≡ true) × (blocked t ≡ not to) × (blocked out.0 ≡ to))
      ⊎ ((out.1 ≡ false) × (blocked out.0 ≡ blocked t))

-- What the walk leaves of the children of a class.
pub record Walked (to : Bool) (cs : Children) (out : Children × Bool) : Type 0 where
  pub all : ConsistentAll out.0
  pub moved : Moved to (flags out.0) (flags cs)
  pub quiet : out.1 ≡ false → flags out.0 ≡ flags cs
  pub news : out.1 ≡ true → AnyIs to (flags out.0)

-- The step further on, for a class of which a child has told that it changed.
pub record Climbing (to : Bool) (further : Tc → Tc × Bool) : Type 0 where
  pub at_priority :
      (h : Head) (first : ℕ) (cs : Children) (out : Children × Bool)
      → OwnPriority h first (flags cs)
      → Walked to cs out
      → Stepped to (priority h first cs) (further (priority h first out.0))
  pub at_robin :
      (h : Head) (next : ℕ) (run wait : Children) (r q : Children × Bool)
      → OwnRoundRobin h next (flags run) (flags wait)
      → Walked to run r
      → Walked to wait q
      → Stepped to (round_robin h next run wait) (further (round_robin h next r.0 q.0))
  pub at_limit :
      (h : Head) (l : Limiter) (cs : Children) (out : Children × Bool)
      → OwnLimit h cs
      → Walked to cs out
      → out.1 ≡ true
      → Stepped to (rate_limit h l cs) (further (rate_limit h l out.0))

robin-Consistent :
    (to : Bool) (h : Head) (next : ℕ) (run wait : Children) (r q : Children × Bool)
    → OwnRoundRobin h next (flags run) (flags wait)
    → Walked to run r
    → Walked to wait q
    → (r.1 || q.1) ≡ false
    → Consistent (round_robin h next r.0 q.0)
unfolding Consistent
robin-Consistent to h next run wait r q own wr wq e =
    let (er, eq) = or_false r.1 q.1 e in
    (
      subst (λ bs. OwnRoundRobin h next bs (flags q.0)) (sym (wr.quiet er))
          (subst (OwnRoundRobin h next (flags run)) (sym (wq.quiet eq)) own),
      wr.all,
      wq.all,
    )

limit-Consistent :
    (to : Bool) (h : Head) (l : Limiter) (cs : Children) (r : Children × Bool)
    → OwnLimit h cs
    → Walked to cs r
    → r.1 ≡ false
    → Consistent (rate_limit h l r.0)
unfolding Consistent
limit-Consistent to h l cs r own w e =
    let same = w.quiet e in
    (
      record {
        child_free = λ run.
            no_free-flags r.0 ∙ ap no_free same ∙ sym (no_free-flags cs) ∙ own.child_free run;
        awake = own.awake;
        single = subst (λ (bs : List Bool). length bs ≤ 1) (sym same) own.single;
      },
      w.all,
    )

module _ (to : Bool) (id : ℕ) (start further : Tc → Tc × Bool) (way : Climbing to further)
    (start_lem : (t : Tc) → Consistent t → Stepped to t (start t)) where
  climb-Stepped :
      (t t' : Tc) (told : Bool)
      → blocked t' ≡ blocked t
      → (told ≡ true → Stepped to t (further t'))
      → (told ≡ false → Consistent t')
      → Stepped to t (climb id start further told t')
  unfolding climb
  climb-Stepped t t' true e step same = step refl
  climb-Stepped t t' false e step same = record { kept = same refl; flag = inr (refl, e) }

  mutual
    unfolding towards_root Consistent head_of flags

    pub towards_root-Stepped :
        (t : Tc) → Consistent t → Stepped to t (towards_root id start further t)
    towards_root-Stepped (leaf h w) v = elim (Bool-cases (h.id == id)) [
      | inl here ↦ rw here (start_lem (leaf h w) v)
      | inr other ↦ rw other (record { kept = v; flag = inr (refl, refl) })
    ]
    towards_root-Stepped (priority h first cs) (own, vs) = elim (Bool-cases (h.id == id)) [
      | inl here ↦ rw here (start_lem (priority h first cs) (own, vs))
      | inr other ↦
          let w = children_towards_root-Walked cs vs in
          let r = children_towards_root id start further cs in
          rw other (
            climb-Stepped (priority h first cs) (priority h first r.0) r.1 refl
              (λ told. way.at_priority h first cs r own w)
              (λ quiet. (subst (OwnPriority h first) (sym (w.quiet quiet)) own, w.all)))
    ]
    towards_root-Stepped (round_robin h next run wait) (own, vs, ws) =
        elim (Bool-cases (h.id == id)) [
          | inl here ↦ rw here (start_lem (round_robin h next run wait) (own, vs, ws))
          | inr other ↦
              let r = children_towards_root id start further run in
              let q = children_towards_root id start further wait in
              let wr = children_towards_root-Walked run vs in
              let wq = children_towards_root-Walked wait ws in
              rw other (
                climb-Stepped (round_robin h next run wait) (round_robin h next r.0 q.0)
                  (r.1 || q.1) refl (λ told. way.at_robin h next run wait r q own wr wq)
                  (λ quiet. robin-Consistent to h next run wait r q own wr wq quiet))
        ]
    towards_root-Stepped (rate_limit h l cs) (own, vs) = elim (Bool-cases (h.id == id)) [
      | inl here ↦ rw here (start_lem (rate_limit h l cs) (own, vs))
      | inr other ↦
          let w = children_towards_root-Walked cs vs in
          let r = children_towards_root id start further cs in
          rw other (
            climb-Stepped (rate_limit h l cs) (rate_limit h l r.0) r.1 refl
              (λ told. way.at_limit h l cs r own w told)
              (λ quiet. limit-Consistent to h l cs r own w quiet))
    ]

    children_towards_root-Walked :
        (cs : Children)
        → ConsistentAll cs
        → Walked to cs (children_towards_root id start further cs)
    children_towards_root-Walked no_children vs = record {
      all = tt;
      moved = tt;
      quiet = λ e. refl;
      news = λ e. cc;
    }
    children_towards_root-Walked (child p c cs) (v, vs) =
        let u = towards_root-Stepped c v in
        let w = children_towards_root-Walked cs vs in
        let a = towards_root id start further c in
        let b = children_towards_root id start further cs in
        record {
          all = (u.kept, w.all);
          moved = (
            (λ e. elim (u.flag) [ inl (told, was, now) ↦ now | inr (still, now) ↦ now ∙ e ]),
            w.moved,
          );
          quiet = λ e.
              let (ea, eb) = or_false a.1 b.1 e in
              let same : blocked a.0 ≡ blocked c = elim (u.flag) [
                | inl (told, was, now) ↦ let no : true ≡ false = sym told ∙ ea in cc
                | inr (still, now) ↦ now
              ] in
              ap (λ x. x ∷ flags b.0) same ∙ ap (λ bs. blocked c ∷ bs) (w.quiet eb);
          news = λ e. elim (u.flag) [
            | inl (told, was, now) ↦ inl now
            | inr (still, now) ↦ inr (w.news (rw still at e))
          ];
        }
