-- ===== src/TrafficClass/Consistent.antt =====
-- When the members of a tree of traffic classes agree: a class is blocked if and only if it has no child to
-- run, and `first_runnable_`, `next_child_` and the lists of children say which to run.
use flow_bundler.Common.{
  ℕ, zero, suc, ◌<◌, ◌≤◌, ◌≡◌, ◌⊎◌, refl, ap, ◌∙◌, List, [], ◌∷◌, ◌++◌, length, All, ◌==◌, Bool,
  true, false, inl, inr, some, arith, Bool-cases,
}
use flow_bundler.TrafficClass.{
  Head, Tc, leaf, priority, round_robin, rate_limit, Children, no_children, child, head_of, blocked,
  flags, is_childless, push_back, first_free, scan_from, no_free_child,
}
use flow_bundler.TrafficClass.Step.{next_leaf, next_of}

abbrev pub AllFree : List Bool → Type 0
AllFree = All (λ b. b ≡ false)

abbrev pub AllBusy : List Bool → Type 0
AllBusy = All (λ b. b ≡ true)

pub record OwnPriority (h : Head) (first : ℕ) (bs : List Bool) : Type 0 where
  pub first_is : first ≡ first_free bs
  pub priority_flag : h.blocked ≡ (first == length bs)

pub record OwnRoundRobin (h : Head) (next : ℕ) (run wait : List Bool) : Type 0 where
  pub run_free : AllFree run
  pub wait_busy : AllBusy wait
  pub turn_in : (next ≡ 0) ⊎ (next < length run)
  pub robin_flag : h.blocked ≡ (length run == 0)

pub record OwnLimit (h : Head) (cs : Children) : Type 0 where
  pub child_free : h.blocked ≡ false → no_free_child cs ≡ false
  pub awake : h.blocked ≡ false → h.wakeup_time ≡ 0
  pub single : length (flags cs) ≤ 1

unfoldable mutual
  pub Consistent : Tc → Type 0
  Consistent (leaf h w) = Unit
  Consistent (priority h first cs) = OwnPriority h first (flags cs) × ConsistentAll cs
  Consistent (round_robin h next run wait) =
      OwnRoundRobin h next (flags run) (flags wait) × ConsistentAll run × ConsistentAll wait
  Consistent (rate_limit h l cs) = OwnLimit h cs × ConsistentAll cs

  pub ConsistentAll : Children → Type 0
  ConsistentAll no_children = Unit
  ConsistentAll (child p c cs) = Consistent c × ConsistentAll cs

-- Which leaf has its turn, by the flags alone: of a priority class that of the first child that is not
-- blocked, of a round robin class that of the child at `next_child_`.
unfoldable mutual
  pub Turn : Tc → ℕ → Type 0
  Turn (leaf h w) x = x ≡ h.id
  Turn (priority h first cs) x = FirstTurn cs x
  Turn (round_robin h next run wait) x = NthTurn run next x
  Turn (rate_limit h l cs) x = FirstTurn cs x

  pub FirstTurn : Children → ℕ → Type 0
  FirstTurn no_children x = ⊥
  FirstTurn (child p c cs) x =
      ((blocked c ≡ true) × FirstTurn cs x) ⊎ ((blocked c ≡ false) × Turn c x)

  pub NthTurn : Children → ℕ → ℕ → Type 0
  NthTurn no_children n x = ⊥
  NthTurn (child p c cs) zero x = (blocked c ≡ false) × Turn c x
  NthTurn (child p c cs) (suc n) x = NthTurn cs n x

pub length-is_childless : (cs : Children) → is_childless cs ≡ (length (flags cs) == 0)
unfolding is_childless flags
length-is_childless no_children = refl
length-is_childless (child p c cs) = ground arith

pub flags-push_back : (xs ys : Children) → flags (push_back xs ys) ≡ flags xs ++ flags ys
unfolding flags push_back
flags-push_back no_children ys = refl
flags-push_back (child p c cs) ys = ap (λ bs. blocked c ∷ bs) (flags-push_back cs ys)

pub ConsistentAll-push_back :
    (xs ys : Children) → ConsistentAll xs → ConsistentAll ys → ConsistentAll (push_back xs ys)
unfolding ConsistentAll push_back
ConsistentAll-push_back no_children ys u v = v
ConsistentAll-push_back (child p c cs) ys (u, us) v = (u, ConsistentAll-push_back cs ys us v)

pub All-append : (P : Bool → Type 0) (xs ys : List Bool) → All P xs → All P ys → All P (xs ++ ys)
All-append P [] ys u v = v
All-append P (x ∷ xs) ys (u, us) v = (u, All-append P xs ys us v)

pub scan_from_lem : (n : ℕ) (bs : List Bool) → n ≤ first_free bs → scan_from n bs ≡ first_free bs
unfolding scan_from first_free
scan_from_lem zero bs h = refl
scan_from_lem (suc n) [] h = absurd (omega arith)
scan_from_lem (suc n) (true ∷ bs) h = ap suc (scan_from_lem n bs (omega arith))
scan_from_lem (suc n) (false ∷ bs) h = absurd (omega arith)

pub first_free-le : (bs : List Bool) → first_free bs ≤ length bs
unfolding first_free
first_free-le [] = omega arith
first_free-le (true ∷ bs) = omega (arith, first_free-le bs)
first_free-le (false ∷ bs) = omega arith

-- The tree picks the leaf that has its turn.
mutual
  unfolding next_leaf Consistent Turn flags first_free no_free_child head_of

  next_leaf-Turn :
      (t : Tc) → Consistent t → blocked t ≡ false → (x : ℕ) × (next_leaf t ≡ some x) × Turn t x
  next_leaf-Turn (leaf h w) v free = (h.id, refl, refl)
  next_leaf-Turn (priority h first cs) (own, vs) free =
      let some_free : first_free (flags cs) < length (flags cs) =
        ground (arith, own.first_is, own.priority_flag, first_free-le (flags cs), free) in
      let (x, e, turn) = next_first cs vs some_free in
      (x, ap (λ n. next_of n cs) own.first_is ∙ e, turn)
  next_leaf-Turn (round_robin h next run wait) (own, vs, ws) free =
      let some_run : next < length (flags run) =
        ground (arith, own.turn_in, own.robin_flag, free) in
      next_nth run next vs own.run_free some_run
  next_leaf-Turn (rate_limit h l no_children) (own, vs) free =
      let e : true ≡ false = own.child_free free in cc
  next_leaf-Turn (rate_limit h l (child p c cs)) (own, (v, vs)) free =
      let (x, e, turn) = next_leaf-Turn c v (own.child_free free) in
      (x, e, inr (own.child_free free, turn))

  next_first :
      (cs : Children)
      → ConsistentAll cs
      → first_free (flags cs) < length (flags cs)
      → (x : ℕ) × (next_of (first_free (flags cs)) cs ≡ some x) × FirstTurn cs x
  next_first no_children vs h = absurd (omega arith)
  next_first (child p c cs) (v, vs) h = elim (Bool-cases (blocked c)) [
    | inl busy ↦
        let here : first_free (flags (child p c cs)) ≡ suc (first_free (flags cs)) = rw busy refl in
        let (x, e, turn) = next_first cs vs (omega (arith, here)) in
        (x, ap (λ n. next_of n (child p c cs)) here ∙ e, inl (busy, turn))
    | inr free ↦
        let here : first_free (flags (child p c cs)) ≡ 0 = rw free refl in
        let (x, e, turn) = next_leaf-Turn c v free in
        (x, ap (λ n. next_of n (child p c cs)) here ∙ e, inr (free, turn))
  ]

  next_nth :
      (cs : Children) (n : ℕ)
      → ConsistentAll cs
      → AllFree (flags cs)
      → n < length (flags cs)
      → (x : ℕ) × (next_of n cs ≡ some x) × NthTurn cs n x
  next_nth no_children n vs fs h = absurd (omega arith)
  next_nth (child p c cs) zero (v, vs) (f, fs) h =
      let (x, e, turn) = next_leaf-Turn c v f in (x, e, (f, turn))
  next_nth (child p c cs) (suc n) (v, vs) (f, fs) h = next_nth cs n vs fs (omega arith)

-- `PickNextChild` from a class that is not blocked comes down to a leaf, the one that has its turn.
pub next_leaf_lem :
    (t : Tc) → Consistent t → blocked t ≡ false → (x : ℕ) × (next_leaf t ≡ some x) × Turn t x
next_leaf_lem t v free = next_leaf-Turn t v free
