-- ===== src/TrafficClass/Position.antt =====
-- The child at a position, and flags of which one may have changed.
use flow_bundler.Common.{
  ℕ, zero, suc, ◌<◌, ◌≤◌, ◌≡◌, refl, ap, ◌∙◌, sym, List, [], ◌∷◌, length, set, Bool, true, false,
  arith,
}
use flow_bundler.TrafficClass.{Head, Children, no_children, child, flags, first_free, no_free_child}
use flow_bundler.TrafficClass.Step.{blocked_at, only}
use flow_bundler.TrafficClass.Consistent.{
  AllFree, AllBusy, OwnPriority, Consistent, ConsistentAll, first_free-le,
}

-- Flags with one that may have changed.
pub blocked_at-set :
    (bs : List Bool) (n : ℕ) (b : Bool) → n < length bs → blocked_at n (set bs n b) ≡ b
unfolding blocked_at
blocked_at-set [] n b h = absurd (omega arith)
blocked_at-set (x ∷ bs) zero b h = refl
blocked_at-set (x ∷ bs) (suc n) b h = blocked_at-set bs n b (omega arith)

pub set-first_free :
    (bs : List Bool) → first_free bs < length bs → set bs (first_free bs) false ≡ bs
unfolding first_free
set-first_free [] h = absurd (omega arith)
set-first_free (true ∷ bs) h = ap (λ r. true ∷ r) (set-first_free bs (omega arith))
set-first_free (false ∷ bs) h = refl

pub first_free-set-le :
    (bs : List Bool) (b : Bool) → first_free bs ≤ first_free (set bs (first_free bs) b)
unfolding first_free
first_free-set-le [] b = omega arith
first_free-set-le (true ∷ bs) b = omega (arith, first_free-set-le bs b)
first_free-set-le (false ∷ bs) b = omega arith

pub set-AllFree : (bs : List Bool) (n : ℕ) → AllFree bs → set bs n false ≡ bs
set-AllFree [] n fs = refl
set-AllFree (b ∷ bs) zero (f, fs) = rw f refl
set-AllFree (b ∷ bs) (suc n) (f, fs) = ap (λ r. b ∷ r) (set-AllFree bs n fs)

pub ConsistentAll-only : (cs : Children) (n : ℕ) → ConsistentAll cs → ConsistentAll (only n cs)
unfolding only Consistent
ConsistentAll-only no_children n vs = vs
ConsistentAll-only (child p c cs) zero (v, vs) = (v, tt)
ConsistentAll-only (child p c cs) (suc n) (v, vs) = ConsistentAll-only cs n vs

pub AllBusy-only :
    (cs : Children) (n : ℕ) → blocked_at n (flags cs) ≡ true → AllBusy (flags (only n cs))
unfolding flags only blocked_at
AllBusy-only no_children n b = tt
AllBusy-only (child p c cs) zero b = (b, tt)
AllBusy-only (child p c cs) (suc n) b = AllBusy-only cs n b

pub none_blocked : (bs : List Bool) (n : ℕ) → AllFree bs → blocked_at n bs ≡ false
unfolding blocked_at
none_blocked [] n fs = refl
none_blocked (b ∷ bs) zero (f, fs) = f
none_blocked (b ∷ bs) (suc n) (f, fs) = none_blocked bs n fs

pub first_is_free :
    (h : Head) (first : ℕ) (bs : List Bool)
    → OwnPriority h first bs
    → h.blocked ≡ false
    → blocked_at first bs ≡ false
first_is_free h first bs own free =
    let inside : first_free bs < length bs =
      ground (arith, own.first_is, own.priority_flag, first_free-le bs, free) in
    ap (blocked_at first) (sym (set-first_free bs inside))
    ∙ ap (λ n. blocked_at n (set bs (first_free bs) false)) own.first_is
    ∙ blocked_at-set bs (first_free bs) false inside

pub head_is_free : (cs : Children) → no_free_child cs ≡ false → blocked_at 0 (flags cs) ≡ false
unfolding no_free_child blocked_at flags
head_is_free no_children e = refl
head_is_free (child p c cs) e = e
