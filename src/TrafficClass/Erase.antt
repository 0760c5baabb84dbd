-- ===== src/TrafficClass/Erase.antt =====
-- A child that leaves the children of a class.
use flow_bundler.Common.{ℕ, zero, suc, ◌≤◌, ◌≡◌, ap, length, All, Bool, inl, inr, arith, Bool-cases}
use flow_bundler.TrafficClass.{Children, no_children, child, blocked, flags, first_free}
use flow_bundler.TrafficClass.Step.{erase, shifted}
use flow_bundler.TrafficClass.Consistent.{Consistent, ConsistentAll}

pub All-erase :
    (P : Bool → Type 0) (cs : Children) (n : ℕ) → All P (flags cs) → All P (flags (erase n cs))
unfolding flags erase
All-erase P no_children n fs = fs
All-erase P (child p c cs) zero (f, fs) = fs
All-erase P (child p c cs) (suc n) (f, fs) = (f, All-erase P cs n fs)

pub ConsistentAll-erase : (cs : Children) (n : ℕ) → ConsistentAll cs → ConsistentAll (erase n cs)
unfolding erase Consistent
ConsistentAll-erase no_children n vs = vs
ConsistentAll-erase (child p c cs) zero (v, vs) = vs
ConsistentAll-erase (child p c cs) (suc n) (v, vs) = (v, ConsistentAll-erase cs n vs)

pub length-erase_le : (cs : Children) (n : ℕ) → length (flags (erase n cs)) ≤ length (flags cs)
unfolding erase flags
length-erase_le no_children n = omega arith
length-erase_le (child p c cs) zero = omega arith
length-erase_le (child p c cs) (suc n) = omega (arith, length-erase_le cs n)

-- The first free child moves by one place at most, and only if the child stood before it.
pub first_free-erase :
    (cs : Children) (n : ℕ) → shifted n (first_free (flags cs)) ≤ first_free (flags (erase n cs))
unfolding erase flags first_free shifted
first_free-erase no_children n = ground arith
first_free-erase (child p c cs) zero = elim (Bool-cases (blocked c)) [
  | inl busy ↦ rw busy (ground arith)
  | inr free ↦ rw free (ground arith)
]
first_free-erase (child p c cs) (suc n) = elim (Bool-cases (blocked c)) [
  | inl busy ↦ rw busy (ground (arith, first_free-erase cs n))
  | inr free ↦ rw free (ground arith)
]

pub none_free-erase :
    (cs : Children) (n : ℕ)
    → first_free (flags cs) ≡ length (flags cs)
    → first_free (flags (erase n cs)) ≡ length (flags (erase n cs))
unfolding erase flags first_free
none_free-erase no_children n e = e
none_free-erase (child p c cs) zero e = elim (Bool-cases (blocked c)) [
  | inr free ↦ let no : 0 ≡ suc (length (flags cs)) = rw free at e in absurd (omega arith)
  | inl busy ↦
      let e' : suc (first_free (flags cs)) ≡ suc (length (flags cs)) = rw busy at e in
      omega (arith, e')
]
none_free-erase (child p c cs) (suc n) e = elim (Bool-cases (blocked c)) [
  | inr free ↦ let no : 0 ≡ suc (length (flags cs)) = rw free at e in absurd (omega arith)
  | inl busy ↦
      let e' : suc (first_free (flags cs)) ≡ suc (length (flags cs)) = rw busy at e in
      rw busy (ap suc (none_free-erase cs n (omega (arith, e'))))
]
