-- ===== src/TrafficClass/Order.antt =====
-- Flags of which some have changed, all to one value.
use flow_bundler.Common.{
  suc, ◌≤◌, ◌≡◌, ◌⊎◌, refl, ap, List, [], ◌∷◌, ◌++◌, length, All, Bool, true, false, inl, inr,
  arith, ◌||◌,
}
use flow_bundler.TrafficClass.{Children, no_children, child, flags, first_free, no_free_child}

pub length-append_le : (xs ys : List Bool) → length xs ≤ length (xs ++ ys)
length-append_le [] ys = omega arith
length-append_le (x ∷ xs) ys = omega (arith, length-append_le xs ys)

pub or_false : (a b : Bool) → (a || b) ≡ false → (a ≡ false) × (b ≡ false)
or_false a b e = ground arith

abbrev pub Moved : Bool → List Bool → List Bool → Type 0
Moved to [] [] = Unit
Moved to [] (b ∷ bs) = ⊥
Moved to (c ∷ cs) [] = ⊥
Moved to (c ∷ cs) (b ∷ bs) = (b ≡ to → c ≡ to) × Moved to cs bs

-- Some flag has the value.
abbrev pub AnyIs : Bool → List Bool → Type 0
AnyIs to [] = ⊥
AnyIs to (b ∷ bs) = (b ≡ to) ⊎ AnyIs to bs

pub length-Moved : (to : Bool) (cs bs : List Bool) → Moved to cs bs → length cs ≡ length bs
length-Moved to [] [] l = refl
length-Moved to [] (b ∷ bs) l = elim l [ ]
length-Moved to (c ∷ cs) [] l = elim l [ ]
length-Moved to (c ∷ cs) (b ∷ bs) (f, l) = ap suc (length-Moved to cs bs l)

pub All-Moved :
    (to : Bool) (cs bs : List Bool) → Moved to cs bs → All (λ b. b ≡ to) bs → All (λ b. b ≡ to) cs
All-Moved to [] [] l fs = tt
All-Moved to [] (b ∷ bs) l fs = elim l [ ]
All-Moved to (c ∷ cs) [] l fs = elim l [ ]
All-Moved to (c ∷ cs) (b ∷ bs) (f, l) (g, gs) = (f g, All-Moved to cs bs l gs)

pub first_free-freed : (cs bs : List Bool) → Moved false cs bs → first_free cs ≤ first_free bs
unfolding first_free
first_free-freed [] [] l = omega arith
first_free-freed [] (b ∷ bs) l = elim l [ ]
first_free-freed (false ∷ cs) [] l = elim l [ ]
first_free-freed (true ∷ cs) [] l = elim l [ ]
first_free-freed (false ∷ cs) (b ∷ bs) (f, l) = omega arith
first_free-freed (true ∷ cs) (true ∷ bs) (f, l) = omega (arith, first_free-freed cs bs l)
first_free-freed (true ∷ cs) (false ∷ bs) (f, l) = let e : true ≡ false = f refl in cc

pub first_free-busied : (cs bs : List Bool) → Moved true cs bs → first_free bs ≤ first_free cs
unfolding first_free
first_free-busied [] [] l = omega arith
first_free-busied [] (b ∷ bs) l = elim l [ ]
first_free-busied (c ∷ cs) [] l = elim l [ ]
first_free-busied (c ∷ cs) (false ∷ bs) (f, l) = omega arith
first_free-busied (true ∷ cs) (true ∷ bs) (f, l) = omega (arith, first_free-busied cs bs l)
first_free-busied (false ∷ cs) (true ∷ bs) (f, l) = let e : false ≡ true = f refl in cc

-- `no_free_child` by the flags.
abbrev pub no_free : List Bool → Bool
no_free [] = true
no_free (b ∷ bs) = b

pub no_free-flags : (cs : Children) → no_free_child cs ≡ no_free (flags cs)
unfolding flags no_free_child
no_free-flags no_children = refl
no_free-flags (child p c cs) = refl

pub no_free-freed :
    (cs bs : List Bool) → Moved false cs bs → no_free bs ≡ false → no_free cs ≡ false
no_free-freed [] [] l e = e
no_free-freed [] (b ∷ bs) l e = elim l [ ]
no_free-freed (c ∷ cs) [] l e = elim l [ ]
no_free-freed (c ∷ cs) (b ∷ bs) (f, l) e = f e

-- A single flag that has the value.
pub no_free-AnyIs : (to : Bool) (bs : List Bool) → length bs ≤ 1 → AnyIs to bs → no_free bs ≡ to
no_free-AnyIs to [] h a = elim a [ ]
no_free-AnyIs to (b ∷ []) h (inl e) = e
no_free-AnyIs to (b ∷ []) h (inr a) = elim a [ ]
no_free-AnyIs to (b ∷ (c ∷ bs)) h a = absurd (omega arith)
