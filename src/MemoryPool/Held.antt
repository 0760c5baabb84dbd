-- ===== src/MemoryPool/Held.antt =====
-- The blocks that a client holds, beside those that are free.
use flow_bundler.Common.{ℕ, ◌≡◌, refl, sym, List, [], ◌∷◌, Option, none, some, arith}
use flow_bundler.MemoryPool.{MemoryPool, get_element, put_element}
use flow_bundler.MemoryPool.Chain.{Fresh}
use flow_bundler.MemoryPool.Laws.{IsOwned, get_element-IsOwned, put_element-IsOwned}

-- The blocks `xs` are owned, distinct, and not among the free ones.
abbrev pub Held : MemoryPool → List ℕ → List ℕ → Type 0
Held p free [] = Unit {0}
Held p free (x ∷ xs) = IsOwned p x × Fresh x free × Fresh x xs × Held p free xs

-- The blocks in the order in which they come back, on top of those that were free.
abbrev pub give_back : List ℕ → List ℕ → List ℕ
give_back [] free = free
give_back (x ∷ xs) free = give_back xs (x ∷ free)

pub Held-put :
    (p : MemoryPool) (free : List ℕ) (e : ℕ) (xs : List ℕ)
    → Fresh e xs
    → Held p free xs
    → Held (put_element p (some e)).1 (e ∷ free) xs
Held-put p free e [] f h = tt
Held-put p free e (x ∷ xs) f h = (
  put_element-IsOwned p (some e) x h.0,
  ((λ q. f.0 (sym q)), h.1),
  h.2,
  Held-put p free e xs f.1 h.3,
)

pub Held-get :
    (p : MemoryPool) (e : ℕ) (rest xs : List ℕ)
    → Held p (e ∷ rest) xs
    → Held (get_element p).1 rest xs × Fresh e xs
Held-get p e rest [] h = (tt, tt)
Held-get p e rest (x ∷ xs) h =
    let (below, apart) = Held-get p e rest xs h.3 in
    ((get_element-IsOwned p x h.0, h.1.1, h.2, below), ((λ q. h.1.0 (sym q)), apart))

pub size-put : (p : MemoryPool) (e : Option ℕ) → (put_element p e).1.size ≡ p.size
unfolding put_element
size-put p none = refl
size-put p (some e) = ground arith
