-- ===== src/MemoryPool/Chain.antt =====
-- The free blocks of a pool as a chain of `prev` links from the tail down to the head.
use flow_bundler.Common.{
  ℕ, ◌≡◌, ◌≢◌, ◌==◌, if◌then◌else◌, refl, subst, sym, ◌∙◌, List, [], ◌∷◌, arith, true, false,
}
use flow_bundler.MemoryPool.{MemoryBlock, head, null, update, set_next, set_prev}

-- `a` is not in the list.
abbrev pub Fresh : ℕ → List ℕ → Type 0
Fresh a [] = Unit {0}
Fresh a (x ∷ xs) = (a ≢ x) × Fresh a xs

-- The blocks `xs` are distinct, belong to the pool `uuid`, and are linked both ways from `t` to the
-- head.
abbrev pub Chain : ℕ → (ℕ → MemoryBlock) → ℕ → List ℕ → Type 0
Chain uuid b t [] = t ≡ head
Chain uuid b t (x ∷ xs) =
    (t ≡ x)
    × (x ≢ head)
    × (x ≢ null)
    × Fresh x xs
    × ((b x).parent_id ≡ uuid)
    × ((b (b x).prev).next ≡ x)
    × Chain uuid b (b x).prev xs

-- What the writes of a link leave alone.
pub prev-set_next : (b : ℕ → MemoryBlock) (a q x : ℕ) → (set_next b a q x).prev ≡ (b x).prev
unfolding set_next update
prev-set_next b a q x = ground arith

pub parent_id-set_next :
    (b : ℕ → MemoryBlock) (a q x : ℕ) → (set_next b a q x).parent_id ≡ (b x).parent_id
unfolding set_next update
parent_id-set_next b a q x = ground arith

pub next-set_next :
    (b : ℕ → MemoryBlock) (a q x : ℕ) → (set_next b a q x).next ≡ (if x == a then q else (b x).next)
unfolding set_next update
next-set_next b a q x = ground arith

pub prev-set_prev :
    (b : ℕ → MemoryBlock) (a q x : ℕ) → (set_prev b a q x).prev ≡ (if x == a then q else (b x).prev)
unfolding set_prev update
prev-set_prev b a q x = ground arith

pub parent_id-set_prev :
    (b : ℕ → MemoryBlock) (a q x : ℕ) → (set_prev b a q x).parent_id ≡ (b x).parent_id
unfolding set_prev update
parent_id-set_prev b a q x = ground arith

pub next-set_prev : (b : ℕ → MemoryBlock) (a q x : ℕ) → (set_prev b a q x).next ≡ (b x).next
unfolding set_prev update
next-set_prev b a q x = ground arith

-- A chain begins in a block of its list or in the head.
pub Chain-ne :
    (uuid : ℕ) (b : ℕ → MemoryBlock) (t a : ℕ) (xs : List ℕ)
    → Chain uuid b t xs
    → Fresh a xs
    → a ≢ head
    → a ≢ t
Chain-ne uuid b t a [] c f h = λ e. h (e ∙ c)
Chain-ne uuid b t a (x ∷ xs) c f h = λ e. f.0 (e ∙ c.0)

-- Overwriting `next` at the start of a chain, or outside it, leaves the chain.
pub Chain-set_next_outside :
    (uuid : ℕ) (b : ℕ → MemoryBlock) (t a q : ℕ) (xs : List ℕ)
    → Chain uuid b t xs
    → a ≢ head
    → Fresh a xs
    → Chain uuid (set_next b a q) t xs
Chain-set_next_outside uuid b t a q [] c h f = c
Chain-set_next_outside uuid b t a q (x ∷ xs) c h f =
    let apart = Chain-ne uuid b (b x).prev a xs c.6 f.1 h in
    (
      c.0,
      c.1,
      c.2,
      c.3,
      parent_id-set_next b a q x ∙ c.4,
      rw prev-set_next (ground (arith, next-set_next b a q (b x).prev, c.5)),
      rw prev-set_next (Chain-set_next_outside uuid b (b x).prev a q xs c.6 h f.1),
    )

pub Chain-set_next_start :
    (uuid : ℕ) (b : ℕ → MemoryBlock) (t q : ℕ) (xs : List ℕ)
    → Chain uuid b t xs
    → Chain uuid (set_next b t q) t xs
Chain-set_next_start uuid b t q [] c = c
Chain-set_next_start uuid b t q (x ∷ xs) c =
    let apart = Chain-ne uuid b (b x).prev x xs c.6 c.3 c.1 in
    subst (λ y. Chain uuid (set_next b y q) y (x ∷ xs)) (sym c.0)
      (
        refl,
        c.1,
        c.2,
        c.3,
        parent_id-set_next b x q x ∙ c.4,
        rw prev-set_next (ground (arith, next-set_next b x q (b x).prev, c.5)),
        rw prev-set_next (Chain-set_next_outside uuid b (b x).prev x q xs c.6 c.1 c.3),
      )

-- Overwriting `prev` outside a chain leaves the chain.
pub Chain-set_prev :
    (uuid : ℕ) (b : ℕ → MemoryBlock) (t a q : ℕ) (xs : List ℕ)
    → Chain uuid b t xs
    → Fresh a xs
    → Chain uuid (set_prev b a q) t xs
Chain-set_prev uuid b t a q [] c f = c
Chain-set_prev uuid b t a q (x ∷ xs) c f =
    let same : (set_prev b a q x).prev ≡ (b x).prev = ground (arith, prev-set_prev b a q x, f.0) in
    (
      c.0,
      c.1,
      c.2,
      c.3,
      parent_id-set_prev b a q x ∙ c.4,
      rw same (next-set_prev b a q (b x).prev ∙ c.5),
      rw same (Chain-set_prev uuid b (b x).prev a q xs c.6 f.1),
    )

-- The three writes of `PutElement` put a block on top of a chain that it is not in.
pub Chain-put :
    (uuid : ℕ) (b : ℕ → MemoryBlock) (t e : ℕ) (xs : List ℕ)
    → Chain uuid b t xs
    → Fresh e xs
    → e ≢ head
    → e ≢ null
    → (b e).parent_id ≡ uuid
    → Chain uuid (set_prev (set_next (set_next b t e) e null) e t) e (e ∷ xs)
Chain-put uuid b t e xs c f not_head not_null own =
    let b1 = set_next b t e in
    let b2 = set_next b1 e null in
    let apart = Chain-ne uuid b t e xs c f not_head in
    let below : (set_prev b2 e t e).prev ≡ t = ground (arith, prev-set_prev b2 e t e) in
    (
      refl,
      not_head,
      not_null,
      f,
      parent_id-set_prev b2 e t e
          ∙ parent_id-set_next b1 e null e
          ∙ parent_id-set_next b t e e
          ∙ own,
      rw below (
          ground (arith, next-set_prev b2 e t t, next-set_next b1 e null t, next-set_next b t e t)),
      rw below (
          Chain-set_prev uuid b2 t e t xs
            (Chain-set_next_outside uuid b1 t e null xs (Chain-set_next_start uuid b t e xs c)
              not_head f)
            f),
    )

-- Overwriting a whole block outside a chain leaves the chain.
pub update_ne : (b : ℕ → MemoryBlock) (a x : ℕ) (v : MemoryBlock) → a ≢ x → update b a v x ≡ b x
unfolding update
update_ne b a x v h = let test : (x == a) ≡ false = ground arith in rw test

pub update_self : (b : ℕ → MemoryBlock) (a : ℕ) (v : MemoryBlock) → update b a v a ≡ v
unfolding update
update_self b a v = let test : (a == a) ≡ true = ground arith in rw test

Chain-update :
    (uuid : ℕ) (b : ℕ → MemoryBlock) (t a : ℕ) (v : MemoryBlock) (xs : List ℕ)
    → Chain uuid b t xs
    → a ≢ head
    → Fresh a xs
    → Chain uuid (update b a v) t xs
Chain-update uuid b t a v [] c h f = c
Chain-update uuid b t a v (x ∷ xs) c h f =
    let apart = Chain-ne uuid b (b x).prev a xs c.6 f.1 h in
    let same = update_ne b a x v f.0 in
    (
      c.0,
      c.1,
      c.2,
      c.3,
      rw same c.4,
      rw (same, update_ne b a (b x).prev v apart) c.5,
      rw same (Chain-update uuid b (b x).prev a v xs c.6 h f.1),
    )

-- One round of the constructor's loop.
pub Chain-link :
    (uuid : ℕ) (b : ℕ → MemoryBlock) (t e : ℕ) (xs : List ℕ)
    → Chain uuid b t xs
    → Fresh e xs
    → e ≢ head
    → e ≢ null
    → Chain uuid
        (update (set_next b t e) e (record { prev = t; next = null; parent_id = uuid }))
        e
        (e ∷ xs)
Chain-link uuid b t e xs c f not_head not_null =
    let apart = Chain-ne uuid b t e xs c f not_head in
    let v : MemoryBlock = record { prev = t; next = null; parent_id = uuid } in
    let here = update_self (set_next b t e) e v in
    let there = update_ne (set_next b t e) e t v apart in
    (
      refl,
      not_head,
      not_null,
      f,
      rw here,
      rw (here, there) (ground (arith, next-set_next b t e t)),
      rw here (
          Chain-update uuid (set_next b t e) t e v xs (Chain-set_next_start uuid b t e xs c)
            not_head f),
    )
