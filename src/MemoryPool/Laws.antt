-- ===== src/MemoryPool/Laws.antt =====
-- What a client may know of the pool: it is a stack of free blocks.
use flow_bundler.Common.{
  ℕ, zero, suc, ◌+◌, ◌^◌, ◌≤◌, ◌<◌, ◌≡◌, ◌≢◌, ◌==◌, refl, subst, ap, sym, ◌∙◌, List, [], ◌∷◌,
  length, arith, true, false, Option, none, some, u32, u64,
}
use flow_bundler.MemoryPool.{
  MemoryBlock, MemoryPool, head, null, update, set_next, link_blocks, create, get_element,
  put_element, walk, get_num,
}
use flow_bundler.MemoryPool.Chain.{
  Chain, Fresh, Chain-ne, Chain-link, Chain-put, Chain-set_next_start, parent_id-set_next,
  parent_id-set_prev,
}

pub record IsPool (p : MemoryPool) (free : List ℕ) : Type 0 where
  pub chain : Chain p.uuid p.block p.tail free
  pub count : p.block_num ≡ length free
  pub fits : length free ≤ p.size
  pub small : p.size < 2 ^ 32

-- A block that `GetElement` may have handed out.
pub record IsOwned (p : MemoryPool) (e : ℕ) : Type 0 where
  pub not_head : e ≢ head
  pub not_null : e ≢ null
  pub parent : (p.block e).parent_id ≡ p.uuid

-- An empty pool gives the null pointer.
pub get_element-empty : (p : MemoryPool) → IsPool p [] → get_element p ≡ (none, p)
unfolding get_element
get_element-empty p v = rw v.count

-- A pool with a free block gives the block that came back last, and is a pool of the others.
pub get_element-some :
    (p : MemoryPool) (x : ℕ) (xs : List ℕ)
    → IsPool p (x ∷ xs)
    → ((get_element p).0 ≡ some x) × IsPool (get_element p).1 xs
unfolding get_element
get_element-some p x xs v =
    let c = v.chain in
    let test : (p.block_num == 0) ≡ false = ground (arith, v.count) in
    rw test (
      ap some c.0,
      record {
        chain = rw c.0 (Chain-set_next_start p.uuid p.block (p.block x).prev null xs c.6);
        count = omega (arith, v.count);
        fits = omega (arith, v.fits);
        small = v.small;
      },
    )

-- `PutElement` makes a block of the pool that is not free the first free one.
pub put_element-own :
    (p : MemoryPool) (e : ℕ) (xs : List ℕ)
    → IsPool p xs
    → IsOwned p e
    → Fresh e xs
    → length xs < p.size
    → ((put_element p (some e)).0 ≡ true) × IsPool (put_element p (some e)).1 (e ∷ xs)
unfolding put_element
put_element-own p e xs v o f room =
    let test : ((p.block e).parent_id == p.uuid) ≡ true = ground (arith, o.parent) in
    let whole : u64 (p.block_num + 1) ≡ suc (length xs) = omega (arith, v.count, v.small) in
    rw test (
      refl,
      record {
        chain = Chain-put p.uuid p.block p.tail e xs v.chain f o.not_head o.not_null o.parent;
        count = whole;
        fits = omega arith;
        small = v.small;
      },
    )

-- A block of another pool, and the null pointer, are refused and change nothing.
pub put_element-foreign :
    (p : MemoryPool) (e : ℕ) → (p.block e).parent_id ≢ p.uuid → put_element p (some e) ≡ (false, p)
unfolding put_element
put_element-foreign p e h = ground arith

-- Ownership outlives the calls.
pub get_element-IsOwned : (p : MemoryPool) (e : ℕ) → IsOwned p e → IsOwned (get_element p).1 e
unfolding get_element
get_element-IsOwned p e o = ground (arith, parent_id-set_next p.block (p.block p.tail).prev null e)

pub put_element-IsOwned :
    (p : MemoryPool) (x : Option ℕ) (e : ℕ) → IsOwned p e → IsOwned (put_element p x).1 e
unfolding put_element
put_element-IsOwned p none e o = o
put_element-IsOwned p (some x) e o = ground (
  arith,
  parent_id-set_prev (set_next (set_next p.block p.tail x) x null) x p.tail e,
  parent_id-set_next (set_next p.block p.tail x) x null e,
  parent_id-set_next p.block p.tail x e,
)

-- A block that is handed out is owned.
pub get_element-owns :
    (p : MemoryPool) (x : ℕ) (xs : List ℕ) → IsPool p (x ∷ xs) → IsOwned (get_element p).1 x
get_element-owns p x xs v =
    get_element-IsOwned p x
      (record { not_head = v.chain.1; not_null = v.chain.2; parent = v.chain.4 })

-- The addresses `k + 1`, …, 3, 2, which the constructor links in this order.
abbrev pub first_blocks : ℕ → List ℕ
first_blocks zero = []
first_blocks (suc k) = suc (suc k) ∷ first_blocks k

Fresh-above : (k a : ℕ) → k + 2 ≤ a → Fresh a (first_blocks k)
Fresh-above zero a h = tt
Fresh-above (suc k) a h = (omega arith, Fresh-above k a (omega arith))

length-first_blocks : (k : ℕ) → length (first_blocks k) ≡ k
length-first_blocks zero = refl
length-first_blocks (suc k) = ap suc (length-first_blocks k)

link_blocks-Chain :
    (left k at n : ℕ) (p : MemoryPool)
    → Chain p.uuid p.block p.tail (first_blocks k)
    → at ≡ suc (suc k)
    → left + k ≡ n
    → let q = link_blocks left at p in
      Chain q.uuid q.block q.tail (first_blocks n) × (q.block_num ≡ p.block_num) × (q.size ≡ p.size)
unfolding link_blocks
link_blocks-Chain zero k at n p c e total =
    let same : k ≡ n = omega arith in
    (subst (λ m. Chain p.uuid p.block p.tail (first_blocks m)) same c, refl, refl)
link_blocks-Chain (suc left) k at n p c e total =
    link_blocks-Chain left (suc k) (at + 1) n _
      (subst
        (λ a.
          Chain p.uuid
            (update (set_next p.block p.tail at) at
              (record { prev = p.tail; next = null; parent_id = p.uuid }))
            at (a ∷ first_blocks k))
        e
        (Chain-link p.uuid p.block p.tail at (first_blocks k) c (Fresh-above k at (omega arith))
          (omega arith) (omega arith)))
      (omega arith) (omega arith)

-- A new pool has all its blocks free.
pub create-IsPool : (n uuid : ℕ) → n < 2 ^ 32 → IsPool (create n uuid) (first_blocks n)
unfolding create
create-IsPool n uuid h =
    let (c, count, size) = link_blocks-Chain n 0 2 n _ refl refl (omega arith) in
    let len = length-first_blocks n in
    record { chain = c; count = count ∙ sym len; fits = omega arith; small = omega arith }

-- The links upwards from `at` to `t` through the blocks `rs`.
abbrev Up : (ℕ → MemoryBlock) → ℕ → List ℕ → ℕ → Type 0
Up b at [] t = at ≡ t
Up b at (r ∷ rs) t = (at ≢ t) × ((b at).next ≡ r) × Up b r rs t

Up-reverse :
    (uuid : ℕ) (b : ℕ → MemoryBlock) (at t : ℕ) (xs rs : List ℕ)
    → Chain uuid b at xs
    → t ≢ head
    → Fresh t xs
    → Up b at rs t
    → (us : List ℕ) × (length us ≡ length xs + length rs) × Up b head us t
Up-reverse uuid b at t [] rs c h f u = (rs, omega arith, subst (λ a. Up b a rs t) c u)
Up-reverse uuid b at t (x ∷ xs) rs c h f u =
    let below = Chain-ne uuid b (b x).prev t xs c.6 f.1 h in
    let (us, len, up) =
      Up-reverse uuid b (b x).prev t xs (x ∷ rs) c.6 h f.1
        ((λ e. below (sym e)), c.5, subst (λ a. Up b a rs t) c.0 u) in
    (us, omega arith, up)

-- From the head of a pool the `next` links lead through its free blocks to the tail.
Up-Chain :
    (uuid : ℕ) (b : ℕ → MemoryBlock) (t : ℕ) (xs : List ℕ)
    → Chain uuid b t xs
    → (us : List ℕ) × (length us ≡ length xs) × Up b head us t
Up-Chain uuid b t [] c = ([], refl, sym c)
Up-Chain uuid b t (x ∷ xs) c =
    let below = Chain-ne uuid b (b x).prev x xs c.6 c.3 c.1 in
    let (us, len, up) =
      Up-reverse uuid b (b x).prev x xs (x ∷ []) c.6 c.1 c.3 ((λ e. below (sym e)), c.5, refl) in
    (us, omega arith, subst (Up b head us) (sym c.0) up)

walk-Up :
    (steps : ℕ) (p : MemoryPool) (at count : ℕ) (rs : List ℕ)
    → Up p.block at rs p.tail
    → length rs < steps
    → count + length rs < 2 ^ 32
    → walk steps p at count ≡ count + length rs
unfolding walk
walk-Up zero p at count rs u h fits = absurd (omega arith)
walk-Up (suc steps) p at count [] u h fits =
    let test : (at == p.tail) ≡ true = ground arith in rw test (omega arith)
walk-Up (suc steps) p at count (r ∷ rs) u h fits =
    let test : (at == p.tail) ≡ false = ground (arith, u.0) in
    rw (test, u.1)
      (omega (arith, walk-Up steps p r (u32 (count + 1)) rs u.2 (omega arith) (omega arith)))

-- In a pool of fewer than 2 ^ 31 blocks, `GetNum`, which walks the list of free blocks from its head, reaches
-- the tail and finds the number that `block_num` counts, which is not negative as an `int`.
pub get_num-block_num :
    (p : MemoryPool) (free : List ℕ)
    → IsPool p free
    → p.size < 2 ^ 31
    → (get_num p ≡ p.block_num) × (get_num p < 2 ^ 31)
unfolding get_num
get_num-block_num p free v few =
    let (us, len, up) = Up-Chain p.uuid p.block p.tail free v.chain in
    let e : get_num p ≡ p.block_num =
      walk-Up (p.size + 1) p head 0 us up (omega (arith, v.fits)) (omega (arith, v.fits))
      ∙ omega (arith, v.count) in
    (e, omega (arith, e, v.count, v.fits))
