-- ===== src/MemoryPool.antt =====
-- bess/core/utils/mempool-list.h: the pool of nodes, a doubly linked list of free blocks. Blocks are
-- cells at addresses; address 0 is the null pointer, 1 the list's head, and `pool_[i]` stands at
-- `i + 2`. An element's address is that of its block, `offset` bytes further on.
pub mod Chain
pub mod Laws
pub mod Held
use flow_bundler.Common.{
  ℕ, zero, suc, ◌+◌, ◌-◌, ◌==◌, ltb, if◌then◌else◌, Option, none, some, Bool, true, false, sub64,
  u32, u64,
}

abbrev pub null : ℕ
null = 0

abbrev pub head : ℕ
head = 1

pub record MemoryBlock : Type 0 where
  pub prev : ℕ
  pub next : ℕ
  pub parent_id : ℕ

pub record MemoryPool : Type 0 where
  pub block : ℕ → MemoryBlock
  pub tail : ℕ
  pub block_num : ℕ  -- size_t
  pub size : ℕ
  pub uuid : ℕ

unfoldable pub update : (ℕ → MemoryBlock) → ℕ → MemoryBlock → ℕ → MemoryBlock
update b p v a = if a == p then v else b a

unfoldable pub set_next : (ℕ → MemoryBlock) → ℕ → ℕ → ℕ → MemoryBlock
unfolding update
set_next b p q = update b p (record (b p) { next = q })

unfoldable pub set_prev : (ℕ → MemoryBlock) → ℕ → ℕ → ℕ → MemoryBlock
unfolding update
set_prev b p q = update b p (record (b p) { prev = q })

-- The constructor's loop: link the next block behind the tail, for the blocks that are left. The source
-- counts with an `int`, so there have to be fewer than 2 ^ 31 blocks.
-- `construct` gives a block null links.
unfoldable pub link_blocks : ℕ → ℕ → MemoryPool → MemoryPool
unfolding set_next update
link_blocks zero at p = p
link_blocks (suc left) at p =
    let linked = set_next p.block p.tail at in
    let fresh = update linked at (record { prev = p.tail; next = null; parent_id = p.uuid }) in
    link_blocks left (at + 1) (record p { block = fresh; tail = at })

-- `uuid` is the hash of the pool's name.
unfoldable pub create : ℕ → ℕ → MemoryPool
unfolding link_blocks
create n uuid = link_blocks n 2 (record {
  block = λ a. record { prev = null; next = null; parent_id = 0 };
  tail = head;
  block_num = n;
  size = n;
  uuid = uuid;
})

-- `none` is the null pointer.
unfoldable pub get_element : MemoryPool → Option ℕ × MemoryPool
unfolding set_next
get_element p =
    if p.block_num == 0
    then (none, p)
    else let t = (p.block p.tail).prev in
      (
        some p.tail,
        record p { block = set_next p.block t null; tail = t; block_num = p.block_num - 1 },
      )

-- `true` for the result 0, `false` for -1.
unfoldable pub put_element : MemoryPool → Option ℕ → Bool × MemoryPool
unfolding set_next set_prev
put_element p none = (false, p)
put_element p (some e) =
    if (p.block e).parent_id == p.uuid
    then (
      true,
      record p {
        block = set_prev (set_next (set_next p.block p.tail e) e null) e p.tail;
        tail = e;
        block_num = u64 (p.block_num + 1);
      },
    )
    else (false, p)

-- `GetNum` walks from the head to the tail, for at most the given number of steps. The count is an `int`,
-- whose 32-bit pattern this is; from 2 ^ 31 on it has overflowed.
pub walk : ℕ → MemoryPool → ℕ → ℕ → ℕ
walk zero p at count = count
walk (suc steps) p at count =
    let rest = walk steps p (p.block at).next (u32 (count + 1)) in
    if at == p.tail then count else rest

unfoldable pub get_num : MemoryPool → ℕ
unfolding walk
get_num p = walk (p.size + 1) p head 0
