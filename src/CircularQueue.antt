-- ===== src/CircularQueue.antt =====
-- bess/core/utils/circular-queue.h: a ring of a power-of-two size that keeps one slot free.
-- A method that changes the object returns the new one beside its result.
pub mod Invariant
pub mod Window
pub mod Count
pub mod Refine
use flow_bundler.Common.{
  ℕ, zero, suc, ◌+◌, ◌-◌, ◌*◌, ◌%◌, ◌^◌, List, [], ◌∷◌, bit_and, u32, sub32, ltb, leb, ◌==◌,
  if◌then◌else◌, get_or, set, replicate, Bool, Option, none, some,
}

pub record CircularQueue {ℓ} (A : Type ℓ) : Type ℓ where
  pub size : ℕ
  pub head_pos : ℕ
  pub tail_pos : ℕ
  pub temp_pos : ℕ
  pub memory : List A

-- `while (m < size) m *= 2`, for at most the given number of rounds.
unfoldable pub double_until : ℕ → ℕ → ℕ → ℕ
double_until zero size m = m
double_until (suc rounds) size m =
    let more = double_until rounds size (u32 (m * 2)) in if ltb m size then more else m

abbrev pub max_size : ℕ
max_size = 2 ^ 31

-- The size that the constructor settles on. From 1 a value below 2 ^ 31 is reached in 31 rounds.
unfoldable pub round_size : ℕ → ℕ
unfolding double_until
round_size size = if leb max_size size then max_size else double_until 31 size 1

-- `d` is the value `T{}`.
module _ {ℓ} {A : Type ℓ} (d : A) where
  unfoldable pub create : ℕ → CircularQueue A
  unfolding round_size
  create size =
      let s = round_size size in
      record { size = s; head_pos = 0; tail_pos = 0; temp_pos = 0; memory = replicate s d }

  unfoldable pub pop : CircularQueue A → A × CircularQueue A
  pop q = if head_pos == tail_pos then (d, q) else (
    get_or memory head_pos d,
    record q { temp_pos = head_pos; head_pos = bit_and (u32 (head_pos + 1)) (sub32 size 1) },
  )
    where
      open q use {size, head_pos, tail_pos, memory}

module _ {ℓ} {A : Type ℓ} where
  unfoldable pub is_full : CircularQueue A → Bool
  is_full q = u32 (q.tail_pos + 1) % q.size == q.head_pos

  unfoldable pub is_empty : CircularQueue A → Bool
  is_empty q = q.head_pos == q.tail_pos

  unfoldable pub elements_num : CircularQueue A → ℕ
  elements_num q = bit_and (u32 (sub32 q.size q.head_pos + q.tail_pos)) (sub32 q.size 1)

  unfoldable pub reset : CircularQueue A → CircularQueue A
  reset q = record q { tail_pos = 0; head_pos = 0 }

  -- `true` for the result 0, `false` for -1.
  unfoldable pub push : CircularQueue A → A → Bool × CircularQueue A
  unfolding is_full
  push q x = if is_full q then (Bool.false, q) else (
    Bool.true,
    record q {
      memory = set q.memory q.tail_pos x;
      tail_pos = bit_and (u32 (q.tail_pos + 1)) (sub32 q.size 1);
    },
  )
