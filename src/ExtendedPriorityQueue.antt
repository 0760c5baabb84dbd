-- ===== src/ExtendedPriorityQueue.antt =====
-- bess/core/utils/extended_priority_queue.h: a heap in a vector, whose top element has got another key. The
-- elements have any type; `d` is read where the source would read past the end, which it never does.
pub mod Swap
pub mod Heap
use flow_bundler.Common.{
  ℕ, zero, suc, ◌+◌, ◌*◌, List, [], ◌∷◌, length, get_or, set, leb, ◌||◌, not, if◌then◌else◌, Bool,
  true, false,
}

module _ {ℓ} {A : Type ℓ} (cmp : A → A → Bool) (d : A) where
  abbrev pub at : List A → ℕ → A
  at v i = get_or v i d

  -- `std::swap` of two elements.
  unfoldable pub swap : List A → ℕ → ℕ → List A
  swap v i j = set (set v i (at v j)) j (at v i)

  unfoldable pub larger_child : List A → ℕ → ℕ
  larger_child v node =
      let left = 2 * node + 1 in
      let right = 2 * node + 2 in
      if leb (length v) right || cmp (at v right) (at v left) then left else right

  -- The loop of `decrease_key_top`, for so many rounds at most.
  unfoldable pub sift : ℕ → List A → ℕ → List A
  unfolding swap larger_child
  sift zero v node = v
  sift (suc rounds) v node =
      let larger = larger_child v node in
      let further = sift rounds (swap v node larger) larger in
      let stays = if not (cmp (at v node) (at v larger)) then v else further in
      if leb (length v) (2 * node + 1) then v else stays

  unfoldable pub decrease_key_top : List A → List A
  unfolding sift
  decrease_key_top v = sift (length v) v 0
