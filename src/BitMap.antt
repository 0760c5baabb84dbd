-- ===== src/BitMap.antt =====
-- bess/core/utils/flow.h: the hierarchical bitmap of the Eiffel shaper, and bess/core/modules/eiffel.cc:
-- the descent in it of `ffs`. The layers are a list from the last one, whose bits are the slots, up to
-- the first one, which is a single word.
pub mod Links
pub mod Laws
pub mod First
pub mod Size
use flow_bundler.Common.{
  ℕ, zero, suc, ◌+◌, ◌-◌, ◌*◌, ◌/◌, ◌^◌, ◌%◌, List, [], ◌∷◌, get_or, set, replicate, u64, sub64,
  shl64, not64, bit_and, bit_or, ltb, ◌==◌, if◌then◌else◌, Option, none, some,
}
use flow_bundler.Common.Bits.Scan.{ffs64}

-- The loop over `n_layers`: `none` if the fuel runs out.
unfoldable pub count_layers : ℕ → ℕ → ℕ → ℕ → Option ℕ
count_layers zero slots tmp n = none
count_layers (suc fuel) slots tmp n =
    let rest = count_layers fuel slots (u64 (tmp * 64)) (n + 1) in
    if ltb tmp slots then rest else some n

-- `bit_map[i]` has `1ull << (i * 6)` words.
unfoldable pub zero_layers : ℕ → List (List ℕ)
zero_layers zero = []
zero_layers (suc n) = replicate (shl64 1 (n * 6)) 0 ∷ zero_layers n

unfoldable pub create : ℕ → Option (List (List ℕ))
unfolding count_layers zero_layers
create slots = elim (count_layers 12 slots 1 0) [
  | none ↦ none
  | some n ↦ some (zero_layers (if slots == 1 then n + 1 else n))
]

-- The word of a layer that stands for a bit of the layer below, and the bit in this word.
unfoldable pub locate : ℕ → ℕ × ℕ
locate layer_seq =
    let tail = bit_and (u64 (layer_seq + 1)) 63 in
    let word = u64 (layer_seq + 1) / 2 ^ 6 in
    ((if tail == 0 then sub64 word 1 else word), (if tail == 0 then 63 else tail - 1))

unfoldable pub set_bit_map : ℕ → List (List ℕ) → List (List ℕ)
set_bit_map layer_seq [] = []
set_bit_map layer_seq (layer ∷ above) =
    let (word, seq) = locate layer_seq in
    let old = get_or layer word 0 in
    let above' = set_bit_map word above in
    set layer word (bit_or old (shl64 1 seq)) ∷ (if old == 0 then above' else above)

unfoldable pub free_bit_map : ℕ → List (List ℕ) → List (List ℕ)
free_bit_map layer_seq [] = []
free_bit_map layer_seq (layer ∷ above) =
    let (word, seq) = locate layer_seq in
    let new = bit_and (get_or layer word 0) (not64 (shl64 1 seq)) in
    let above' = free_bit_map word above in
    set layer word new ∷ (if new == 0 then above' else above)

-- `bit_map[0][0]`
abbrev pub top_word : List (List ℕ) → ℕ
top_word [] = 0
top_word (layer ∷ []) = get_or layer 0 0
top_word (layer ∷ u ∷ above) = top_word (u ∷ above)

-- The descent of `ffs` from a first layer that is not zero.
unfoldable pub find_first : List (List ℕ) → ℕ
find_first [] = 0
find_first (layer ∷ above) =
    let count = find_first above in count * 2 ^ 6 + ffs64 (get_or layer count 0) - 1
