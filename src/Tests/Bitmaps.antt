-- ===== src/Tests/Bitmaps.antt =====
-- A bitmap of two layers, with 4096 slots.
use flow_bundler.Common.{ℕ, ◌≡◌, ◌≢◌, arith, List, [], ◌∷◌, replicate, some}
use flow_bundler.BitMap.{
  zero_layers, create, locate, set_bit_map, free_bit_map, find_first, top_word,
}
use flow_bundler.BitMap.Links.{IsLinked}
use flow_bundler.Common.{refl}
use flow_bundler.BitMap.Links.{slot}
use flow_bundler.BitMap.Laws.{Changed, set_bit_map_lem, free_bit_map-set_bit_map}
use flow_bundler.BitMap.First.{IsFirst, find_first_lem}
use flow_bundler.BitMap.Size.{Created, create-Created, zero_layers-IsLinked}

abbrev words : List ℕ
words = replicate 64 0

abbrev first_layer : List (List ℕ)
first_layer = (0 ∷ []) ∷ []

clear-IsLinked : IsLinked (words ∷ first_layer)
unfolding zero_layers
clear-IsLinked = zero_layers-IsLinked 2 (omega arith)

set_bit_map_lem_example :
    Changed 1 1000 (words ∷ first_layer) (set_bit_map 1000 (words ∷ first_layer))
set_bit_map_lem_example =
    set_bit_map_lem 1000 (words ∷ first_layer) clear-IsLinked (omega arith) (omega arith)

free_bit_map-set_bit_map_example :
    let back = free_bit_map 1000 (set_bit_map 1000 (words ∷ first_layer)) in
    IsLinked back × ((j : ℕ) → slot back j ≡ slot (words ∷ first_layer) j)
free_bit_map-set_bit_map_example =
    free_bit_map-set_bit_map 1000 (words ∷ first_layer) clear-IsLinked (omega arith) (omega arith)
      refl

abbrev one_set : List (List ℕ)
one_set = set_bit_map 1000 (words ∷ first_layer)

one_set-IsLinked : IsLinked one_set
one_set-IsLinked =
    (set_bit_map_lem 1000 (words ∷ first_layer) clear-IsLinked (omega arith) (omega arith)).linked

some_set : top_word one_set ≢ 0
unfolding set_bit_map locate
some_set = omega arith

find_first_lem_example : IsFirst (find_first one_set) one_set
find_first_lem_example = find_first_lem one_set one_set-IsLinked some_set

create-Created_example : (layers : List (List ℕ)) × (create 100 ≡ some layers) × Created 100 layers
create-Created_example = create-Created 100 (omega arith) (omega arith)
