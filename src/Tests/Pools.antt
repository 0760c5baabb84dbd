-- ===== src/Tests/Pools.antt =====
-- A pool of three blocks.
use flow_bundler.Common.{◌≡◌, ◌<◌, refl, arith, some, true}
use flow_bundler.MemoryPool.{MemoryPool, create, link_blocks, get_element, put_element, get_num}
use flow_bundler.MemoryPool.Chain.{Fresh}
use flow_bundler.MemoryPool.Laws.{
  IsPool, IsOwned, first_blocks, create-IsPool, get_element-some, get_element-owns, put_element-own,
  get_num-block_num,
}

abbrev three_blocks : MemoryPool
three_blocks = create 3 7

abbrev two_left : MemoryPool
two_left = (get_element three_blocks).1

two_left-IsPool : IsPool two_left (first_blocks 2)
two_left-IsPool =
    (get_element-some three_blocks 4 (first_blocks 2) (create-IsPool 3 7 (omega arith))).1

two_left-IsOwned : IsOwned two_left 4
two_left-IsOwned =
    get_element-owns three_blocks 4 (first_blocks 2) (create-IsPool 3 7 (omega arith))

apart : Fresh 4 (first_blocks 2)
apart = (omega arith, (omega arith, tt))

two_left-size : two_left.size ≡ 3
unfolding create link_blocks get_element
two_left-size = refl

put_element-own_example :
    ((put_element two_left (some 4)).0 ≡ true)
    × IsPool (put_element two_left (some 4)).1 (first_blocks 3)
put_element-own_example =
    put_element-own two_left 4 (first_blocks 2) two_left-IsPool two_left-IsOwned apart
      (omega (arith, two_left-size))

get_num-block_num_example :
    (get_num two_left ≡ two_left.block_num) × (get_num two_left < 2147483648)
get_num-block_num_example =
    get_num-block_num two_left (first_blocks 2) two_left-IsPool (omega (arith, two_left-size))
