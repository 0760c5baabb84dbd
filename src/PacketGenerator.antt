-- ===== src/PacketGenerator.antt =====
-- bess/core/utils/PacketGenerator.{h,cc} and the generator of bess/core/utils/random.h that it uses. The
-- string of templates is taken to hold an Ethernet and an IPv4 header, or to be empty; of a template
-- the model keeps its length and the two addresses. The pool of packet buffers is an argument.
pub mod Templates
pub mod Turns
use flow_bundler.Common.{
  ℕ, zero, suc, ◌+◌, ◌-◌, ◌*◌, ◌/◌, ◌^◌, List, [], ◌∷◌, ◌++◌, drop, get_or, set, replicate, bit_or,
  u32, u64, ltb, ◌==◌, not, if◌then◌else◌, Bool, true, false, Option, none, some,
}
use flow_bundler.CircularQueue.{CircularQueue, pop, elements_num}
use flow_bundler.EasyMap.{Doubles, one_double}
use flow_bundler.Packet.{Packet, PacketBatch, clear, set_cnt}

-- `seed_ = seed_ * 1103515245 + 12345`
unfoldable pub next_seed : ℕ → ℕ
next_seed seed = u64 (u64 (seed * 1103515245) + 12345)

-- Each call returns its number and the new seed.
unfoldable pub random_get : ℕ → ℕ × ℕ
unfolding next_seed
random_get seed = let seed' = next_seed seed in (u32 (seed' / 2 ^ 32), seed')

unfoldable pub get_range : Doubles → ℕ → ℕ → ℕ × ℕ
unfolding next_seed
get_range fp seed range =
    let seed' = next_seed seed in
    let d = bit_or (seed' / 2 ^ 12) 0x3ff0_0000_0000_0000 in
    (u32 (fp.to_u64 (fp.mul (fp.sub d one_double) (fp.of_u64 range))), seed')

pub record PacketTemplate : Type 0 where
  pub size : ℕ  -- uint16_t
  pub src : ℕ  -- be32_t
  pub dst : ℕ  -- be32_t

abbrev pub empty_template : PacketTemplate
empty_template = record { size = 0; src = 0; dst = 0 }

pub record PacketGenerator : Type 0 where
  pub generate_burst : ℕ  -- uint32_t
  pub generate_pkt_size : ℕ  -- uint32_t
  pub num_templates : ℕ  -- uint64_t
  pub templates : List PacketTemplate
  pub flows_per_dst : ℕ  -- uint32_t
  pub seed : ℕ  -- uint64_t, of `random`

abbrev pub max_template_size : ℕ
max_template_size = 1536

-- The inner loop of the constructor, for the flows of a destination that are left, from the `j`th on.
unfoldable pub fill_group : ℕ → ℕ → ℕ → ℕ → ℕ → ℕ → List PacketTemplate → List PacketTemplate
fill_group zero i flows_per_dst j len dst ts = ts
fill_group (suc left) i flows_per_dst j len dst ts =
    let k = u32 (u32 (i * flows_per_dst) + j) in
    fill_group left i flows_per_dst (j + 1) len dst
      (set ts k (record { size = len; src = k; dst = dst }))

-- The outer loop, for the destinations that are left, from the `i`th on.
module _ (fp : Doubles) (flows_per_dst len : ℕ) where
  unfoldable pub fill_groups : ℕ → ℕ → ℕ → List PacketTemplate → List PacketTemplate × ℕ
  unfolding fill_group
  fill_groups zero i seed ts = (ts, seed)
  fill_groups (suc left) i seed ts =
      let (dst, seed') = get_range fp seed (2 ^ 32 - 1) in
      fill_groups left (i + 1) seed' (fill_group flows_per_dst i flows_per_dst 0 len dst ts)

-- `templates_len` is the length of the string, and `alloc` says whether a buffer for a packet could be
-- had. `none` where the source divides by zero.
unfoldable pub new_generator : Doubles → Bool → ℕ → ℕ → ℕ → ℕ → Option PacketGenerator
unfolding fill_groups
new_generator fp alloc generate_burst templates_len n flows_per_dst =
    let seed : ℕ = 0xbaad_f00d_dead_beef in
    let len = if ltb max_template_size templates_len then max_template_size else templates_len in
    let (ts, seed') =
      fill_groups fp flows_per_dst len (n / flows_per_dst) 0 seed (replicate n empty_template) in
    let empty : PacketGenerator = record {
      generate_burst = generate_burst;
      generate_pkt_size = 1500;
      num_templates = n;
      templates = replicate n empty_template;
      flows_per_dst = flows_per_dst;
      seed = seed;
    } in
    if not alloc
    then some empty
    else if flows_per_dst == 0
    then none
    else some (record empty { templates = ts; seed = seed' })

unfoldable pub generate_num : PacketGenerator → CircularQueue ℕ → ℕ
generate_num g flow_to_gen =
    let waiting = elements_num flow_to_gen in
    if ltb g.generate_burst waiting then g.generate_burst else waiting

-- `alloc` is `AllocBulk` of the pool: for a number of packets and their length, the packets, if it has
-- as many.
unfoldable pub alloc_packets :
    PacketGenerator
    → CircularQueue ℕ
    → (ℕ → ℕ → Option (List Packet))
    → PacketBatch
    → Bool × PacketBatch
alloc_packets g flow_to_gen alloc batch =
    let n = generate_num g flow_to_gen in
    elim (alloc n g.generate_pkt_size) [
      | none ↦ (false, clear batch)
      | some pkts ↦ (true, record batch { cnt = n; pkts = pkts ++ drop n batch.pkts })
    ]

abbrev pub no_packet : Packet
no_packet = record { buffer = 0; total_len = 0; src = 0; dst = 0 }

-- What becomes of a packet: an empty template leaves the addresses that its buffer held before.
unfoldable pub rewritten : PacketGenerator → ℕ → Packet → Packet
rewritten g pos pkt =
    let t = get_or g.templates pos empty_template in
    record pkt {
      total_len = g.generate_pkt_size;
      src = if t.size == 0 then pkt.src else t.src;
      dst = if t.size == 0 then pkt.dst else t.dst;
    }

-- The loop of `RewriteUsingSingleTemplate`, for the packets that are left, from the `i`th on.
unfoldable pub rewrite_loop :
    ℕ → ℕ → PacketGenerator → CircularQueue ℕ → List Packet → CircularQueue ℕ × List Packet
unfolding rewritten
rewrite_loop zero i g flow_to_gen pkts = (flow_to_gen, pkts)
rewrite_loop (suc left) i g flow_to_gen pkts =
    let (pos, flow_to_gen') = pop 0 flow_to_gen in
    rewrite_loop left (i + 1) g flow_to_gen'
      (set pkts i (rewritten g pos (get_or pkts i no_packet)))

unfoldable pub rewrite_using_single_template :
    PacketGenerator → CircularQueue ℕ → PacketBatch → CircularQueue ℕ × PacketBatch
unfolding rewrite_loop
rewrite_using_single_template g flow_to_gen batch =
    let (flow_to_gen', pkts) = rewrite_loop batch.cnt 0 g flow_to_gen batch.pkts in
    (flow_to_gen', record batch { pkts = pkts })

unfoldable pub set_generate_burst : PacketGenerator → ℕ → PacketGenerator
set_generate_burst g burst = record g { generate_burst = burst }

unfoldable pub set_generate_size : PacketGenerator → ℕ → PacketGenerator
set_generate_size g size = record g { generate_pkt_size = size }
