-- ===== src/FlowBundler/Counters.antt =====
-- The packet counters and the bitmap against the buckets that they stand for.
use flow_bundler.Common.{
  ℕ, ◌+◌, ◌-◌, ◌^◌, ◌%◌, ◌≤◌, ◌<◌, ◌≡◌, sym, ◌∙◌, List, [], length, length-set, bit_and, bit_or,
  shl64, not64, ◌==◌, if◌then◌else◌, get_or, set, get_or-set_self, get_or-set_ne, sum_by,
  sum_by-set, eq_or_ne, inl, inr, arith,
}
use flow_bundler.Common.Bits.Digits.{bit, bit-le, bit-bit_and, bit-bit_or}
use flow_bundler.Common.Bits.Masks.{bit-two-pow, bit-complement, two-pow-le}
use flow_bundler.HbListBucket.{HbListBucket, empty_bucket}

abbrev pub nodes_of : HbListBucket → ℕ
nodes_of b = b.node_num

abbrev pub itself : ℕ → ℕ
itself n = n

-- `n_packets[q]` counts the nodes of queue `q`, `n_packets_total` all of them, and bit `q` of the
-- bitmap is set exactly while queue `q` has one.
pub record IsCounted (scale : ℕ) (queues : List (List HbListBucket)) (n_packets : List ℕ)
    (total bitmap : ℕ) : Type 0 where
  pub queue_len : length queues ≡ 64
  pub bucket_len : (q : ℕ) → q < 64 → length (get_or queues q []) ≡ 2 ^ scale
  pub count_len : length n_packets ≡ 64
  pub per_queue : (q : ℕ) → q < 64 → get_or n_packets q 0 ≡ sum_by nodes_of (get_or queues q [])
  pub all_queues : total ≡ sum_by itself n_packets
  pub bits : (q : ℕ) → q < 64 → bit q bitmap ≡ (if get_or n_packets q 0 == 0 then 0 else 1)
  pub word : bitmap < 2 ^ 64
  pub small : total < 2 ^ 32

-- Setting and clearing one bit of a word.
bit_shift : (q : ℕ) → q < 64 → shl64 1 q ≡ 2 ^ q
bit_shift q h =
    let le : 2 ^ q ≤ 2 ^ 63 = two-pow-le q 63 (omega arith) in
    let same : q % 64 ≡ q = omega arith in rw (same) (omega (arith, le))

pub bit-set_bit :
    (i q m : ℕ) → i < 64 → q < 64 → bit i (bit_or m (shl64 1 q)) ≡ (if i == q then 1 else bit i m)
bit-set_bit i q m hi hq =
    rw bit_shift (ground (arith, bit-bit_or i m (2 ^ q), bit-two-pow i q, bit-le i m))

pub bit-clear_bit :
    (i q m : ℕ)
    → i < 64
    → q < 64
    → bit i (bit_and m (not64 (shl64 1 q))) ≡ (if i == q then 0 else bit i m)
bit-clear_bit i q m hi hq =
    let le : 2 ^ q ≤ 2 ^ 63 = two-pow-le q 63 (omega arith) in
    let flip : bit i (2 ^ 64 - 1 - 2 ^ q) + bit i (2 ^ q) ≡ 1 =
      bit-complement 64 i (2 ^ q) (omega (arith, le)) hi in
    rw bit_shift
      (ground (arith, bit-bit_and i m (2 ^ 64 - 1 - 2 ^ q), flip, bit-two-pow i q, bit-le i m))

-- One bucket of a queue is replaced, and the counter of the queue follows.
module _ (scale : ℕ) (queues : List (List HbListBucket)) (n_packets : List ℕ) (total bitmap q i : ℕ)
    (b : HbListBucket) (count max_bytes : ℕ) (v : IsCounted scale queues n_packets total bitmap)
    (hq : q < 64) (hi : i < 2 ^ scale)
    (moved : count + (get_or (get_or queues q []) i (empty_bucket max_bytes)).node_num
      ≡ get_or n_packets q 0 + b.node_num) where
  abbrev queues' : List (List HbListBucket)
  queues' = set queues q (set (get_or queues q []) i b)

  per_queue' :
      (j : ℕ) → j < 64 → get_or (set n_packets q count) j 0 ≡ sum_by nodes_of (get_or queues' j [])
  per_queue' j hj = elim (eq_or_ne q j) [
    | inl same ↦
        rw
          (
            sym same,
            get_or-set_self n_packets q count 0 (omega (arith, v.count_len)),
            get_or-set_self queues q (set (get_or queues q []) i b) [] (omega (arith, v.queue_len)),
          )
          (omega (
            arith,
            moved,
            v.per_queue q hq,
            sum_by-set nodes_of (get_or queues q []) i b (empty_bucket max_bytes)
                (omega (arith, v.bucket_len q hq)),
          ))
    | inr other ↦
        rw
          (
            get_or-set_ne n_packets q j count 0 other,
            get_or-set_ne queues q j (set (get_or queues q []) i b) [] other,
          )
          (v.per_queue j hj)
  ]

  bucket_len' : (j : ℕ) → j < 64 → length (get_or queues' j []) ≡ 2 ^ scale
  bucket_len' j hj = elim (eq_or_ne q j) [
    | inl same ↦
        rw
          (
            sym same,
            get_or-set_self queues q (set (get_or queues q []) i b) [] (omega (arith, v.queue_len)),
            length-set,
          )
          (v.bucket_len q hq)
    | inr other ↦
        rw (get_or-set_ne queues q j (set (get_or queues q []) i b) [] other) (v.bucket_len j hj)
  ]

  -- The counter of the queue, the total and the bit move together.
  pub changed :
      (total' bitmap' : ℕ)
      → total' + get_or n_packets q 0 ≡ total + count
      → ((j : ℕ)
          → j < 64
          → bit j bitmap' ≡ (if j == q then (if count == 0 then 0 else 1) else bit j bitmap))
      → bitmap' < 2 ^ 64
      → total' < 2 ^ 32
      → IsCounted scale queues' (set n_packets q count) total' bitmap'
  changed total' bitmap' sum bits word small = record {
    queue_len = length-set queues q _ ∙ v.queue_len;
    bucket_len = bucket_len';
    count_len = length-set n_packets q count ∙ v.count_len;
    per_queue = per_queue';
    all_queues =
        omega
          (arith, sum_by-set itself n_packets q count 0 (omega (arith, v.count_len)), v.all_queues);
    bits = λ j hj. bits j hj ∙ elim (eq_or_ne q j) [
      | inl same ↦
          rw (sym same, get_or-set_self n_packets q count 0 (omega (arith, v.count_len)))
            (ground arith)
      | inr other ↦ rw (get_or-set_ne n_packets q j count 0 other) (ground (arith, v.bits j hj))
    ];
    word = word;
    small = small;
  }
