-- ===== src/Eiffel/Marks.antt =====
-- Every bucket with a packet has its bit set, so that the search for the first one finds it.
use flow_bundler.Common.{
  ℕ, ◌^◌, ◌≤◌, ◌<◌, ◌≡◌, ◌≢◌, sym, ◌∙◌, List, length, length-set, get_or-set_self, get_or-set_ne,
  set, ◌==◌, if◌then◌else◌, eq_or_ne, inl, inr, arith, Bool-cases,
}
use flow_bundler.ListBucket.{ListBucket, new_bucket}
use flow_bundler.BitMap.{set_bit_map, free_bit_map}
use flow_bundler.BitMap.Links.{IsLinked, slots, slot}
use flow_bundler.BitMap.Laws.{Changed, set_bit_map_lem, free_bit_map_lem}
use flow_bundler.Eiffel.{Half, bucket_at}

-- A half with `n` buckets.
pub record IsHalf (n : ℕ) (h : Half) : Type 0 where
  pub buckets : length h.queue ≡ n
  pub linked : IsLinked h.map
  pub enough : n ≤ slots h.map
  pub small : n < 2 ^ 62
  pub within : (i : ℕ) → slot h.map i ≢ 0 → i < n
  pub marked : (i : ℕ) → i < n → (bucket_at h i).node_num ≢ 0 → slot h.map i ≡ 1

module _ (n : ℕ) (h : Half) (v : IsHalf n h) (index : ℕ) (inside : index < n) where
  bucket-set :
      (b : ListBucket) (map : List (List ℕ)) (i : ℕ)
      → bucket_at (record { queue = set h.queue index b; map = map }) i
        ≡ (if i == index then b else bucket_at h i)
  unfolding bucket_at
  bucket-set b map i = elim (eq_or_ne index i) [
    | inl same ↦
        rw (sym same, get_or-set_self h.queue index b (new_bucket 0) (omega (arith, v.buckets)))
          (ground arith)
    | inr other ↦ rw (get_or-set_ne h.queue index i b (new_bucket 0) other) (ground arith)
  ]

  set-Changed : Changed 1 index h.map (set_bit_map index h.map)
  set-Changed =
      set_bit_map_lem index h.map v.linked (omega (arith, v.enough)) (omega (arith, v.small))

  free-Changed : Changed 0 index h.map (free_bit_map index h.map)
  free-Changed =
      free_bit_map_lem index h.map v.linked (omega (arith, v.enough)) (omega (arith, v.small))

  pub set-IsHalf :
      (b : ListBucket)
      → IsHalf n (record { queue = set h.queue index b; map = set_bit_map index h.map })
  set-IsHalf b =
      let c = set-Changed in
      record {
        buckets = length-set h.queue index b ∙ v.buckets;
        linked = c.linked;
        enough = omega (arith, c.same, v.enough);
        small = v.small;
        within = λ i used. ground (arith, c.only i, v.within i, used, inside);
        marked = λ i hi some. c.only i ∙ elim (eq_or_ne i index) [
          | inl same ↦ ground arith
          | inr other ↦
              ground (arith, v.marked i hi, bucket-set b (set_bit_map index h.map) i, some)
        ];
      }

  -- The bucket may have become empty.
  pub serve-IsHalf :
      (b : ListBucket)
      → slot h.map index ≡ 1
      → IsHalf n (record {
        queue = set h.queue index b;
        map = if b.node_num == 0 then free_bit_map index h.map else h.map;
      })
  serve-IsHalf b found =
      let c = free-Changed in
      elim (Bool-cases (b.node_num == 0)) [
        | inl empty ↦ rw empty (record {
          buckets = length-set h.queue index b ∙ v.buckets;
          linked = c.linked;
          enough = omega (arith, c.same, v.enough);
          small = v.small;
          within = λ i used. ground (arith, c.only i, v.within i, used, inside);
          marked = λ i hi used. c.only i ∙ elim (eq_or_ne i index) [
            | inl same ↦
                absurd (used (ground (arith, bucket-set b (free_bit_map index h.map) i, empty)))
            | inr other ↦
                ground (arith, v.marked i hi, bucket-set b (free_bit_map index h.map) i, used)
          ];
        })
        | inr left ↦ rw left (record {
          buckets = length-set h.queue index b ∙ v.buckets;
          linked = v.linked;
          enough = v.enough;
          small = v.small;
          within = v.within;
          marked = λ i hi used. elim (eq_or_ne i index) [
            | inl same ↦ rw same found
            | inr other ↦ ground (arith, v.marked i hi, bucket-set b h.map i, used)
          ];
        })
      ]
