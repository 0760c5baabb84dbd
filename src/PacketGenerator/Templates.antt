-- ===== src/PacketGenerator/Templates.antt =====
-- The templates that the constructor makes.
use flow_bundler.Common.{
  ℕ, zero, suc, ◌+◌, ◌-◌, ◌*◌, ◌/◌, ◌^◌, ◌≤◌, ◌<◌, ◌≡◌, refl, ap, subst, ◌∙◌, List, length,
  length-set, length-replicate, replicate, get_or, set, get_or-set_self, get_or-set_ne,
  get_or-replicate, u32, ltb, leb, ◌==◌, ◌&&◌, if◌then◌else◌, true, false, some, inl, inr, lt_or_le,
  eq_or_ne, arith,
}
use native.Mathlib.Nat.{le-div_iff_mul-le}
use flow_bundler.EasyMap.{Doubles}
use flow_bundler.PacketGenerator.{
  get_range, PacketTemplate, PacketGenerator, empty_template, max_template_size, fill_group,
  fill_groups, new_generator,
}

-- What the inner loop does to each template.
get_or-fill_group :
    (left i flows_per_dst j len dst : ℕ) (ts : List PacketTemplate) (k : ℕ)
    → i * flows_per_dst + j + left < 2 ^ 32
    → i * flows_per_dst + j + left ≤ length ts
    → get_or (fill_group left i flows_per_dst j len dst ts) k empty_template ≡ (
        if leb (i * flows_per_dst + j) k && ltb k (i * flows_per_dst + j + left)
        then record { size = len; src = k; dst = dst }
        else get_or ts k empty_template)
unfolding fill_group
get_or-fill_group zero i fpd j len dst ts k small room = ground arith
get_or-fill_group (suc left) i fpd j len dst ts k small room =
    let at = i * fpd + j in
    let exact : u32 (u32 (i * fpd) + j) ≡ at = omega arith in
    let t : PacketTemplate = record { size = len; src = at; dst = dst } in
    let next =
      get_or-fill_group left i fpd (j + 1) len dst (set ts at t) k (omega arith)
        (omega (arith, length-set ts at t)) in
    rw exact (elim (eq_or_ne at k) [
      | inl e ↦
          let after : (leb (i * fpd + (j + 1)) k && ltb k (i * fpd + (j + 1) + left)) ≡ false =
            ground arith in
          let here : (leb at k && ltb k (at + suc left)) ≡ true = ground arith in
          let put =
            subst
              (λ n.
                get_or (set ts at t) n empty_template ≡ record { size = len; src = n; dst = dst })
              e (get_or-set_self ts at t empty_template (omega arith)) in
          rw (next, after, here) put
      | inr ne ↦ ground (arith, next, get_or-set_ne ts at k t empty_template ne, ne)
    ])

length-fill_group :
    (left i flows_per_dst j len dst : ℕ) (ts : List PacketTemplate)
    → length (fill_group left i flows_per_dst j len dst ts) ≡ length ts
unfolding fill_group
length-fill_group zero i fpd j len dst ts = refl
length-fill_group (suc left) i fpd j len dst ts =
    let at = u32 (u32 (i * fpd) + j) in
    let t : PacketTemplate = record { size = len; src = at; dst = dst } in
    length-fill_group left i fpd (j + 1) len dst (set ts at t) ∙ length-set ts at t

quot_lt : (m n k : ℕ) → 0 < n → k < m * n → k / n < m
quot_lt m n k pos h = elim (lt_or_le (k / n) m) [
  | inl lt ↦ lt
  | inr ge ↦ let le : m * n ≤ k = (le-div_iff_mul-le pos).0 ge in absurd (omega arith)
]

-- The address of the `i`th destination from a seed on.
unfoldable pub nth_dst : Doubles → ℕ → ℕ → ℕ
nth_dst fp seed zero = (get_range fp seed (2 ^ 32 - 1)).0
nth_dst fp seed (suc i) = nth_dst fp (get_range fp seed (2 ^ 32 - 1)).1 i

module _ (fp : Doubles) (fpd len : ℕ) where
  -- The template of flow `k`, where the groups of the destinations from `i` on have been filled.
  abbrev filled_at : ℕ → ℕ → ℕ → List PacketTemplate → ℕ → PacketTemplate
  filled_at left i seed ts k =
      if leb (i * fpd) k && ltb k ((i + left) * fpd)
      then record { size = len; src = k; dst = nth_dst fp seed (k / fpd - i) }
      else get_or ts k empty_template

  get_or-fill_groups :
      (left i seed : ℕ) (ts : List PacketTemplate) (k : ℕ)
      → 0 < fpd
      → (i + left) * fpd < 2 ^ 32
      → (i + left) * fpd ≤ length ts
      → get_or (fill_groups fp fpd len left i seed ts).0 k empty_template
        ≡ filled_at left i seed ts k
  unfolding fill_groups nth_dst
  get_or-fill_groups zero i seed ts k pos small room = ground arith
  get_or-fill_groups (suc left) i seed ts k pos small room =
      let (dst, seed') = get_range fp seed (2 ^ 32 - 1) in
      let ts' = fill_group fpd i fpd 0 len dst ts in
      let split : (i + suc left) * fpd ≡ (i + 1 + left) * fpd = ap (λ n. n * fpd) (omega arith) in
      let step : i * fpd + 0 + fpd ≡ (i + 1) * fpd = omega arith in
      let le : (i + 1) * fpd ≤ (i + suc left) * fpd = grind arith in
      let next =
        get_or-fill_groups left (i + 1) seed' ts' k pos (omega arith)
          (omega (arith, length-fill_group fpd i fpd 0 len dst ts)) in
      let group = get_or-fill_group fpd i fpd 0 len dst ts k (omega arith) (omega arith) in
      next ∙ elim (lt_or_le k (i * fpd)) [
        | inl below ↦ rw (group) (ground (arith, le))
        | inr from ↦ elim (lt_or_le k ((i + 1) * fpd)) [
          | inl inside ↦
              let first : k / fpd - i ≡ 0 = omega (arith, quot_lt (i + 1) fpd k pos inside) in
              let later : (leb ((i + 1) * fpd) k && ltb k ((i + 1 + left) * fpd)) ≡ false =
                ground arith in
              let own : (leb (i * fpd + 0) k && ltb k (i * fpd + 0 + fpd)) ≡ true = ground arith in
              let all : (leb (i * fpd) k && ltb k ((i + suc left) * fpd)) ≡ true =
                ground (arith, le) in
              rw (later, group, own, all, first, nth_dst) refl
          | inr behind ↦
              let rest : k / fpd - i ≡ suc (k / fpd - (i + 1)) =
                let q : i + 1 ≤ k / fpd = (le-div_iff_mul-le pos).1 behind in omega arith in
              let own : (leb (i * fpd + 0) k && ltb k (i * fpd + 0 + fpd)) ≡ false = ground arith in
              let same : (leb (i * fpd) k && ltb k ((i + suc left) * fpd))
                  ≡ (leb ((i + 1) * fpd) k && ltb k ((i + 1 + left) * fpd)) =
                ground (arith, split) in
              rw (same, group, own, rest, nth_dst) refl
        ]
      ]

-- The number of templates that the constructor fills: those of whole groups.
abbrev pub grouped : ℕ → ℕ → ℕ
grouped n flows_per_dst = n / flows_per_dst * flows_per_dst

abbrev pub template_len : ℕ → ℕ
template_len len = if ltb max_template_size len then max_template_size else len

abbrev pub first_seed : ℕ
first_seed = 0xbaad_f00d_dead_beef

-- The constructor returns. Each flow of a whole group of `flows_per_dst` flows has a template with its own
-- number as the source and the destination of its group, the `i`th number that the generator of random
-- numbers gives for group `i`; the flows that are left over have an empty template. A buffer must be had
-- for the packet that it works on, and `flows_per_dst` not be 0.
pub new_generator_lem :
    (fp : Doubles) (generate_burst templates_len n flows_per_dst : ℕ)
    → 0 < flows_per_dst
    → n < 2 ^ 32
    → (g : PacketGenerator) × (new_generator fp true generate_burst templates_len n flows_per_dst
        ≡ some g)
      × ((k : ℕ)
          → get_or g.templates k empty_template ≡ (
              if ltb k (grouped n flows_per_dst)
              then record {
                size = template_len templates_len;
                src = k;
                dst = nth_dst fp first_seed (k / flows_per_dst);
              }
              else empty_template))
unfolding new_generator
new_generator_lem fp generate_burst templates_len n fpd pos small =
    let len = template_len templates_len in
    let ts = fill_groups fp fpd len (n / fpd) 0 first_seed (replicate n empty_template) in
    let some_flow : (fpd == 0) ≡ false = ground arith in
    let le : grouped n fpd ≤ n = (le-div_iff_mul-le pos).0 (omega arith) in
    (
      record {
        generate_burst = generate_burst;
        generate_pkt_size = 1500;
        num_templates = n;
        templates = ts.0;
        flows_per_dst = fpd;
        seed = ts.1;
      },
      rw some_flow refl,
      λ k.
          let filled =
            get_or-fill_groups fp fpd len (n / fpd) 0 first_seed (replicate n empty_template) k pos
              (omega (arith, le)) (omega (arith, le, length-replicate n empty_template)) in
          ground (arith, filled, get_or-replicate n k empty_template),
    )
