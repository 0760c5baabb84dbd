-- ===== src/Carousel/Wheel.antt =====
-- The ring of Carousel as a calendar: the packets that wait for each slot of time.
use flow_bundler.Common.{
  ℕ, ◌+◌, ◌-◌, ◌%◌, ◌^◌, ◌≤◌, ◌<◌, ◌≡◌, ◌≢◌, refl, sym, ap, ◌∙◌, List, [], length, length-set,
  get_or-set_self, get_or-set_ne, sum_by, sum_by-set, ltb, leb, ◌&&◌, if◌then◌else◌, Bool, true,
  inl, inr, Bool-cases, lt_or_le, eq_or_ne, arith,
}
use flow_bundler.CircularQueue.Window.{mod-ne}
use flow_bundler.ListBucket.{PacketNode, ListShared, ListBucket, new_bucket}
use flow_bundler.ListBucket.Laws.{IsListBucket}
use flow_bundler.Carousel.{Carousel, bucket_at, set_bucket, advance}
use native.Mathlib.Nat.{mod-lt, add-mod_right}

-- The clock is some slots away from its wrap-around.
pub record IsWheel (st : Carousel) : Type 0 where
  pub some_slot : 0 < st.slots
  pub step : 0 < st.granularity
  pub buckets : length st.queue ≡ st.slots
  pub counted : (i : ℕ) → IsListBucket (bucket_at st i)
  pub early : st.header_ts + st.slots < 2 ^ 64

-- The slots that have a bucket.
abbrev pub covers : Carousel → ℕ → Bool
covers st s = leb st.header_ts s && ltb s (st.header_ts + st.slots)

-- The packets that wait for slot `s` of time.
unfoldable pub queued : Carousel → ℕ → List PacketNode
queued st s = if covers st s then (bucket_at st (s % st.slots)).nodes else []

-- The packets in all buckets.
unfoldable pub waiting : Carousel → ℕ
waiting st = sum_by (λ (b : ListBucket). length b.nodes) st.queue

pub index_lt : {st : Carousel} → IsWheel st → (s : ℕ) → s % st.slots < length st.queue
index_lt v s = rw v.buckets (mod-lt s v.some_slot)

-- Slots that have a bucket do not share it.
apart : (n h s t : ℕ) → h ≤ s → s < h + n → h ≤ t → t < h + n → s ≢ t → s % n ≢ t % n
apart n h s t a b c d ne e = elim (lt_or_le s t) [
  | inl lt ↦
      let s0 : s + 0 ≡ s = omega arith in
      let t0 : s + (t - s) ≡ t = omega arith in
      mod-ne n s 0 (t - s) (omega arith) (omega arith) (rw (s0, t0) e)
  | inr ge ↦
      let lt : t < s = ground (arith, ne) in
      let t0 : t + 0 ≡ t = omega arith in
      let s0 : t + (s - t) ≡ s = omega arith in
      mod-ne n t 0 (s - t) (omega arith) (omega arith) (rw (s0, t0) (sym e))
]

pub bucket_at-set_bucket :
    (st : Carousel) (i : ℕ) (shared : ListShared) (b : ListBucket)
    → i < length st.queue
    → bucket_at (set_bucket st i shared b) i ≡ b
unfolding bucket_at set_bucket
bucket_at-set_bucket st i shared b h = get_or-set_self st.queue i b (new_bucket 0) h

bucket_at-set_bucket_ne :
    (st : Carousel) (i j : ℕ) (shared : ListShared) (b : ListBucket)
    → i ≢ j
    → bucket_at (set_bucket st i shared b) j ≡ bucket_at st j
unfolding bucket_at set_bucket
bucket_at-set_bucket_ne st i j shared b h = get_or-set_ne st.queue i j b (new_bucket 0) h

pub set_bucket-IsWheel :
    (st : Carousel) (i : ℕ) (shared : ListShared) (b : ListBucket)
    → i < length st.queue
    → IsListBucket b
    → IsWheel st
    → IsWheel (set_bucket st i shared b)
set_bucket-IsWheel st i shared b inside ok v = record {
  some_slot = unfold set_bucket in v.some_slot;
  step = unfold set_bucket in v.step;
  buckets = unfold set_bucket in length-set st.queue i b ∙ v.buckets;
  counted = λ j. elim (eq_or_ne i j) [
    | inl e ↦ rw (← e) (rw (bucket_at-set_bucket st i shared b inside) ok)
    | inr ne ↦ rw (bucket_at-set_bucket_ne st i j shared b ne) (v.counted j)
  ];
  early = unfold set_bucket in v.early;
}

pub waiting-set_bucket :
    (st : Carousel) (i : ℕ) (shared : ListShared) (b : ListBucket)
    → i < length st.queue
    → waiting (set_bucket st i shared b) + length (bucket_at st i).nodes
      ≡ waiting st + length b.nodes
unfolding waiting set_bucket bucket_at
waiting-set_bucket st i shared b h =
    sum_by-set (λ (x : ListBucket). length x.nodes) st.queue i b (new_bucket 0) h

queued-set :
    (st : Carousel) (i t : ℕ) (shared : ListShared) (b : ListBucket)
    → queued (set_bucket st i shared b) t
      ≡ (if covers st t then (bucket_at (set_bucket st i shared b) (t % st.slots)).nodes else [])
unfolding queued set_bucket bucket_at
queued-set st i t shared b = refl

module _ (st : Carousel) (v : IsWheel st) (s : ℕ) (inside : covers st s ≡ true) where
  pub queued_inside : queued st s ≡ (bucket_at st (s % st.slots)).nodes
  unfolding queued
  queued_inside = rw (inside) refl

  module _ (shared : ListShared) (b : ListBucket) where
    pub queued-set_bucket : queued (set_bucket st (s % st.slots) shared b) s ≡ b.nodes
    queued-set_bucket =
        let at = bucket_at-set_bucket st (s % st.slots) shared b (index_lt v s) in
        unfold queued in (unfold set_bucket in rw (inside) (ap (λ (x : ListBucket). x.nodes) at))

    pub queued-set_bucket_ne :
        (t : ℕ) → t ≢ s → queued (set_bucket st (s % st.slots) shared b) t ≡ queued st t
    queued-set_bucket_ne t ne =
        queued-set st (s % st.slots) t shared b ∙ elim (Bool-cases (covers st t)) [
          | inl here ↦
              let other : s % st.slots ≢ t % st.slots =
                apart st.slots st.header_ts s t (ground arith) (ground arith) (ground arith)
                  (ground arith) (λ e. ne (sym e)) in
              unfold queued in
              rw (here, bucket_at-set_bucket_ne st (s % st.slots) (t % st.slots) shared b other)
                refl
          | inr gone ↦ unfold queued in rw gone refl
        ]

module _ (st : Carousel) (v : IsWheel st) (room : st.header_ts + st.slots + 1 < 2 ^ 64) where
  pub header_ts-advance : (advance st).header_ts ≡ st.header_ts + 1
  unfolding advance
  header_ts-advance = omega (arith, v.some_slot)

  pub advance-IsWheel : IsWheel (advance st)
  unfolding advance bucket_at
  advance-IsWheel = record {
    some_slot = v.some_slot;
    step = v.step;
    buckets = v.buckets;
    counted = v.counted;
    early = omega (arith, v.some_slot);
  }

  queued-advance_cases :
      (t : ℕ)
      → queued (advance st) t ≡ (
          if leb (st.header_ts + 1) t && ltb t (st.header_ts + 1 + st.slots)
          then (bucket_at st (t % st.slots)).nodes
          else [])
  queued-advance_cases t =
      rw (← header_ts-advance) (unfold queued in (unfold advance in (unfold bucket_at in refl)))

  -- The bucket that the head leaves becomes that of the last slot.
  pub queued-advance :
      (bucket_at st (st.header_ts % st.slots)).nodes ≡ []
      → (t : ℕ) → queued (advance st) t ≡ queued st t
  unfolding queued
  queued-advance empty t = queued-advance_cases t ∙ elim (eq_or_ne t st.header_ts) [
    | inl e ↦ rw (e, empty) (ground arith)
    | inr ne ↦ elim (eq_or_ne t (st.header_ts + st.slots)) [
      | inl e ↦ rw (e, add-mod_right st.header_ts st.slots, empty) (ground arith)
      | inr other ↦ ground (arith, ne, other)
    ]
  ]

-- A state that differs in fields that have no part in the calendar.
pub record SameRing (st st' : Carousel) : Type 0 where
  pub queue : st'.queue ≡ st.queue
  pub header_ts : st'.header_ts ≡ st.header_ts
  pub granularity : st'.granularity ≡ st.granularity
  pub slots : st'.slots ≡ st.slots

module _ {st st' : Carousel} (r : SameRing st st') where
  pub queued-SameRing : (s : ℕ) → queued st' s ≡ queued st s
  unfolding queued bucket_at
  queued-SameRing s = rw (r.queue, r.header_ts, r.slots) refl

  pub waiting-SameRing : waiting st' ≡ waiting st
  unfolding waiting
  waiting-SameRing = rw (r.queue) refl

  pub IsWheel-SameRing : IsWheel st → IsWheel st'
  unfolding bucket_at
  IsWheel-SameRing v = record {
    some_slot = rw (r.slots) v.some_slot;
    step = rw (r.granularity) v.step;
    buckets = rw (r.queue, r.slots) v.buckets;
    counted = λ i. rw (r.queue) (v.counted i);
    early = rw (r.header_ts, r.slots) v.early;
  }
