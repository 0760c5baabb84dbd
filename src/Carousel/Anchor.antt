-- ===== src/Carousel/Anchor.antt =====
-- The head of the ring moves only while no packet waits.
use flow_bundler.Common.{
  ℕ, ◌+◌, ◌/◌, ◌%◌, ◌^◌, ◌≤◌, ◌<◌, ◌≡◌, refl, sym, ◌∙◌, [], length, nil_of_length, get_or-sum_by-le,
  ◌==◌, inl, inr, Bool-cases, arith,
}
use flow_bundler.ListBucket.{ListBucket, new_bucket}
use flow_bundler.Carousel.{Carousel, bucket_at, anchor}
use flow_bundler.Carousel.Wheel.{IsWheel, covers, queued, waiting, index_lt}
use flow_bundler.Carousel.Insert.{Kept, self_Kept, Unmoved}

-- `packets_num` is never below the number of packets that wait.
pub record IsCarousel (st : Carousel) : Type 0 where
  pub wheel : IsWheel st
  pub counted : waiting st ≤ st.packets_num

pub length-queued-le : (st : Carousel) → IsWheel st → (s : ℕ) → length (queued st s) ≤ waiting st
unfolding queued waiting bucket_at
length-queued-le st v s = elim (Bool-cases (covers st s)) [
  | inl here ↦ rw (here) (
      get_or-sum_by-le (λ (b : ListBucket). length b.nodes) st.queue (s % st.slots) (new_bucket 0)
        (index_lt v s))
  | inr gone ↦ rw gone (omega arith)
]

pub none_queued : (st : Carousel) → IsWheel st → waiting st ≡ 0 → (s : ℕ) → queued st s ≡ []
none_queued st v e s = nil_of_length (queued st s) (omega (arith, length-queued-le st v s))

module _ (st : Carousel) (v : IsCarousel st) (now : ℕ)
    (late : now / st.granularity + st.slots < 2 ^ 64) where
  moved-IsWheel : IsWheel (record st { header_ts = now / st.granularity })
  unfolding bucket_at
  moved-IsWheel =
      let w = v.wheel in
      record {
        some_slot = w.some_slot;
        step = w.step;
        buckets = w.buckets;
        counted = w.counted;
        early = late;
      }

  waiting_moved : waiting (record st { header_ts = now / st.granularity }) ≡ waiting st
  unfolding waiting
  waiting_moved = refl

  -- The head moves only if no packet waits, so that every slot keeps its packets.
  pub anchor-Unmoved : Unmoved st (anchor st now)
  unfolding anchor
  anchor-Unmoved = elim (Bool-cases (st.packets_num == 0)) [
    | inl e ↦
        let none_left : waiting st ≡ 0 = ground (arith, v.counted) in
        rw e (record {
          same = λ s.
              none_queued (record st { header_ts = now / st.granularity }) moved-IsWheel
                (waiting_moved ∙ none_left) s
              ∙ sym (none_queued st v.wheel none_left s);
          wheel = moved-IsWheel;
          total = waiting_moved;
        })
    | inr e ↦ rw e (record { same = λ s. refl; wheel = v.wheel; total = refl })
  ]

pub anchor-Kept : (st : Carousel) (now : ℕ) → Kept st (anchor st now)
unfolding anchor
anchor-Kept st now = elim (Bool-cases (st.packets_num == 0)) [
  | inl e ↦
      rw e
        (record { granularity = refl; slots = refl; packets_num = refl; max_dequeue_burst = refl })
  | inr e ↦ rw e (self_Kept st)
]
