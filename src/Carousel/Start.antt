-- ===== src/Carousel/Start.antt =====
-- `Init` of Carousel.
use flow_bundler.Common.{
  ℕ, zero, suc, ◌+◌, ◌*◌, ◌/◌, ◌^◌, ◌<◌, ◌≡◌, refl, subst, [], length, length-replicate, replicate,
  get_or, sum_by-replicate, u32, ltb, ◌==◌, true, inl, inr, Bool-cases, arith,
}
use flow_bundler.Packet.{max_burst}
use flow_bundler.ListBucket.{ListShared, ListBucket, new_bucket}
use flow_bundler.ListBucket.Laws.{IsListBucket}
use flow_bundler.Carousel.{Carousel, bucket_at}
use flow_bundler.Carousel.Setup.{CarouselArg, acquired, ready, initial_state, init}
use flow_bundler.Carousel.Wheel.{IsWheel, waiting}
use flow_bundler.Carousel.Anchor.{none_queued}
use flow_bundler.Carousel.Turns.{Between}

new-IsListBucket : (max_bytes : ℕ) → IsListBucket (new_bucket max_bytes)
new-IsListBucket max_bytes = record { counts = refl; small = omega arith }

-- Whatever the index, what is there is new.
get_or-replicate_any {ℓ κ} :
    {A : Type ℓ} (P : A → Type κ) (n i : ℕ) (a d : A) → P a → P d → P (get_or (replicate n a) i d)
get_or-replicate_any P zero i a d p q = q
get_or-replicate_any P (suc n) zero a d p q = p
get_or-replicate_any P (suc n) (suc i) a d p q = get_or-replicate_any P n i a d p q

waiting-initial_state :
    (arg : CarouselArg) (statics : ListShared) (ns uuid : ℕ)
    → waiting (initial_state arg statics ns uuid) ≡ 0
unfolding waiting initial_state
waiting-initial_state arg statics ns uuid =
    sum_by-replicate (λ (b : ListBucket). length b.nodes) arg.slots
      (new_bucket (u32 (arg.max_pkts_kbytes * 1000))) refl

module _ (arg : CarouselArg) (statics : ListShared) (ns uuid : ℕ) (step : 0 < arg.granularity)
    (some_slot : 0 < arg.slots) (early : ns / arg.granularity + arg.slots < 2 ^ 64) where
  initial-IsWheel : IsWheel (initial_state arg statics ns uuid)
  unfolding initial_state bucket_at
  initial-IsWheel =
      let max_bytes = u32 (arg.max_pkts_kbytes * 1000) in
      record {
        some_slot = some_slot;
        step = step;
        buckets = length-replicate arg.slots (new_bucket max_bytes);
        counted = λ i.
            get_or-replicate_any IsListBucket arg.slots i (new_bucket max_bytes) (new_bucket 0)
              (new-IsListBucket max_bytes) (new-IsListBucket 0);
        early = early;
      }

  initial-Between : Between [] (initial_state arg statics ns uuid)
  initial-Between =
      let e = waiting-initial_state arg statics ns uuid in
      record {
        sound = record { wheel = initial-IsWheel; counted = omega (arith, e) };
        due = λ s. rw (none_queued (initial_state arg statics ns uuid) initial-IsWheel e s) tt;
        burst = unfold initial_state in omega arith;
      }

ready_inj : {st st' : Carousel} → ready st ≡ ready st' → st ≡ st'
ready_inj e = cc

pub init-Between :
    (arg : CarouselArg) (statics : ListShared) (ns uuid : ℕ) (start : Carousel)
    → init arg true acquired statics ns uuid ≡ ready start
    → 0 < arg.slots
    → ns / arg.granularity + arg.slots < 2 ^ 64
    → Between [] start
unfolding init
init-Between arg statics ns uuid start e some_slot early =
    elim (Bool-cases (ltb max_burst arg.generate_burst)) [
      | inl much ↦ let off = rw much at e in cc
      | inr few ↦ elim (Bool-cases (arg.granularity == 0)) [
        | inl nothing ↦ let off = rw (few, nothing) at e in cc
        | inr some_step ↦
            subst (Between []) (ready_inj (rw (few, some_step) at e))
              (initial-Between arg statics ns uuid (ground arith) some_slot early)
      ]
    ]
