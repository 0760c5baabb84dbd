-- ===== src/Carousel/Serve.antt =====
-- What `Dequeue` does to the calendar: its outcomes, whatever the head passes over.
use flow_bundler.Common.{
  ℕ, ◌+◌, ◌%◌, ◌^◌, ◌≤◌, ◌<◌, ◌≡◌, ◌≢◌, ◌⊎◌, refl, sym, ◌∙◌, [], length, min, inl, inr, arith,
}
use flow_bundler.Packet.{PacketBatch}
use flow_bundler.ListBucket.Numbers.{Sent}
use flow_bundler.Carousel.{Carousel, bucket_at, advance}
use flow_bundler.Carousel.Wheel.{IsWheel, queued, waiting, queued-advance}
use flow_bundler.Carousel.Insert.{Kept, trans_Kept}

-- No packet left.
pub record Idle (now : ℕ) (st : Carousel) (batch : PacketBatch) (out : ℕ × Carousel × PacketBatch)
    : Type 0 where
  pub number : out.0 ≡ 0
  pub batch_same : out.2 ≡ batch
  pub none_due :
      0 < st.max_dequeue_burst
      → st.max_dequeue_burst < 2 ^ 31
      → (s : ℕ) → s ≤ now
      → queued st s ≡ []
  pub same : (s : ℕ) → queued out.1 s ≡ queued st s
  pub total : waiting out.1 ≡ waiting st

-- The first packets of the earliest slot that has any left, in their order.
pub record Served (now : ℕ) (st : Carousel) (batch : PacketBatch) (out : ℕ × Carousel × PacketBatch)
    : Type 0 where
  pub slot : ℕ
  pub quota : st.max_dequeue_burst < 2 ^ 31
  pub due : slot ≤ now
  pub earlier : (s : ℕ) → s < slot → queued st s ≡ []
  pub some_left : 0 < out.0
  pub number : out.0 ≡ min st.max_dequeue_burst (length (queued st slot))
  pub moved : Sent out.0 (queued st slot) batch (queued out.1 slot) out.2
  pub others : (s : ℕ) → s ≢ slot → queued out.1 s ≡ queued st s
  pub total : waiting out.1 + out.0 ≡ waiting st

pub record Outcome (now : ℕ) (st : Carousel) (batch : PacketBatch)
    (out : ℕ × Carousel × PacketBatch) : Type 0 where
  pub wheel : IsWheel out.1
  pub kept : Kept st out.1
  pub cases : Idle now st batch out ⊎ Served now st batch out

-- Another state with the same packets in the same slots.
pub record Alike (st st' : Carousel) : Type 0 where
  pub same : (s : ℕ) → queued st' s ≡ queued st s
  pub total : waiting st' ≡ waiting st
  pub kept : Kept st st'

pub advance-Alike :
    (st : Carousel)
    → IsWheel st
    → st.header_ts + st.slots + 1 < 2 ^ 64
    → (bucket_at st (st.header_ts % st.slots)).nodes ≡ []
    → Alike st (advance st)
unfolding advance waiting
advance-Alike st v late empty = record {
  same = unfold advance in queued-advance st v late empty;
  total = refl;
  kept = record { granularity = refl; slots = refl; packets_num = refl; max_dequeue_burst = refl };
}

module _ (now : ℕ) (batch : PacketBatch) where
  -- The state before the call may be replaced by one that is alike.
  pub before-Outcome :
      (st st' : Carousel) (out : ℕ × Carousel × PacketBatch)
      → Alike st st'
      → Outcome now st' batch out
      → Outcome now st batch out
  before-Outcome st st' out a o = record {
    wheel = o.wheel;
    kept = trans_Kept a.kept o.kept;
    cases = elim (o.cases) [
      | inl i ↦ inl (record {
        number = i.number;
        batch_same = i.batch_same;
        none_due = λ pos few s le.
            sym (a.same s)
            ∙ i.none_due (rw a.kept.max_dequeue_burst pos) (rw a.kept.max_dequeue_burst few) s le;
        same = λ s. i.same s ∙ a.same s;
        total = i.total ∙ a.total;
      })
      | inr g ↦ inr (record {
        slot = g.slot;
        quota = rw (← a.kept.max_dequeue_burst) g.quota;
        due = g.due;
        earlier = λ s lt. sym (a.same s) ∙ g.earlier s lt;
        some_left = g.some_left;
        number = rw (← a.same g.slot, ← a.kept.max_dequeue_burst) g.number;
        moved = rw (← a.same g.slot) g.moved;
        others = λ s ne. g.others s ne ∙ a.same s;
        total = g.total ∙ a.total;
      })
    ];
  }

  -- So may the state after it.
  pub after-Outcome :
      (st st1 st2 : Carousel) (n : ℕ) (batch' : PacketBatch)
      → IsWheel st2
      → Alike st1 st2
      → Outcome now st batch (n, st1, batch')
      → Outcome now st batch (n, st2, batch')
  after-Outcome st st1 st2 n batch' v a o = record {
    wheel = v;
    kept = trans_Kept o.kept a.kept;
    cases = elim (o.cases) [
      | inl i ↦ inl (record {
        number = i.number;
        batch_same = i.batch_same;
        none_due = i.none_due;
        same = λ s. a.same s ∙ i.same s;
        total = a.total ∙ i.total;
      })
      | inr g ↦ inr (record {
        slot = g.slot;
        quota = g.quota;
        due = g.due;
        earlier = g.earlier;
        some_left = g.some_left;
        number = g.number;
        moved = rw (a.same g.slot) g.moved;
        others = λ s ne. a.same s ∙ g.others s ne;
        total = omega (arith, a.total, g.total);
      })
    ];
  }
