-- ===== src/Carousel/Loop.antt =====
-- The loop of `Dequeue`: it returns, with one of its outcomes.
use flow_bundler.Common.{
  ℕ, zero, suc, ◌+◌, ◌%◌, ◌^◌, ◌≤◌, ◌<◌, ◌≡◌, refl, ap, ◌∙◌, [], length, nil_of_length, length-drop,
  min, ltb, leb, ◌==◌, ◌&&◌, true, false, some, inl, inr, Bool-cases, lt_or_le, arith,
}
use flow_bundler.Packet.{PacketBatch}
use flow_bundler.ListBucket.{ListShared, ListBucket, dequeue_packet_bulk}
use flow_bundler.ListBucket.Numbers.{BulkSent, dequeue_packet_bulk-BulkSent}
use flow_bundler.Carousel.{Carousel, bucket_at, set_bucket, advance, serve, dequeue_loop}
use flow_bundler.Carousel.Wheel.{
  IsWheel, covers, queued, index_lt, bucket_at-set_bucket, queued_inside, queued-set_bucket,
  queued-set_bucket_ne, set_bucket-IsWheel, waiting-set_bucket, advance-IsWheel, header_ts-advance,
}
use flow_bundler.Carousel.Insert.{self_Kept, set_bucket-Kept}
use flow_bundler.Carousel.Serve.{Outcome, advance-Alike, before-Outcome, after-Outcome}

abbrev served_bucket : Carousel → ℕ
served_bucket st = st.header_ts % st.slots

before_head : (st : Carousel) (s : ℕ) → s < st.header_ts → queued st s ≡ []
unfolding queued
before_head st s lt = ground arith

module _ (st : Carousel) (batch : PacketBatch) (v : IsWheel st)
    (small : st.max_dequeue_burst < 2 ^ 31)
    (slots : batch.cnt + st.max_dequeue_burst ≤ length batch.pkts)
    (late : st.header_ts + st.slots + 1 < 2 ^ 64) where
  here : covers st st.header_ts ≡ true
  here = ground (arith, v.some_slot)

  abbrev own : ListBucket
  own = bucket_at st (served_bucket st)

  abbrev bulk : ℕ × ListShared × ListBucket × PacketBatch
  bulk = dequeue_packet_bulk st.shared own batch st.max_dequeue_burst

  bulk_lem : BulkSent st.max_dequeue_burst own batch bulk
  bulk_lem =
      dequeue_packet_bulk-BulkSent st.shared own batch st.max_dequeue_burst
        (v.counted (served_bucket st)) small (omega arith)

  abbrev stayed : Carousel
  stayed = set_bucket st (served_bucket st) bulk.1 bulk.2

  stayed-IsWheel : IsWheel stayed
  stayed-IsWheel =
      set_bucket-IsWheel st (served_bucket st) bulk.1 bulk.2 (index_lt v st.header_ts)
        bulk_lem.bucket v

  module _ (now : ℕ) (due : st.header_ts ≤ now) (pos : 0 < st.max_dequeue_burst)
      (busy : (own.node_num == 0) ≡ false) where
    stayed-Outcome : Outcome now st batch (bulk.0, stayed, bulk.3)
    stayed-Outcome =
        let r = bulk_lem in
        let at_head = queued_inside st v st.header_ts here in
        let q = queued-set_bucket st v st.header_ts here bulk.1 bulk.2 in
        let some_node : 0 < length own.nodes =
          ground (arith, (v.counted (served_bucket st)).counts) in
        record {
          wheel = stayed-IsWheel;
          kept = set_bucket-Kept st (served_bucket st) bulk.1 bulk.2;
          cases = inr (record {
            slot = st.header_ts;
            quota = small;
            due = due;
            earlier = before_head st;
            some_left = omega (arith, r.number);
            number = rw at_head r.number;
            moved = rw (at_head, q, r.number) r.moved;
            others = queued-set_bucket_ne st v st.header_ts here bulk.1 bulk.2;
            total = omega (
              arith,
              waiting-set_bucket st (served_bucket st) bulk.1 bulk.2 (index_lt v st.header_ts),
              r.number,
              ap length r.moved.rest,
              length-drop (min st.max_dequeue_burst (length own.nodes)) own.nodes,
            );
          });
        }

    serve-Outcome : Outcome now st batch (serve st batch)
    unfolding serve
    serve-Outcome = elim (Bool-cases (bulk.2.node_num == 0)) [
      | inl e ↦
          let nil : bulk.2.nodes ≡ [] =
            nil_of_length bulk.2.nodes (ground (arith, bulk_lem.bucket.counts)) in
          let gone : (bucket_at stayed (served_bucket st)).nodes ≡ [] =
            ap (λ (x : ListBucket). x.nodes)
              (bucket_at-set_bucket st (served_bucket st) bulk.1 bulk.2 (index_lt v st.header_ts))
            ∙ nil in
          rw e (
            after-Outcome now batch st stayed (advance stayed) bulk.0 bulk.3
              (advance-IsWheel stayed stayed-IsWheel (unfold set_bucket in late))
              (advance-Alike stayed stayed-IsWheel (unfold set_bucket in late)
                (unfold set_bucket in gone))
              stayed-Outcome)
      | inr e ↦ rw e stayed-Outcome
    ]

idle-Outcome :
    (now : ℕ) (st : Carousel) (batch : PacketBatch)
    → IsWheel st
    → (0 < st.max_dequeue_burst
        → st.max_dequeue_burst < 2 ^ 31
        → (s : ℕ) → s ≤ now
        → queued st s ≡ [])
    → Outcome now st batch (0, st, batch)
idle-Outcome now st batch v empty = record {
  wheel = v;
  kept = self_Kept st;
  cases = inl (record {
    number = refl;
    batch_same = refl;
    none_due = empty;
    same = λ s. refl;
    total = refl;
  });
}

pub dequeue_loop-Outcome :
    (fuel now : ℕ) (st : Carousel) (batch : PacketBatch)
    → IsWheel st
    → (st.max_dequeue_burst < 2 ^ 31 → batch.cnt + st.max_dequeue_burst ≤ length batch.pkts)
    → now + st.slots + 1 < 2 ^ 64
    → now + 1 < st.header_ts + fuel
    → 0 < fuel
    → (out : ℕ × Carousel × PacketBatch) × (dequeue_loop fuel now st batch ≡ some out)
      × Outcome now st batch out
unfolding dequeue_loop
dequeue_loop-Outcome zero now st batch v room late enough pos = absurd (omega arith)
dequeue_loop-Outcome (suc fuel) now st batch v room late enough pos =
    elim (lt_or_le now st.header_ts) [
      | inl ahead ↦
          let test : leb st.header_ts now ≡ false = ground arith in
          (
            (0, st, batch),
            rw (test) refl,
            idle-Outcome now st batch v (λ p few s le. before_head st s (omega arith)),
          )
      | inr due ↦
          let test : leb st.header_ts now ≡ true = ground arith in
          elim (Bool-cases (ltb 0 st.max_dequeue_burst && ltb st.max_dequeue_burst (2 ^ 31))) [
            | inr off ↦ (
              (0, st, batch),
              rw (test, off) refl,
              idle-Outcome now st batch v (λ p few. absurd (ground (arith, off))),
            )
            | inl on ↦
                let small : st.max_dequeue_burst < 2 ^ 31 = ground (arith, on) in
                elim (Bool-cases ((bucket_at st (served_bucket st)).node_num == 0)) [
                  | inl empty ↦
                      let later : st.header_ts + st.slots + 1 < 2 ^ 64 = omega arith in
                      let nil =
                        nil_of_length (bucket_at st (served_bucket st)).nodes
                          (ground (arith, (v.counted (served_bucket st)).counts)) in
                      let head = header_ts-advance st v later in
                      let a = advance-Alike st v later nil in
                      let (out, e, o) =
                        dequeue_loop-Outcome fuel now (advance st) batch
                          (advance-IsWheel st v later)
                          (λ few. omega (arith, a.kept.max_dequeue_burst, room small))
                          (omega (arith, a.kept.slots)) (omega arith) (omega arith) in
                      (
                        out,
                        rw (test, on, empty) e,
                        before-Outcome now batch st (advance st) out a o,
                      )
                  | inr busy ↦ (
                    serve st batch,
                    rw (test, on, busy) refl,
                    serve-Outcome st batch v small (room small) (omega arith) now due
                        (ground (arith, on)) busy,
                  )
                ]
          ]
    ]
