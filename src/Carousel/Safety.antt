-- ===== src/Carousel/Safety.antt =====
-- `RunTask`, turn after turn, from `Init` on: no packet is sent before the slot of its time.
use flow_bundler.Common.{
  ℕ, ◌+◌, ◌/◌, ◌^◌, ◌≤◌, ◌<◌, ◌≡◌, refl, sym, subst, ◌∙◌, List, [], ◌++◌, length, All, ltb, ◌==◌,
  true, some, inl, inr, Bool-cases, arith,
}
use flow_bundler.Packet.{Packet, PacketBatch, max_burst}
use flow_bundler.Carousel.{Carousel}
use flow_bundler.Task.{Turn, QueueStats, TaskResult}
use flow_bundler.Carousel.Task.{run_task}
use flow_bundler.Carousel.Wheel.{SameRing, queued-SameRing, waiting-SameRing, IsWheel-SameRing}
use flow_bundler.Carousel.Due.{Log, Due}
use flow_bundler.Carousel.Setup.{
  CarouselArg, acquired, ready, init, set_max_dequeue_burst, load_flows, add_flow,
}
use flow_bundler.ListBucket.{ListShared}
use flow_bundler.FlowBundler.Setup.{AddFlowArg}
use flow_bundler.FlowBundler.State.{FlowInfo}
use flow_bundler.Carousel.Turns.{Bounds, Between, logged, Turned}
use flow_bundler.Carousel.Round.{run_task-Turned}
use flow_bundler.Carousel.Start.{init-Between}

some_inj {ℓ} : {A : Type ℓ} {x y : A} → some x ≡ some y → x ≡ y
some_inj e = cc

-- The states of a module between turns, and the log: the commands may come at any time. A turn keeps
-- its bounds, and the port sends no more packets than it is given.
pub data Run (start : Carousel) : Log → Carousel → Type 0 where
  begin : Run start [] start
  turn :
      {log : Log} {st : Carousel}
      → Run start log st
      → (batch : PacketBatch) (t : Turn) (stats : QueueStats)
        (out : List Packet × TaskResult × Carousel × QueueStats)
      → Bounds st batch t
      → run_task st batch t stats ≡ some out
      → t.sent ≤ out.1.packets
      → Run start (logged st t ++ log) out.2
  set_burst :
      {log : Log} {st : Carousel}
      → Run start log st
      → (burst : ℕ) → Run start log (set_max_dequeue_burst st burst)
  add_flows :
      {log : Log} {st st' : Carousel}
      → Run start log st
      → (arg : AddFlowArg) (now : ℕ) (clock : ℕ → ℕ) → add_flow st arg now clock ≡ some st'
      → Run start log st'

Turned-Between :
    (log : Log) (st : Carousel) (t : Turn) (out : List Packet × TaskResult × Carousel × QueueStats)
    → Between log st
    → t.sent ≤ out.1.packets
    → Turned log st t out
    → Between (logged st t ++ log) out.2
Turned-Between log st t out b h d = record {
  sound = d.sound h;
  due = d.due;
  burst = λ few. omega (arith, d.burst, b.burst (omega (arith, few, d.burst)));
}

SameRing-Between :
    {log : Log} {st st' : Carousel}
    → SameRing st st'
    → st'.packets_num ≡ st.packets_num
    → (st'.max_dequeue_burst < 2 ^ 31 → st'.max_dequeue_burst ≤ max_burst)
    → Between log st
    → Between log st'
SameRing-Between r same few b = record {
  sound = record {
    wheel = IsWheel-SameRing r b.sound.wheel;
    counted = omega (arith, waiting-SameRing r, b.sound.counted);
  };
  due = λ s. rw (queued-SameRing r s) (b.due s);
  burst = few;
}

load_flows-Between :
    {log : Log} {st : Carousel}
    → (n : ℕ) (infos : List FlowInfo) → Between log st
    → Between log (load_flows st n infos)
unfolding load_flows
load_flows-Between n infos b =
    SameRing-Between (record { queue = refl; header_ts = refl; granularity = refl; slots = refl })
      refl b.burst b

set_burst-Between :
    {log : Log} {st : Carousel}
    → (n : ℕ) → Between log st
    → Between log (set_max_dequeue_burst st n)
unfolding set_max_dequeue_burst
set_burst-Between n b =
    SameRing-Between (record { queue = refl; header_ts = refl; granularity = refl; slots = refl })
      refl (ground arith) b

add_flow-Between :
    {log : Log} {st st' : Carousel}
    → (arg : AddFlowArg) (now : ℕ) (clock : ℕ → ℕ) → add_flow st arg now clock ≡ some st'
    → Between log st
    → Between log st'
unfolding add_flow
add_flow-Between {log} {st} arg now clock e b = elim (Bool-cases (ltb 0 (length arg.flow_rates))) [
  | inl given ↦ subst (Between log) (some_inj (rw given at e)) (load_flows-Between _ _ b)
  | inr by_number ↦ elim (Bool-cases (arg.flow_num == 0)) [
    | inl no_flow ↦ let off = rw (by_number, no_flow) at e in cc
    | inr some_flow ↦
        subst (Between log) (some_inj (rw (by_number, some_flow) at e)) (load_flows-Between _ _ b)
  ]
]

pub Run-Between :
    {start st : Carousel} {log : Log} → Between [] start → Run start log st → Between log st
Run-Between b begin = b
Run-Between b (turn {log} {st} r batch t stats out f e h) =
    let before = Run-Between b r in
    let (out', e', d) = run_task-Turned log st batch t stats before f in
    Turned-Between log st t out before h (subst (Turned log st t) (some_inj (sym e' ∙ e)) d)
Run-Between b (set_burst r n) = set_burst-Between n (Run-Between b r)
Run-Between b (add_flows r arg now clock e) = add_flow-Between arg now clock e (Run-Between b r)

-- A module that `Init` made with at least one slot, after any turns and commands: `RunTask` returns, and
-- each packet that it sends is one that `Enqueue` accepted before, with a time whose slot has begun. The
-- clock must stay a ring away from its wrap-around, and the packets within their counters.
pub no_packet_early :
    (arg : CarouselArg) (statics : ListShared) (ns uuid : ℕ) (start : Carousel) {log : Log}
    {st : Carousel}
    → init arg true acquired statics ns uuid ≡ ready start
    → 0 < arg.slots
    → ns / arg.granularity + arg.slots < 2 ^ 64
    → Run start log st
    → (batch : PacketBatch) (t : Turn) (stats : QueueStats) → Bounds st batch t
    → (out : List Packet × TaskResult × Carousel × QueueStats) × (run_task st batch t stats
        ≡ some out)
      × All (Due (logged st t ++ log) (t.ns / st.granularity)) out.1.sent_packets
no_packet_early arg statics ns uuid start {log} {st} made_by some_slot early r batch t stats f =
    let before = Run-Between (init-Between arg statics ns uuid start made_by some_slot early) r in
    let (out, e, d) = run_task-Turned log st batch t stats before f in (out, e, d.sent)
