-- ===== src/Carousel/Setup.antt =====
-- bess/core/modules/carousel.cc: `Init` and the commands `add_flow` and `set_max_dequeue_burst`.
-- `set_default_rate` does nothing.
use flow_bundler.Common.{
  ℕ, ◌*◌, ◌/◌, List, [], length, replicate, u32, u64, ltb, ◌==◌, ◌&&◌, ◌^◌, not, if◌then◌else◌,
  Bool, Option, none, some,
}
use flow_bundler.MemoryPool
use flow_bundler.Packet.{max_burst}
use flow_bundler.ListBucket.{ListShared, new_bucket}
use flow_bundler.FlowBundler.State.{FlowInfo}
use flow_bundler.FlowBundler.Setup.{AddFlowArg, listed, equal}
use flow_bundler.ListBucket.Flows.{load_tables}
use flow_bundler.Carousel.{Carousel}

-- The fields of the message that `Init` reads, but the port's.
pub record CarouselArg : Type 0 where
  pub size : ℕ  -- uint32
  pub max_pkts_kbytes : ℕ  -- uint64
  pub generate_burst : ℕ  -- uint32
  pub granularity : ℕ  -- uint32
  pub slots : ℕ  -- uint64

-- What the port that the message names answers to `AcquireQueues`.
pub data PortAnswer : Type 0 where
  unnamed : PortAnswer
  unknown : PortAnswer
  refused : ℕ → PortAnswer
  acquired : PortAnswer

pub data InitResult : Type 0 where
  failed : ℕ → InitResult  -- with the error's number
  trapped : InitResult  -- division by zero
  ready : Carousel → InitResult

unfoldable pub initial_state : CarouselArg → ListShared → ℕ → ℕ → Carousel
initial_state arg statics ns uuid =
    let max_bytes = u32 (arg.max_pkts_kbytes * 1000) in
    record {
      queue = replicate arg.slots (new_bucket max_bytes);
      flow_info = [];
      max_dequeue_burst = 0;
      dequeue_burst = 0;
      header_ts = ns / arg.granularity;
      granularity = arg.granularity;
      horizon = u32 (u64 (arg.granularity * arg.slots));
      slots = arg.slots;
      generate_burst = arg.generate_burst;
      packets_num = 0;
      max_bytes_per_flow = max_bytes;
      shared = record statics { pool = MemoryPool.create arg.size uuid };
      enqueue_pkts = 0;
      dequeue_pkts = 0;
      dequeued_batch = 0;
    }

-- `registered` says whether `RegisterTask` gives a task. ENOMEM is 12, EINVAL 22, ENODEV 19.
unfoldable pub init : CarouselArg → Bool → PortAnswer → ListShared → ℕ → ℕ → InitResult
unfolding initial_state
init arg registered port statics ns uuid =
    if not registered
    then failed 12
    else if ltb max_burst arg.generate_burst
    then failed 22
    else if arg.granularity == 0
    then trapped
    else elim port [
      | unnamed ↦ failed 22
      | unknown ↦ failed 19
      | refused error ↦ failed error
      | acquired ↦ ready (initial_state arg statics ns uuid)
    ]

-- The burst is an `int`, by its bit pattern: from 2 ^ 31 on it is negative.
unfoldable pub set_max_dequeue_burst : Carousel → ℕ → Carousel
set_max_dequeue_burst st burst = record st {
  max_dequeue_burst = if ltb max_burst burst && ltb burst (2 ^ 31) then max_burst else burst;
}

unfoldable pub load_flows : Carousel → ℕ → List FlowInfo → Carousel
unfolding load_tables
load_flows st flow_num infos =
    let (flow_info, shared) =
      load_tables st.max_bytes_per_flow st.flow_info st.shared flow_num infos in
    record st { flow_info = flow_info; shared = shared }

-- `none` where the source divides by zero: no flow is listed and `flow_num` is 0.
unfoldable pub add_flow : Carousel → AddFlowArg → ℕ → (ℕ → ℕ) → Option Carousel
unfolding equal
add_flow st arg now clock =
    let listed_num = length arg.flow_rates in
    let by_list = load_flows st (u32 listed_num) (listed arg.flow_rates now) in
    let by_number =
      load_flows st arg.flow_num
        (equal arg.flow_num 0 (u32 (arg.total_rate / arg.flow_num)) clock) in
    if ltb 0 listed_num then some by_list else if arg.flow_num == 0 then none else some by_number
