-- ===== src/FlowBundler/Setup.antt =====
-- bess/core/modules/flowbundler.cc: `Init` and the commands `set_default_rate` and `add_flow`. The
-- port that `Init` finds and the packet generator that `add_flow` makes are not part of the state.
use flow_bundler.Common.{
  ℕ, zero, suc, ◌+◌, ◌-◌, ◌*◌, ◌/◌, List, [], ◌∷◌, ◌++◌, map, length, take, replicate, set, u32,
  ltb, ◌==◌, if◌then◌else◌, Option, none, some, ◌⊎◌, inl, inr,
}
use flow_bundler.CircularQueue.{CircularQueue, create, push}
use flow_bundler.CircularQueue
use flow_bundler.MemoryPool
use flow_bundler.EasyMap
use flow_bundler.Platform.{Platform, InitError, early_error, port_error}
use flow_bundler.HbListBucket.{Shared, empty_bucket}
use flow_bundler.FlowBundler.Geometry.{queue_num, init_geometry}
use flow_bundler.FlowBundler.State.{FlowBundler, FlowInfo}

-- The fields of the message that `Init` reads.
pub record FlowBundlerArg : Type 0 where
  pub bucket_num_scale : ℕ  -- uint32
  pub min_gran_scale : ℕ  -- uint32
  pub dequeue_burst : ℕ  -- uint32
  pub mempool_size : ℕ  -- uint32
  pub generate_burst : ℕ  -- uint32
  pub max_pkts_kbytes : ℕ  -- uint64

-- The static members before any module uses them; they outlive each module.
unfoldable pub static_members : MemoryPool.MemoryPool → Shared
static_members pool = record {
  pool = pool;
  pkts_num = [];
  aggregation_rates = EasyMap.create_map 512;
  flow_to_gen = create 0 (8192 * 256);
}

-- What `Init` assigns. `uuid` is the hash of the pool's name.
unfoldable pub initial_state : FlowBundlerArg → Shared → ℕ → ℕ → FlowBundler
initial_state arg statics now uuid =
    let geometry = init_geometry arg.bucket_num_scale arg.min_gran_scale in
    let max_bytes = u32 (arg.max_pkts_kbytes * 1000) in
    record {
      geometry = geometry;
      default_rate = 500;
      generate_burst = arg.generate_burst;
      max_bytes_per_flow = max_bytes;
      m_queue = replicate queue_num (replicate geometry.bucket_num (empty_bucket max_bytes));
      n_packets = replicate queue_num 0;
      n_packets_total = 0;
      bitmap = 0;
      head_time = now;
      highest_rate_qid = queue_num - 1;
      dequeue_burst = arg.dequeue_burst;
      last_dequeued = 0;
      flow_info = [];
      shared = record statics { pool = MemoryPool.create arg.mempool_size uuid };
      total_enqueue_pkts_num = 0;
    }

unfoldable pub init : Platform → FlowBundlerArg → Shared → ℕ → ℕ → InitError ⊎ FlowBundler
unfolding initial_state early_error port_error
init platform arg statics now uuid = elim (early_error platform arg.generate_burst) [
  | some e ↦ inl e
  | none ↦ elim (port_error platform) [
    | some e ↦ inl e
    | none ↦ inr (initial_state arg statics now uuid)
  ]
]

unfoldable pub set_default_rate : FlowBundler → ℕ → FlowBundler
set_default_rate st rate = record st { default_rate = rate }

-- The fields of the message that `AddFlow` reads.
pub record AddFlowArg : Type 0 where
  pub total_rate : ℕ  -- uint64
  pub flow_num : ℕ  -- uint32
  pub flow_rates : List ℕ  -- uint32, the rate of each flow

-- `std::vector::resize` with a value for the new entries.
unfoldable pub resize {ℓ} : {A : Type ℓ} → List A → ℕ → A → List A
resize xs n d = take n xs ++ replicate (n - length xs) d

-- The loop over the flows that are left, from flow `i`, when each has its rate and time stamp.
unfoldable pub set_flows : List FlowInfo → ℕ → List FlowInfo → List ℕ → List FlowInfo × List ℕ
set_flows [] i infos nums = (infos, nums)
set_flows (info ∷ rest) i infos nums = set_flows rest (i + 1) (set infos i info) (set nums i 0)

-- The branch for flows that are listed: one reading of the clock for all.
abbrev pub listed : List ℕ → ℕ → List FlowInfo
listed rates now = map (λ r. record { last_stamp = now; rate = r }) rates

-- The other branch: one rate for all, and a reading of the clock for each.
unfoldable pub equal : ℕ → ℕ → ℕ → (ℕ → ℕ) → List FlowInfo
equal zero i rate clock = []
equal (suc left) i rate clock =
    record { last_stamp = clock i; rate = rate } ∷ equal left (i + 1) rate clock

-- `for (j ...) flow_to_gen.Push(j)`, the inner loop, for the flows that are left.
unfoldable pub push_flows : ℕ → ℕ → CircularQueue ℕ → CircularQueue ℕ
push_flows zero j q = q
push_flows (suc left) j q = push_flows left (j + 1) (push q j).1

unfoldable pub push_rounds : ℕ → ℕ → CircularQueue ℕ → CircularQueue ℕ
unfolding push_flows
push_rounds zero n q = q
push_rounds (suc rounds) n q = push_rounds rounds n (push_flows n 0 q)

-- The tables for `flow_num` flows with these rates and time stamps.
unfoldable pub load_flows : FlowBundler → ℕ → List FlowInfo → FlowBundler
unfolding push_rounds
load_flows st flow_num infos =
    let info0 : FlowInfo = record { last_stamp = 0; rate = 0 } in
    let (flow_info, pkts_num) =
      set_flows infos 0 (resize st.flow_info flow_num info0)
        (resize st.shared.pkts_num flow_num 0) in
    record st {
      flow_info = flow_info;
      shared = record (st.shared) {
        pkts_num = pkts_num;
        aggregation_rates = EasyMap.reset st.shared.aggregation_rates;
        flow_to_gen =
            push_rounds (st.max_bytes_per_flow / 1500) flow_num
              (CircularQueue.reset st.shared.flow_to_gen);
      };
    }

-- `none` where the source divides by zero: no flow is listed and `flow_num` is 0.
unfoldable pub add_flow : FlowBundler → AddFlowArg → ℕ → (ℕ → ℕ) → Option FlowBundler
unfolding equal
add_flow st arg now clock =
    let listed_num = length arg.flow_rates in
    let by_list = load_flows st (u32 listed_num) (listed arg.flow_rates now) in
    let by_number =
      load_flows st arg.flow_num
        (equal arg.flow_num 0 (u32 (arg.total_rate / arg.flow_num)) clock) in
    if ltb 0 listed_num then some by_list else if arg.flow_num == 0 then none else some by_number
