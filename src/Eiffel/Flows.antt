-- ===== src/Eiffel/Flows.antt =====
-- bess/core/modules/eiffel.cc: `AddFlow`, up to the packet generator that it makes.
use flow_bundler.Common.{ℕ, ◌/◌, List, length, u32, ltb, ◌==◌, if◌then◌else◌, Option, none, some}
use flow_bundler.FlowBundler.State.{FlowInfo}
use flow_bundler.FlowBundler.Setup.{AddFlowArg, listed, equal}
use flow_bundler.ListBucket.Flows.{load_tables}
use flow_bundler.Eiffel.{Eiffel}

unfoldable pub load_flows : Eiffel → ℕ → List FlowInfo → Eiffel
unfolding load_tables
load_flows st flow_num infos =
    let (flow_info, shared) =
      load_tables st.max_bytes_per_flow st.flow_info st.shared flow_num infos in
    record st { flow_info = flow_info; shared = shared }

-- `none` where the source divides by zero: no flow is listed and `flow_num` is 0.
unfoldable pub add_flow : Eiffel → AddFlowArg → ℕ → (ℕ → ℕ) → Option Eiffel
unfolding equal
add_flow st arg now clock =
    let listed_num = length arg.flow_rates in
    let by_list = load_flows st (u32 listed_num) (listed arg.flow_rates now) in
    let by_number =
      load_flows st arg.flow_num
        (equal arg.flow_num 0 (u32 (arg.total_rate / arg.flow_num)) clock) in
    if ltb 0 listed_num then some by_list else if arg.flow_num == 0 then none else some by_number
