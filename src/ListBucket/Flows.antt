-- ===== src/ListBucket/Flows.antt =====
-- What `AddFlow` of bess/core/modules/eiffel.cc and carousel.cc does to the flows, to the static members
-- of the bucket and to its ring of turns.
use flow_bundler.Common.{ℕ, ◌/◌, List}
use flow_bundler.CircularQueue
use flow_bundler.ListBucket.{ListShared}
use flow_bundler.FlowBundler.State.{FlowInfo}
use flow_bundler.FlowBundler.Setup.{resize, set_flows, push_rounds}

-- The tables for `flow_num` flows with these rates and time stamps.
unfoldable pub load_tables :
    ℕ → List FlowInfo → ListShared → ℕ → List FlowInfo → List FlowInfo × ListShared
unfolding push_rounds
load_tables max_bytes flow_info shared flow_num infos =
    let info0 : FlowInfo = record { last_stamp = 0; rate = 0 } in
    let (flow_info', pkts_num) =
      set_flows infos 0 (resize flow_info flow_num info0) (resize shared.pkts_num flow_num 0) in
    (
      flow_info',
      record shared {
        pkts_num = pkts_num;
        flow_to_gen =
            push_rounds (max_bytes / 1500) flow_num (CircularQueue.reset shared.flow_to_gen);
      },
    )
