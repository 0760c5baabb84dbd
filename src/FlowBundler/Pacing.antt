-- ===== src/FlowBundler/Pacing.antt =====
-- The time stamps that `Enqueue` gives to the packets of a flow.
use flow_bundler.Common.{ℕ, ◌+◌, ◌*◌, ◌/◌, ◌≡◌, ◌≢◌, u64, get_or, if◌then◌else◌, Bool, true, max}
use flow_bundler.EasyMap
use flow_bundler.Packet.{Packet}
use flow_bundler.HbListBucket.{HbListBucket}
use flow_bundler.FlowBundler.Stored.{Placed}
use flow_bundler.FlowBundler.Counted.{Counted}
use flow_bundler.FlowBundler.Geometry.{rate_scale}
use flow_bundler.FlowBundler.State.{FlowBundler, FlowInfo, no_flow}

-- What one round of `Enqueue` does to the flow of the packet, `info` being the flow with its rate.
pub record Paced (now : ℕ) (pkt : Packet) (info : FlowInfo) (st : FlowBundler)
    (out : Bool × FlowBundler) : Type 0 where
  pub rate : (get_or out.1.flow_info pkt.src no_flow).rate ≡ info.rate
  pub stamp : (get_or out.1.flow_info pkt.src no_flow).last_stamp ≡ (
      if out.0
      then max now (info.last_stamp + pkt.total_len * 8 * rate_scale / info.rate)
      else info.last_stamp)
  pub bytes : get_or out.1.shared.pkts_num pkt.src 0 ≡ (
      if out.0
      then u64 (get_or st.shared.pkts_num pkt.src 0 + pkt.total_len)
      else get_or st.shared.pkts_num pkt.src 0)
  pub placed :
      out.0 ≡ true
      → Placed pkt pkt.src
          (max now (info.last_stamp + pkt.total_len * 8 * rate_scale / info.rate))
          st
          out.1
  pub others :
      (f : ℕ) → pkt.src ≢ f → get_or out.1.flow_info f no_flow ≡ get_or st.flow_info f no_flow
