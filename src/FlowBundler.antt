-- ===== src/FlowBundler.antt =====
-- The FlowBundler module, bess/core/modules/flowbundler.{h,cc}.
pub mod Geometry
pub mod Slots
pub mod Place
pub mod Rates
pub mod State
pub mod Setup
pub mod Counters
pub mod Counted
pub mod Fill
pub mod Stored
pub mod Pacing
pub mod Drain
pub mod Start
pub mod Flows
pub mod Task
pub mod Round
