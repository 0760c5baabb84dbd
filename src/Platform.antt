-- ===== src/Platform.antt =====
-- What the `Init` of a shaper asks of BESS (bess/core/modules/flowbundler.cc and eiffel.cc), and how it fails.
use flow_bundler.Common.{
  ℕ, ◌≤◌, ◌<◌, ◌≡◌, ◌⊎◌, refl, ltb, lt→ltb, ltb-false, lt_or_le, inl, inr, if◌then◌else◌, Bool,
  true, false, not, Option, none, some, Bool-cases,
}
use flow_bundler.Packet.{max_burst}

-- Whether `RegisterTask` gives a task, whether a port is named, whether it is one of `all_ports`, and
-- whether its `AcquireQueues` succeeds.
pub record Platform : Type 0 where
  pub task_made : Bool
  pub port_named : Bool
  pub port_found : Bool
  pub queues_acquired : Bool

pub data InitError : Type 0 where
  no_task : InitError
  burst_too_large : InitError
  no_port_name : InitError
  unknown_port : InitError
  no_queues : InitError

-- The checks before the module is set up, and those after it.
unfoldable pub early_error : Platform → ℕ → Option InitError
early_error p burst =
    if not p.task_made
    then some no_task
    else if ltb max_burst burst
    then some burst_too_large
    else none

unfoldable pub port_error : Platform → Option InitError
port_error p =
    if not p.port_named
    then some no_port_name
    else if not p.port_found
    then some unknown_port
    else if not p.queues_acquired
    then some no_queues
    else none

-- When each of the checks is the one that fails.
abbrev pub EarlyFailed : Platform → ℕ → InitError → Type 0
EarlyFailed p burst no_task = p.task_made ≡ false
EarlyFailed p burst burst_too_large = (p.task_made ≡ true) × (max_burst < burst)
EarlyFailed p burst no_port_name = ⊥
EarlyFailed p burst unknown_port = ⊥
EarlyFailed p burst no_queues = ⊥

abbrev pub PortFailed : Platform → InitError → Type 0
PortFailed p no_task = ⊥
PortFailed p burst_too_large = ⊥
PortFailed p no_port_name = p.port_named ≡ false
PortFailed p unknown_port = (p.port_named ≡ true) × (p.port_found ≡ false)
PortFailed p no_queues = (p.port_named ≡ true) × (p.port_found ≡ true) × (p.queues_acquired ≡ false)

pub record EarlyPassed (p : Platform) (burst : ℕ) : Type 0 where
  pub task : p.task_made ≡ true
  pub burst_fits : burst ≤ max_burst

pub record PortPassed (p : Platform) : Type 0 where
  pub named : p.port_named ≡ true
  pub found : p.port_found ≡ true
  pub acquired : p.queues_acquired ≡ true

-- How `Init` fails: before the set-up, or after it at the port.
abbrev pub Refused : Platform → ℕ → InitError → Type 0
Refused p burst e = EarlyFailed p burst e ⊎ (EarlyPassed p burst × PortFailed p e)

pub early_error_cases :
    (p : Platform) (burst : ℕ)
    → ((e : InitError) × (early_error p burst ≡ some e) × EarlyFailed p burst e)
      ⊎ ((early_error p burst ≡ none) × EarlyPassed p burst)
unfolding early_error
early_error_cases p burst = elim (Bool-cases p.task_made) [
  | inr none_made ↦ inl (no_task, rw none_made refl, none_made)
  | inl made ↦ elim (lt_or_le max_burst burst) [
    | inl large ↦ inl (burst_too_large, rw (made, lt→ltb max_burst burst large) refl, (made, large))
    | inr fits ↦
        inr (
          rw (made, ltb-false max_burst burst fits) refl,
          record { task = made; burst_fits = fits },
        )
  ]
]

pub port_error_cases :
    (p : Platform)
    → ((e : InitError) × (port_error p ≡ some e) × PortFailed p e)
      ⊎ ((port_error p ≡ none) × PortPassed p)
unfolding port_error
port_error_cases p = elim (Bool-cases p.port_named) [
  | inr unnamed ↦ inl (no_port_name, rw unnamed refl, unnamed)
  | inl named ↦ elim (Bool-cases p.port_found) [
    | inr unknown ↦ inl (unknown_port, rw (named, unknown) refl, (named, unknown))
    | inl found ↦ elim (Bool-cases p.queues_acquired) [
      | inr missing ↦ inl (no_queues, rw (named, found, missing) refl, (named, found, missing))
      | inl acquired ↦ inr (
        rw (named, found, acquired) refl,
        record { named = named; found = found; acquired = acquired },
      )
    ]
  ]
]
