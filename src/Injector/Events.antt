-- ===== src/Injector/Events.antt =====
-- The events that the tool reports in turn.
use Prim.Native.String.{String}
use build_with_opus.Prelude.Texts.{codes}
use build_with_opus.Prelude.{ℕ, zero, suc, ◌%◌, List, [], ◌∷◌, ◌++◌}

-- `(apid, severity, message)`
pub record Event : Type 0 where
  pub apid : ℕ
  pub severity : ℕ
  pub message : String

abbrev event : ℕ → ℕ → String → Event
event apid severity message = record { apid = apid; severity = severity; message = message }

-- The first entry of `EVENTS`, and the others.
abbrev pub first_event : Event
first_event = event 0x101 1 "CDH: Scheduler cycle nominal. Mode=NOMINAL uptime OK"

abbrev pub later_events : List Event
later_events =
    event 0x110 1 "ADCS: Attitude estimate converged. Max deviation 0.003 deg"
    ∷ event 0x120 2 "COMM: VC0 rate set 100 kbps. Frame sync OK"
    ∷ event 0x128 1 "ROS2_BRIDGE: Packets routed milestone reached"
    ∷ event 0x130 1 "POWER: Battery SOC nominal. Solar panel charging active"
    ∷ event 0x140 1 "PAYLOAD: Science frame captured. Buffer utilisation 42%"
    ∷ event 0x300 1 "ROVER_LAND: Waypoint reached. Next target 30s"
    ∷ event 0x3C0 2 "UAV: Altitude hold engaged at 52m AGL"
    ∷ event 0x400 1 "CRYOBOT: Drill nominal. Depth milestone reached"
    ∷ event 0x110 3 "ADCS: WARN angular rate above threshold 0.015 rad/s"
    ∷ []

-- The entry at an index, which the remainder keeps below ten.
unfoldable pub event_at : Event → List Event → ℕ → Event
event_at e later zero = e
event_at e [] (suc idx) = e
event_at e (e' ∷ later) (suc idx) = event_at e' later idx

unfoldable pub event_template : ℕ → Event
unfolding event_at
event_template tick = event_at first_event later_events (tick % 10)

unfoldable pub event_payload : ℕ → String → List ℕ
event_payload severity message = severity ∷ codes message ++ 0 ∷ []
