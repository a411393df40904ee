-- ===== src/Injector/Lengths.antt =====
-- Every packet of a tick is far shorter than the data field of a frame.
use build_with_opus.Prelude.{
  ℕ, zero, suc, ◌+◌, ◌≤◌, ◌<◌, ◌%◌, ◌≡◌, refl, List, [], ◌∷◌, ◌++◌, All, All-append, length,
  length-append, arith,
}
use build_with_opus.Prelude.Texts.{codes}
use build_with_opus.Injector.Floats.{Floats}
use build_with_opus.Injector.Payloads.{
  cdh_hk, adcs_hk, comm_hk, ros2_bridge_hk, prx1_hk, power_hk, payload_hk, fleet_hk,
}
use build_with_opus.Injector.Rovers.{
  rover_land_hk, rover_land_hk_n, rover_uav_hk, rover_uav_hk_n, rover_cryo_hk,
}
use build_with_opus.Injector.Titan.{titan_rover_hk, titan_uav_hk, titan_cryo_hk}
use build_with_opus.Injector.Events.{
  Event, first_event, later_events, event_at, event_template, event_payload,
}
use build_with_opus.Injector.Tick.{Shot, orbiter_shots, rover_shots, titan_shots, event_shot, shots}

-- The APID fits 11 bits, and the packet does not fill the data field.
abbrev pub IsShort : Shot → Type 0
IsShort a = (a.apid ≤ 0x7FF) × (length a.user_data < 1000)

module _ (floats : Floats) where
  open floats use {F32, to_le_bytes, length-to_le_bytes, length-to_be_bytes_wide}

  -- A sequence of three numbers, and of four.
  length_three :
      (x y z : F32) (rest : List ℕ)
      → length (to_le_bytes x ++ (to_le_bytes y ++ (to_le_bytes z ++ rest))) ≡ 12 + length rest
  length_three x y z rest = simp (length-append, length-to_le_bytes) (omega arith)

  orbiter_shots-IsShort : (tick : ℕ) → All IsShort (orbiter_shots floats tick)
  unfolding orbiter_shots cdh_hk adcs_hk comm_hk ros2_bridge_hk prx1_hk power_hk payload_hk fleet_hk
  orbiter_shots-IsShort tick =
      simp (length-append, length-to_le_bytes, length-to_be_bytes_wide) (omega arith)

  rover_shots-IsShort : (tick : ℕ) → All IsShort (rover_shots floats tick)
  unfolding rover_shots rover_land_hk rover_land_hk_n rover_uav_hk rover_uav_hk_n rover_cryo_hk
  rover_shots-IsShort tick = simp (length-append, length-to_le_bytes) (omega arith)

  titan_shots-IsShort : (tick : ℕ) → All IsShort (titan_shots floats tick)
  unfolding titan_shots titan_rover_hk titan_uav_hk titan_cryo_hk
  titan_shots-IsShort tick = simp (length-append, length-to_le_bytes) (omega arith)

-- An index into the table of events.
event_at-All {κ} :
    (P : Event → Type κ) (e : Event) (later : List Event) (idx : ℕ)
    → P e
    → All P later
    → P (event_at e later idx)
unfolding event_at
event_at-All P e later zero h hs = h
event_at-All P e [] (suc idx) h hs = h
event_at-All P e (e' ∷ later) (suc idx) h hs = event_at-All P e' later idx hs.0 hs.1

abbrev IsBrief : Event → Type 0
IsBrief e = (e.apid ≤ 0x7FF) × (length (codes e.message) ≤ 60)

event_template-IsBrief : (tick : ℕ) → IsBrief (event_template tick)
unfolding event_template
event_template-IsBrief tick =
    event_at-All IsBrief first_event later_events (tick % 10) (omega arith) (omega arith)

event_shot-IsShort : (tick : ℕ) → IsShort (event_shot tick)
unfolding event_shot event_payload
event_shot-IsShort tick =
    let e = event_template tick in
    let (apid_fits, brief) = event_template-IsBrief tick in
    (apid_fits, omega (arith, brief, length-append (codes e.message) (0 ∷ [])))

pub shots-IsShort :
    (floats : Floats) (tick : ℕ)
    → All IsShort (shots floats tick) × (length (shots floats tick) ≡ 30)
unfolding shots
shots-IsShort floats tick =
    let event = event_shot tick ∷ [] in
    let titan = titan_shots floats tick in
    let rover = rover_shots floats tick in
    let last : All IsShort event = (event_shot-IsShort tick, tt) in
    let third = All-append IsShort titan event (titan_shots-IsShort floats tick) last in
    let second =
      All-append IsShort rover (titan ++ event) (rover_shots-IsShort floats tick) third in
    (
      All-append IsShort (orbiter_shots floats tick) (rover ++ (titan ++ event))
          (orbiter_shots-IsShort floats tick) second,
      unfold orbiter_shots rover_shots titan_shots in refl,
    )
