-- ===== src/Injector/Tick.antt =====
-- What the tool sends in one second: thirty packets, in the order of the source.
use build_with_opus.Prelude.{ℕ, ◌+◌, ◌%◌, ◌^◌, List, [], ◌∷◌, ◌++◌, ok, ◌>>=◌}
use build_with_opus.Wire.Error.{Decoded}
use build_with_opus.Injector.{InjectorState, send}
use build_with_opus.Injector.Floats.{Floats}
use build_with_opus.Injector.Payloads.{
  cdh_hk, adcs_hk, comm_hk, ros2_bridge_hk, prx1_hk, power_hk, payload_hk, fleet_hk,
}
use build_with_opus.Injector.Rovers.{
  rover_land_hk, rover_land_hk_n, rover_uav_hk, rover_uav_hk_n, rover_cryo_hk,
}
use build_with_opus.Injector.Titan.{titan_rover_hk, titan_uav_hk, titan_cryo_hk}
use build_with_opus.Injector.Events.{event_template, event_payload}

abbrev pub vc_hk : ℕ
vc_hk = 0

abbrev pub vc_event : ℕ
vc_event = 1

abbrev pub vc_rover : ℕ
vc_rover = 3

-- The arguments of a call of `send` that differ between the calls.
pub record Shot : Type 0 where
  pub apid : ℕ
  pub vc_id : ℕ
  pub user_data : List ℕ

abbrev shot : ℕ → ℕ → List ℕ → Shot
shot apid vc_id user_data = record { apid = apid; vc_id = vc_id; user_data = user_data }

unfoldable pub event_shot : ℕ → Shot
event_shot tick =
    let e = event_template tick in shot e.apid vc_event (event_payload e.severity e.message)

module _ (floats : Floats) where
  open floats use {lit, neg}

  unfoldable pub orbiter_shots : ℕ → List Shot
  orbiter_shots tick =
      shot 0x101 vc_hk (cdh_hk tick)
      ∷ shot 0x110 vc_hk (adcs_hk floats tick)
      ∷ shot 0x120 vc_hk (comm_hk tick)
      ∷ shot 0x128 vc_hk (ros2_bridge_hk tick)
      ∷ shot 0x129 vc_hk (prx1_hk floats tick)
      ∷ shot 0x130 vc_hk (power_hk floats tick)
      ∷ shot 0x140 vc_hk (payload_hk tick)
      ∷ shot 0x160 vc_hk (fleet_hk floats tick)
      ∷ []

  unfoldable pub rover_shots : ℕ → List Shot
  rover_shots tick =
      let uav = rover_uav_hk_n floats tick in
      shot 0x300 vc_rover (rover_land_hk floats tick)
      ∷ shot 0x301 vc_rover (rover_land_hk_n floats tick (neg (lit 8 0)) (lit 5 0) (lit 2 0))
      ∷ shot 0x302 vc_rover (rover_land_hk_n floats tick (lit 3 0) (neg (lit 6 0)) (lit 4 0))
      ∷ shot 0x3C0 vc_rover (rover_uav_hk floats tick)
      ∷ shot 0x3C1 vc_rover (uav (neg (lit 6 0)) (lit 4 0) (lit 6 0) (lit 12 1) (lit 13 2))
      ∷ shot 0x3C2 vc_rover (uav (lit 8 0) (neg (lit 3 0)) (lit 4 0) (lit 24 1) (lit 21 2))
      ∷ shot 0x3C3 vc_rover (uav (neg (lit 3 0)) (neg (lit 7 0)) (lit 7 0) (lit 7 1) (lit 15 2))
      ∷ shot 0x3C4 vc_rover (uav (lit 5 0) (lit 7 0) (lit 5 0) (lit 31 1) (lit 19 2))
      ∷ shot 0x400 vc_rover (rover_cryo_hk floats tick)
      ∷ []

  unfoldable pub titan_shots : ℕ → List Shot
  titan_shots tick =
      let rover = titan_rover_hk floats tick in
      let uav = titan_uav_hk floats tick in
      let cryo = titan_cryo_hk floats tick in
      shot 0x410 vc_rover (rover (lit 12 0) (lit 8 0) (lit 0 0))
      ∷ shot 0x411 vc_rover (rover (neg (lit 11 0)) (lit 6 0) (lit 15 1))
      ∷ shot 0x412 vc_rover (rover (lit 8 0) (neg (lit 10 0)) (lit 3 0))
      ∷ shot 0x420 vc_rover (uav (lit 0 0) (lit 0 0) (lit 12 0) (lit 0 0) (lit 17 2))
      ∷ shot 0x421 vc_rover (uav (neg (lit 7 0)) (lit 5 0) (lit 14 0) (lit 12 1) (lit 13 2))
      ∷ shot 0x422 vc_rover (uav (lit 9 0) (neg (lit 4 0)) (lit 11 0) (lit 24 1) (lit 21 2))
      ∷ shot 0x423 vc_rover (uav (neg (lit 3 0)) (neg (lit 8 0)) (lit 13 0) (lit 7 1) (lit 15 2))
      ∷ shot 0x424 vc_rover (uav (lit 6 0) (lit 6 0) (lit 15 0) (lit 31 1) (lit 19 2))
      ∷ shot 0x430 vc_rover (cryo (lit 0 0) (lit 0 0))
      ∷ shot 0x431 vc_rover (cryo (lit 2 0) (lit 12 1))
      ∷ shot 0x432 vc_rover (cryo (lit 5 0) (lit 24 1))
      ∷ shot 0x433 vc_rover (cryo (lit 8 0) (lit 9 1))
      ∷ []

  unfoldable pub shots : ℕ → List Shot
  unfolding orbiter_shots rover_shots titan_shots event_shot
  shots tick =
      orbiter_shots tick ++ (rover_shots tick ++ (titan_shots tick ++ event_shot tick ∷ []))

-- `send(...)?` one after the other: the first error ends the tick.
unfoldable pub send_all :
    (List ℕ → ℕ) → ℕ → List Shot → InjectorState → Decoded (InjectorState × List (List ℕ))
send_all crc16 tai [] s = ok (s, [])
send_all crc16 tai (a ∷ later) s = do
  (t, frame) ← send crc16 a.apid a.vc_id tai a.user_data s
  (u, frames) ← send_all crc16 tai later t
  ok (u, frame ∷ frames)

unfoldable pub inject_tick :
    Floats → (List ℕ → ℕ) → ℕ → InjectorState → Decoded (InjectorState × List (List ℕ))
unfolding shots
inject_tick floats crc16 tai s = send_all crc16 tai (shots floats s.tick) s

-- One round of `main`.
unfoldable pub round :
    Floats → (List ℕ → ℕ) → ℕ → InjectorState → Decoded (InjectorState × List (List ℕ))
round floats crc16 tai s = do
  (t, frames) ← inject_tick floats crc16 tai s
  ok (record t { tick = (t.tick + 1) % 2 ^ 32 }, frames)
