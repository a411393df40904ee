-- ===== src/Injector/Rovers.antt =====
-- The housekeeping of the rovers of the first mission.
use build_with_opus.Prelude.{ℕ, List, [], ◌∷◌, ◌++◌}
use build_with_opus.Prelude.Words.{u16_to_le}
use build_with_opus.Injector.Floats.{Floats}

module _ (floats : Floats) where
  open floats use {
    F32, of_u32, lit, neg, add, sub, mul, rem, max, sin, cos, abs, to_u16, to_i16, to_le_bytes,
  }

  unfoldable pub rover_land_hk : ℕ → List ℕ
  rover_land_hk tick =
      let x = mul (of_u32 tick) (lit 5 2) in
      let y = mul (sin (mul (of_u32 tick) (lit 3 2))) (lit 10 0) in
      let heading = rem (mul (of_u32 tick) (lit 2 0)) (lit 360 0) in
      to_le_bytes x ++ (to_le_bytes y ++ (to_le_bytes heading ++ 0x14 ∷ 0x00 ∷ []))

  unfoldable pub rover_uav_hk : ℕ → List ℕ
  rover_uav_hk tick =
      let alt = add (lit 50 0) (mul (sin (mul (of_u32 tick) (lit 5 2))) (lit 10 0)) in
      let x = mul (cos (mul (of_u32 tick) (lit 3 2))) (lit 30 0) in
      let y = mul (sin (mul (of_u32 tick) (lit 3 2))) (lit 30 0) in
      let batt = max (sub (lit 85 0) (mul (of_u32 tick) (lit 1 2))) (lit 0 0) in
      to_le_bytes alt ++ (to_le_bytes x ++ (to_le_bytes y ++ to_le_bytes batt))

  unfoldable pub rover_cryo_hk : ℕ → List ℕ
  rover_cryo_hk tick =
      let depth = mul (of_u32 tick) (lit 2 3) in
      let rpm = add (lit 450 0) (mul (sin (mul (of_u32 tick) (lit 1 1))) (lit 50 0)) in
      let temp_raw =
        mul (add (neg (lit 180 0)) (mul (sin (mul (of_u32 tick) (lit 2 2))) (lit 5 0)))
          (lit 10 0) in
      to_le_bytes depth ++ (to_le_bytes rpm ++ u16_to_le (to_i16 temp_raw))

  -- With the base position and the phase of the rover.
  unfoldable pub rover_land_hk_n : ℕ → F32 → F32 → F32 → List ℕ
  rover_land_hk_n tick base_x base_z phase =
      let t = of_u32 tick in
      let x = add base_x (mul (sin (add (mul t (lit 5 2)) phase)) (lit 2 0)) in
      let z = add base_z (mul (cos (add (add (mul t (lit 4 2)) phase) (lit 1 0))) (lit 2 0)) in
      let heading = rem (add (mul t (lit 2 0)) (mul phase (lit 573 1))) (lit 360 0) in
      let speed_cm_s =
        to_u16 (add (lit 10 0) (mul (abs (sin (add (mul t (lit 3 1)) phase))) (lit 20 0))) in
      to_le_bytes x ++ (to_le_bytes z ++ (to_le_bytes heading ++ u16_to_le speed_cm_s))

  unfoldable pub rover_uav_hk_n : ℕ → F32 → F32 → F32 → F32 → F32 → List ℕ
  rover_uav_hk_n tick base_x base_z base_y hover_phase orbit_speed =
      let t = of_u32 tick in
      let hover_speed = add (lit 9 1) (mul hover_phase (lit 15 2)) in
      let alt = add base_y (mul (sin (add (mul t hover_speed) hover_phase)) (lit 4 1)) in
      let x = add base_x (mul (sin (add (mul t orbit_speed) hover_phase)) (lit 15 1)) in
      let z =
        add base_z (mul (cos (add (add (mul t orbit_speed) hover_phase) (lit 15 1))) (lit 15 1)) in
      let batt = add (lit 80 0) (mul (sin (add (mul t (lit 7 3)) hover_phase)) (lit 10 0)) in
      to_le_bytes alt ++ (to_le_bytes x ++ (to_le_bytes z ++ to_le_bytes batt))
