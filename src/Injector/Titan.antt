-- ===== src/Injector/Titan.antt =====
-- The housekeeping of the vehicles on Titan.
use build_with_opus.Prelude.{ℕ, List, ◌++◌}
use build_with_opus.Prelude.Words.{u16_to_le}
use build_with_opus.Injector.Floats.{Floats}

module _ (floats : Floats) where
  open floats use {F32, of_u32, lit, neg, add, mul, rem, sin, cos, to_u16, to_i16, to_le_bytes}

  unfoldable pub titan_rover_hk : ℕ → F32 → F32 → F32 → List ℕ
  titan_rover_hk tick base_x base_z phase =
      let t = of_u32 tick in
      let x = add base_x (mul (sin (add (mul t (lit 4 2)) phase)) (lit 15 1)) in
      let z = add base_z (mul (cos (add (add (mul t (lit 3 2)) phase) (lit 1 0))) (lit 15 1)) in
      let heading = rem (add (mul t (lit 18 1)) (mul phase (lit 573 1))) (lit 360 0) in
      let battery = to_u16 (add (lit 75 0) (mul (sin (add (mul t (lit 8 3)) phase)) (lit 10 0))) in
      to_le_bytes x ++ (to_le_bytes z ++ (to_le_bytes heading ++ u16_to_le battery))

  unfoldable pub titan_uav_hk : ℕ → F32 → F32 → F32 → F32 → F32 → List ℕ
  titan_uav_hk tick base_x base_z base_y hover_phase orbit_speed =
      let t = of_u32 tick in
      let hover_speed = add (lit 1 0) (mul hover_phase (lit 12 2)) in
      let alt = add base_y (mul (sin (add (mul t hover_speed) hover_phase)) (lit 4 1)) in
      let x = add base_x (mul (sin (add (mul t orbit_speed) hover_phase)) (lit 12 1)) in
      let z =
        add base_z (mul (cos (add (add (mul t orbit_speed) hover_phase) (lit 15 1))) (lit 12 1)) in
      let batt = add (lit 75 0) (mul (sin (add (mul t (lit 6 3)) hover_phase)) (lit 12 0)) in
      to_le_bytes alt ++ (to_le_bytes x ++ (to_le_bytes z ++ to_le_bytes batt))

  unfoldable pub titan_cryo_hk : ℕ → F32 → F32 → List ℕ
  titan_cryo_hk tick base_depth rpm_phase =
      let t = of_u32 tick in
      let depth = add base_depth (mul t (lit 3 3)) in
      let rpm = add (lit 400 0) (mul (sin (add (mul t (lit 9 2)) rpm_phase)) (lit 80 0)) in
      let temp_raw =
        to_i16 (add (neg (lit 1790 0)) (mul (sin (add (mul t (lit 15 3)) rpm_phase)) (lit 30 0))) in
      to_le_bytes depth ++ (to_le_bytes rpm ++ u16_to_le temp_raw)
