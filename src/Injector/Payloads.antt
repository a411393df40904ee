-- ===== src/Injector/Payloads.antt =====
-- The housekeeping of the orbiter. Unsigned arithmetic wraps around, as in a release build.
use build_with_opus.Prelude.{ℕ, ◌+◌, ◌-◌, ◌*◌, ◌/◌, ◌%◌, ◌^◌, bit_and, List, [], ◌∷◌, ◌++◌}
use build_with_opus.Prelude.Words.{◌>>>◌, u32_to_be, u32_to_le, u16_to_le}
use build_with_opus.Injector.Floats.{Floats}

unfoldable pub cdh_hk : ℕ → List ℕ
cdh_hk tick = 0x01 ∷ 0x00 ∷ bit_and tick 0xFF ∷ 0x00 ∷ 0x00 ∷ 0x00 ∷ u32_to_le tick

unfoldable pub comm_hk : ℕ → List ℕ
comm_hk tick = 0x01 ∷ 0x00 ∷ 0x64 ∷ 0x00 ∷ bit_and tick 0xFF ∷ 0x00 ∷ 0x00 ∷ 0x00 ∷ []

unfoldable pub ros2_bridge_hk : ℕ → List ℕ
ros2_bridge_hk tick =
    u32_to_le (tick * 3 % 2 ^ 32)
    ++ (u32_to_le 2
        ++ (u32_to_le tick
            ++ (u32_to_le tick ++ (u32_to_le ((tick * 3 + 2) % 2 ^ 32) ++ u32_to_le 0))))

unfoldable pub payload_hk : ℕ → List ℕ
payload_hk tick =
    0x01 ∷ 0x00 ∷ u16_to_le 1000
    ++ (u16_to_le (bit_and tick 0xFFFF) ++ bit_and tick 0xFF ∷ bit_and (tick >>> 8) 0xFF ∷ [])

module _ (floats : Floats) where
  open floats use {
    F32, of_u32, of_u32_wide, lit, lit_wide, neg, add, sub, mul, div, sin, cos, add_wide, to_u8,
    to_u16, to_u32, to_le_bytes, to_be_bytes_wide,
  }

  unfoldable pub adcs_hk : ℕ → List ℕ
  adcs_hk tick =
      let theta = mul (of_u32 tick) (lit 2 2) in
      let w = cos (div theta (lit 2 0)) in
      let z = sin (div theta (lit 2 0)) in
      to_le_bytes w
      ++ (to_le_bytes (lit 0 0)
          ++ (to_le_bytes (lit 0 0)
              ++ (to_le_bytes z
                  ++ (to_le_bytes (mul (sin theta) (lit 1 2))
                      ++ (to_le_bytes (mul (cos theta) (lit 5 3))
                          ++ (to_le_bytes (lit 1 3) ++ 0 ∷ 0 ∷ 0 ∷ 0 ∷ []))))))

  unfoldable pub prx1_hk : ℕ → List ℕ
  prx1_hk tick =
      let strength = to_u8 (add (lit 180 0) (mul (sin (mul (of_u32 tick) (lit 1 1))) (lit 60 0))) in
      let contact_s = to_be_bytes_wide (add_wide (lit_wide 1700000000 0) (of_u32_wide tick)) in
      1 ∷ strength ∷ contact_s

  unfoldable pub power_hk : ℕ → List ℕ
  power_hk tick =
      let voltage_mv =
        to_u16 (add (lit 28000 0) (mul (sin (mul (of_u32 tick) (lit 5 2))) (lit 1400 0))) in
      let battery_pct = (90 - tick / 120) % 2 ^ 16 in
      u16_to_le voltage_mv ++ (u16_to_le battery_pct ++ (u16_to_le 2110 ++ u16_to_le 0))

  -- `(base + (tick as f32 * rate).sin() * swing) as u32`
  age : ℕ → F32 → F32 → F32 → ℕ
  age tick base rate swing = to_u32 (add base (mul (sin (mul (of_u32 tick) rate)) swing))

  unfoldable pub fleet_hk : ℕ → List ℕ
  unfolding age
  fleet_hk tick =
      let land_age = age tick (lit 800 0) (lit 15 2) (lit 100 0) in
      let uav_age = age tick (lit 900 0) (lit 12 2) (lit 150 0) in
      let cryo_age = age tick (lit 950 0) (lit 8 2) (lit 200 0) in
      0x07 ∷ u32_to_be land_age ++ (u32_to_be uav_age ++ u32_to_be cryo_age)
