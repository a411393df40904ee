-- ===== src/Injector/Runs.antt =====
-- The tool's theorems at concrete frames.
use build_with_opus.Prelude.{ℕ, ◌+◌, ◌*◌, ◌/◌, ◌%◌, ◌-◌, ◌≡◌, refl, List, [], ◌∷◌, ◌++◌}
use build_with_opus.Prelude.Words.{u32_to_le, u32_to_be}
use build_with_opus.Injector.Floats.{Floats}
use build_with_opus.Injector.Payloads.{ros2_bridge_hk, payload_hk}
use build_with_opus.Injector.Events.{event_template}

-- Whole numbers in place of the floating point numbers.
abbrev pub whole : Floats
whole = record {
  F32 = ℕ;
  F64 = ℕ;
  of_u32 = λ n. n;
  of_u32_wide = λ n. n;
  lit = λ n k. n;
  lit_wide = λ n k. n;
  neg = λ v. 0 - v;
  add = λ a b. a + b;
  sub = λ a b. a - b;
  mul = λ a b. a * b;
  div = λ a b. a;
  rem = λ a b. a;
  max = λ a b. a;
  sin = λ v. v;
  cos = λ v. v;
  abs = λ v. v;
  add_wide = λ a b. a + b;
  to_u8 = λ v. v % 256;
  to_u16 = λ v. v % 65536;
  to_u32 = λ v. v % 4294967296;
  to_i16 = λ v. v % 65536;
  to_le_bytes = λ v. u32_to_le v;
  to_be_bytes_wide = λ v. u32_to_be (v / 4294967296) ++ u32_to_be v;
  length-to_le_bytes = λ v. refl;
  length-to_be_bytes_wide = λ v. refl;
}

abbrev pub checksum : List ℕ → ℕ
checksum bytes = 0

ros2_bridge_hk-seven : ros2_bridge_hk 7 ≡ (
    21 ∷ 0 ∷ 0 ∷ 0 ∷ 2 ∷ 0 ∷ 0 ∷ 0 ∷ 7 ∷ 0 ∷ 0 ∷ 0 ∷ 7 ∷ 0 ∷ 0 ∷ 0 ∷ 23 ∷ 0 ∷ 0 ∷ 0 ∷ 0 ∷ 0 ∷ 0 ∷ 0
    ∷ [])
unfolding ros2_bridge_hk
ros2_bridge_hk-seven = refl

payload_hk-large : payload_hk 0x1234 ≡ 1 ∷ 0 ∷ 0xE8 ∷ 0x03 ∷ 0x34 ∷ 0x12 ∷ 0x34 ∷ 0x12 ∷ []
unfolding payload_hk
payload_hk-large = refl

event_template-wraps : (event_template 29).severity ≡ 3
unfolding event_template
event_template-wraps = refl
