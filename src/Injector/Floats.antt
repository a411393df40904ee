-- ===== src/Injector/Floats.antt =====
-- The floating point numbers of rust/ground_station/src/bin/demo_injector.rs, which the model takes
-- from outside: the operations, and that a number has four bytes, or eight.
use build_with_opus.Prelude.{ℕ, ◌≡◌, List, length}

pub record Floats : Type 1 where
  pub F32 : Type 0
  pub F64 : Type 0
  -- `tick as f32` and `tick as f64`
  pub of_u32 : ℕ → F32
  pub of_u32_wide : ℕ → F64
  -- `lit n k` is the literal n / 10^k.
  pub lit : ℕ → ℕ → F32
  pub lit_wide : ℕ → ℕ → F64
  pub neg : F32 → F32
  pub add : F32 → F32 → F32
  pub sub : F32 → F32 → F32
  pub mul : F32 → F32 → F32
  pub div : F32 → F32 → F32
  pub rem : F32 → F32 → F32
  pub max : F32 → F32 → F32
  pub sin : F32 → F32
  pub cos : F32 → F32
  pub abs : F32 → F32
  pub add_wide : F64 → F64 → F64
  -- The casts `as u8`, `as u16` and `as u32`, and the bit pattern of the cast `as i16`.
  pub to_u8 : F32 → ℕ
  pub to_u16 : F32 → ℕ
  pub to_u32 : F32 → ℕ
  pub to_i16 : F32 → ℕ
  pub to_le_bytes : F32 → List ℕ
  pub to_be_bytes_wide : F64 → List ℕ
  pub length-to_le_bytes : (v : F32) → length (to_le_bytes v) ≡ 4
  pub length-to_be_bytes_wide : (v : F64) → length (to_be_bytes_wide v) ≡ 8
