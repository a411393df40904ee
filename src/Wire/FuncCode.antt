-- ===== src/Wire/FuncCode.antt =====
-- rust/ccsds_wire/src/primitives.rs: the 16-bit function code, of which 0 is reserved.
use build_with_opus.Prelude.{ℕ, ◌<◌, ok, err, ◌==◌, if◌then◌else◌}
use build_with_opus.Wire.Error.{Decoded, func_code_reserved}

pub record FuncCode : Type 0 where
  pub raw : ℕ

unfoldable pub new : ℕ → Decoded FuncCode
new v = if v == 0 then err func_code_reserved else ok (record { raw = v })

abbrev pub IsValid : FuncCode → Type 0
IsValid c = (0 < c.raw) × (c.raw < 65536)
