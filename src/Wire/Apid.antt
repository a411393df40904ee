-- ===== src/Wire/Apid.antt =====
-- rust/ccsds_wire/src/apid.rs: the 11-bit application process identifier.
use build_with_opus.Prelude.{ℕ, ◌≤◌, ok, err, ltb, if◌then◌else◌}
use build_with_opus.Wire.Error.{Decoded, apid_out_of_range}

-- The field is private in the source, so that only `new` builds a value.
pub record Apid : Type 0 where
  pub raw : ℕ

abbrev pub max : ℕ
max = 0x7FF

abbrev pub idle : Apid
idle = record { raw = max }

unfoldable pub new : ℕ → Decoded Apid
new v = if ltb max v then err (apid_out_of_range v) else ok (record { raw = v })

-- What the constructor establishes.
abbrev pub IsValid : Apid → Type 0
IsValid a = a.raw ≤ max
