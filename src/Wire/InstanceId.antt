-- ===== src/Wire/InstanceId.antt =====
-- rust/ccsds_wire/src/primitives.rs: the 8-bit instance identifier, of which 0 is reserved.
use build_with_opus.Prelude.{ℕ, ◌<◌, ok, err, ◌==◌, if◌then◌else◌}
use build_with_opus.Wire.Error.{Decoded, instance_id_reserved}

pub record InstanceId : Type 0 where
  pub raw : ℕ

unfoldable pub new : ℕ → Decoded InstanceId
new v = if v == 0 then err instance_id_reserved else ok (record { raw = v })

abbrev pub IsValid : InstanceId → Type 0
IsValid i = (0 < i.raw) × (i.raw < 256)
