-- ===== src/Wire/DataLength.antt =====
-- rust/ccsds_wire/src/primitives.rs: the 16-bit packet data length field.
use build_with_opus.Prelude.{ℕ, ◌<◌}

pub record PacketDataLength : Type 0 where
  pub raw : ℕ

unfoldable pub new : ℕ → PacketDataLength
new v = record { raw = v }

-- A u16.
abbrev pub IsValid : PacketDataLength → Type 0
IsValid l = l.raw < 65536
