-- ===== src/Wire/PacketType.antt =====
-- rust/ccsds_wire/src/packet_type.rs: telemetry or telecommand, one bit on the wire.
use build_with_opus.Prelude.{ℕ, bit_and, ◌==◌, if◌then◌else◌}

pub data PacketType : Type 0 where
  tm tc : PacketType

unfoldable pub from_bit : ℕ → PacketType
from_bit b = if bit_and b 1 == 0 then tm else tc

unfoldable pub as_bit : PacketType → ℕ
as_bit tm = 0
as_bit tc = 1
