-- ===== src/Bindings/Runs.antt =====
-- The message theorems at a concrete telecommand.
use build_with_opus.Prelude.{ℕ, ◌≡◌, refl, List, [], ◌∷◌, ok, arith}
use build_with_opus.Wire.Apid
use build_with_opus.Wire.SequenceCount
use build_with_opus.Wire.DataLength
use build_with_opus.Wire.FuncCode
use build_with_opus.Wire.InstanceId
use build_with_opus.Wire.PacketType
use build_with_opus.Wire.Cuc
use build_with_opus.Wire.Primary
use build_with_opus.Wire.Secondary
use build_with_opus.Wire.Packet
use build_with_opus.Bindings.Message.{Message, from_bytes}
use build_with_opus.Bindings.Convert.{to_c_message, from_c_message, from_c_message-to_c_message}

abbrev noop : List ℕ
noop =
    0x19 ∷ 0x81 ∷ 0xC0 ∷ 0x05 ∷ 0x00 ∷ 0x09 ∷ 0x2F ∷ 0x12 ∷ 0x34 ∷ 0x56 ∷ 0x78 ∷ 0xAA ∷ 0xBB ∷ 0x01
    ∷ 0x00 ∷ 0x01 ∷ []

abbrev noop_message : Message
noop_message = record { bytes = noop }

from_bytes-noop : from_bytes noop ≡ ok noop_message
unfolding from_bytes Packet.parse Primary.decode Primary.decode_head Primary.top4
    PacketType.from_bit Apid.new SequenceCount.new DataLength.new Secondary.decode Cuc.decode_be
    FuncCode.new InstanceId.new
from_bytes-noop = refl

from_c_message-to_c_message_example : from_c_message noop_message ≡ ok noop
unfolding to_c_message
from_c_message-to_c_message_example =
    from_c_message-to_c_message noop noop_message (omega arith) from_bytes-noop
