-- ===== src/Bindings/Message.antt =====
-- rust/cfs_bindings/src/message.rs: the validated message buffer.
use build_with_opus.Prelude.{ℕ, ◌≡◌, Bool, true, false, List, ◌∷◌, ok, ◌>>=◌, ok_steps, arith}
use build_with_opus.Prelude.Words.{IsBytes, u16_from_be}
use build_with_opus.Wire.Error.{Decoded}
use build_with_opus.Wire.PacketType
use build_with_opus.Wire.PacketType.{PacketType, tm, tc}
use build_with_opus.Wire.Primary
use build_with_opus.Wire.Primary.Fields.{pkt_id_sum}
use build_with_opus.Wire.Packet
use build_with_opus.Wire.Packet.{SpacePacket, bytes_of}
use build_with_opus.Wire.Packet.RoundTrip as R
use build_with_opus.Bindings.MsgId
use build_with_opus.Bindings.MsgId.{MsgId}

-- The field is private in the source: `from_bytes` is the only way to make a message.
pub record Message : Type 0 where
  pub bytes : List ℕ

abbrev pub is_tc : PacketType → Bool
is_tc tc = true
is_tc tm = false

unfoldable pub from_bytes : List ℕ → Decoded Message
from_bytes bytes = do pkt ← Packet.parse bytes; ok (record { bytes = bytes })

unfoldable pub msg_id : Message → Decoded MsgId
msg_id m = do
  pkt ← Packet.parse m.bytes
  ok (MsgId.from_apid pkt.primary.apid (is_tc pkt.primary.packet_type))

unfoldable pub as_space_packet : Message → Decoded SpacePacket
as_space_packet m = Packet.parse m.bytes

-- A message can only be made from a buffer that parses, and it keeps that buffer.
pub from_bytes-eq-ok :
    (bytes : List ℕ) (m : Message)
    → from_bytes bytes ≡ ok m
    → (p : SpacePacket) × (Packet.parse bytes ≡ ok p) × (m ≡ record { bytes = bytes })
unfolding from_bytes
from_bytes-eq-ok bytes m e =
    let (p, made, parsed) =
      ok_steps (λ _. ok (record { bytes = bytes })) (Packet.parse bytes) m e in
    (p, parsed, ground arith)

first_word :
    (b0 b1 : ℕ) (rest : List ℕ) (p : SpacePacket)
    → bytes_of p ≡ b0 ∷ b1 ∷ rest
    → R.IsValid p
    → IsBytes (b0 ∷ b1 ∷ rest)
    → (MsgId.from_apid p.primary.apid (is_tc p.primary.packet_type)).raw ≡ u16_from_be b0 b1
unfolding Primary.encode PacketType.as_bit
first_word b0 b1 rest p e v b = ground (
  arith,
  MsgId.from_apid_sum p.primary.apid (is_tc p.primary.packet_type) v.primary_valid.apid_valid,
  pkt_id_sum p.primary.packet_type p.primary.apid.raw v.primary_valid.apid_valid,
  v.primary_valid.apid_valid,
)

-- The identifier of a message that was made from bytes is the first 16-bit word of those bytes.
pub msg_id-from_bytes :
    (b0 b1 : ℕ) (rest : List ℕ) {m : Message}
    → IsBytes (b0 ∷ b1 ∷ rest)
    → from_bytes (b0 ∷ b1 ∷ rest) ≡ ok m
    → msg_id m ≡ ok (record { raw = u16_from_be b0 b1 })
unfolding msg_id
msg_id-from_bytes b0 b1 rest {m} b e =
    let (p, parsed, made) = from_bytes-eq-ok (b0 ∷ b1 ∷ rest) m e in
    let (whole, valid) = R.parse-eq-ok (b0 ∷ b1 ∷ rest) p b parsed in
    ground (arith, parsed, made, first_word b0 b1 rest p whole valid b)
