-- ===== src/Wire/Primary.antt =====
-- rust/ccsds_wire/src/primary.rs: the 6-byte primary header.
pub mod Fields
pub mod RoundTrip
use build_with_opus.Prelude.{
  ℕ, ◌*◌, ◌/◌, ◌^◌, bit_and, bit_or, List, [], ◌∷◌, ◌++◌, ok, err, length, ◌>>=◌, ◌>>◌, guard, ◌==◌,
}
use build_with_opus.Prelude.Words.{◌<<<◌, ◌>>>◌, u16_from_be, u16_to_be}
use build_with_opus.Wire.Error.{
  Decoded, buffer_too_short, invalid_version, sequence_flags_not_standalone,
}
use build_with_opus.Wire.Apid
use build_with_opus.Wire.Apid.{Apid}
use build_with_opus.Wire.PacketType
use build_with_opus.Wire.PacketType.{PacketType}
use build_with_opus.Wire.SequenceCount
use build_with_opus.Wire.SequenceCount.{SequenceCount}
use build_with_opus.Wire.DataLength
use build_with_opus.Wire.DataLength.{PacketDataLength}

pub record PrimaryHeader : Type 0 where
  pub apid : Apid
  pub packet_type : PacketType
  pub sequence_count : SequenceCount
  pub data_length : PacketDataLength

-- What the sealed field types establish.
pub record IsValid (h : PrimaryHeader) : Type 0 where
  pub apid_valid : Apid.IsValid h.apid
  pub sequence_count_valid : SequenceCount.IsValid h.sequence_count
  pub data_length_valid : DataLength.IsValid h.data_length

abbrev pub len : ℕ
len = 6

-- Version 0, the type bit, the secondary header flag and the APID.
unfoldable pub pkt_id : PacketType → ℕ → ℕ
pkt_id t apid_raw = bit_or (bit_or 0x0800 (PacketType.as_bit t <<< 12)) (bit_and apid_raw 0x07FF)

-- Sequence flags 0b11 and the count.
unfoldable pub pkt_seq : ℕ → ℕ
pkt_seq seq_raw = bit_or 0xC000 (bit_and seq_raw 0x3FFF)

unfoldable pub encode : PrimaryHeader → List ℕ
encode h =
    u16_to_be (pkt_id h.packet_type h.apid.raw)
    ++ (u16_to_be (pkt_seq h.sequence_count.raw) ++ u16_to_be h.data_length.raw)

-- The version bits and the secondary header flag, without the type bit.
unfoldable pub top4 : ℕ → ℕ
top4 b0 = bit_or (bit_and (b0 >>> 4) 0b1110) (bit_and (b0 >>> 3) 0b0001)

unfoldable pub decode_head : ℕ → ℕ → ℕ → ℕ → ℕ → ℕ → Decoded PrimaryHeader
decode_head b0 b1 b2 b3 b4 b5 = do
  guard (top4 b0 == 0b0001) (invalid_version (top4 b0))
  let packet_type = PacketType.from_bit (bit_and (b0 >>> 4) 0b0000_0001)
  apid ← Apid.new (bit_or (bit_and b0 0b0000_0111 <<< 8) b1)
  let seq_flags = bit_and (b2 >>> 6) 0b0000_0011
  guard (seq_flags == 0b0000_0011) (sequence_flags_not_standalone seq_flags)
  sequence_count ← SequenceCount.new (bit_or (bit_and b2 0b0011_1111 <<< 8) b3)
  let data_length = DataLength.new (u16_from_be b4 b5)
  ok (record {
    apid = apid;
    packet_type = packet_type;
    sequence_count = sequence_count;
    data_length = data_length;
  })

-- Bytes behind the sixth are not read.
unfoldable pub decode : List ℕ → Decoded PrimaryHeader
decode (b0 ∷ b1 ∷ b2 ∷ b3 ∷ b4 ∷ b5 ∷ rest) = decode_head b0 b1 b2 b3 b4 b5
decode buf = err (buffer_too_short len (length buf))
