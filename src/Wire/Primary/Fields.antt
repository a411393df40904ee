-- ===== src/Wire/Primary/Fields.antt =====
-- The bit operations of the primary header, as arithmetic on its fields.
use build_with_opus.Prelude.{
  ℕ, ◌+◌, ◌*◌, ◌/◌, ◌%◌, ◌≤◌, bit_and, bit_or, ◌≡◌, refl, ok, err, ◌==◌, if◌then◌else◌, arith,
}
use build_with_opus.Prelude.Bits.{low_mask, disjoint_or, agree_below, agree_below→eq}
use build_with_opus.Prelude.Words.{IsByte}
use build_with_opus.Wire.Error.{Decoded, invalid_version, sequence_flags_not_standalone}
use build_with_opus.Wire.Apid
use build_with_opus.Wire.PacketType
use build_with_opus.Wire.PacketType.{PacketType, tm, tc}
use build_with_opus.Wire.SequenceCount
use build_with_opus.Wire.DataLength
use build_with_opus.Wire.Primary.{PrimaryHeader, pkt_id, pkt_seq, top4, decode_head}

pub pkt_id_sum :
    (t : PacketType) (a : ℕ) → a ≤ 0x7FF → pkt_id t a ≡ PacketType.as_bit t * 4096 + 2048 + a
unfolding pkt_id PacketType.as_bit
pkt_id_sum tm a h = ground (arith, low_mask 11 a, disjoint_or 11 1 (bit_and a 0x7FF))
pkt_id_sum tc a h = ground (arith, low_mask 11 a, disjoint_or 11 3 (bit_and a 0x7FF))

pub pkt_seq_sum : (s : ℕ) → s ≤ 0x3FFF → pkt_seq s ≡ 49152 + s
unfolding pkt_seq
pkt_seq_sum s h = ground (arith, low_mask 14 s, disjoint_or 14 3 (bit_and s 0x3FFF))

pub top4_bits : (b : ℕ) → IsByte b → top4 b ≡ b / 32 * 2 + b / 8 % 2
unfolding top4 agree_below
top4_bits = agree_below→eq _ _ 256 refl

abbrev pub type_of_bit : ℕ → PacketType
type_of_bit b = if b == 0 then tm else tc

-- The decoder on six bytes without the arms that its masks rule out.
abbrev pub decoded_fields : ℕ → ℕ → ℕ → ℕ → ℕ → ℕ → Decoded PrimaryHeader
decoded_fields b0 b1 b2 b3 b4 b5 =
    if b0 / 32 * 2 + b0 / 8 % 2 == 1
    then if b2 / 64 == 3
      then ok (record {
        apid = record { raw = b0 % 8 * 256 + b1 };
        packet_type = type_of_bit (b0 / 16 % 2);
        sequence_count = record { raw = b2 % 64 * 256 + b3 };
        data_length = record { raw = b4 * 256 + b5 };
      })
      else err (sequence_flags_not_standalone (b2 / 64))
    else err (invalid_version (b0 / 32 * 2 + b0 / 8 % 2))

-- The type bit is read through two masks.
type_bit : (b : ℕ) → PacketType.from_bit (bit_and (b / 16) 1) ≡ type_of_bit (b / 16 % 2)
unfolding PacketType.from_bit
type_bit b = ground (arith, low_mask 1 (b / 16), low_mask 1 (bit_and (b / 16) 1))

apid_field :
    (b0 b1 : ℕ)
    → IsByte b1
    → Apid.new (bit_or (bit_and b0 7 * 256) b1) ≡ ok (record { raw = b0 % 8 * 256 + b1 })
unfolding Apid.new
apid_field b0 b1 h = ground (arith, low_mask 3 b0, disjoint_or 8 (bit_and b0 7) b1)

count_field :
    (b2 b3 : ℕ)
    → IsByte b3
    → SequenceCount.new (bit_or (bit_and b2 63 * 256) b3) ≡ ok (record { raw = b2 % 64 * 256 + b3 })
unfolding SequenceCount.new
count_field b2 b3 h = ground (arith, low_mask 6 b2, disjoint_or 8 (bit_and b2 63) b3)

pub decode_head-fields :
    (b0 b1 b2 b3 b4 b5 : ℕ)
    → IsByte b0
    → IsByte b1
    → IsByte b2
    → IsByte b3
    → decode_head b0 b1 b2 b3 b4 b5 ≡ decoded_fields b0 b1 b2 b3 b4 b5
unfolding decode_head DataLength.new
decode_head-fields b0 b1 b2 b3 b4 b5 h0 h1 h2 h3 = ground (
  arith,
  top4_bits b0 h0,
  type_bit b0,
  apid_field b0 b1 h1,
  low_mask 2 (b2 / 64),
  count_field b2 b3 h3,
)
