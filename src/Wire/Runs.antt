-- ===== src/Wire/Runs.antt =====
-- The codec's theorems at a concrete telecommand.
use build_with_opus.Prelude.{ℕ, ◌≡◌, refl, some, none, List, [], ◌∷◌, ok, err, take, arith}
use build_with_opus.Wire.Error.{length_mismatch}
use build_with_opus.Wire.Apid
use build_with_opus.Wire.SequenceCount
use build_with_opus.Wire.SequenceCount.{SequenceCount}
use build_with_opus.Wire.DataLength
use build_with_opus.Wire.FuncCode
use build_with_opus.Wire.FuncCode.{FuncCode}
use build_with_opus.Wire.InstanceId
use build_with_opus.Wire.InstanceId.{InstanceId}
use build_with_opus.Wire.PacketType
use build_with_opus.Wire.PacketType.{tc}
use build_with_opus.Wire.Cuc
use build_with_opus.Wire.Primary
use build_with_opus.Wire.Secondary
use build_with_opus.Wire.Packet.{parse, bytes_of}
use build_with_opus.Wire.Packet.RoundTrip as R
use build_with_opus.Wire.Packet.Errors.{parse-take}
use build_with_opus.Wire.Builder.{PacketBuilder, build}
use build_with_opus.Wire.Builder.RoundTrip.{IsValid, intended, parse-build}

abbrev set_mode_code : FuncCode
set_mode_code = record { raw = 0x0100 }

abbrev first_instance : InstanceId
first_instance = record { raw = 1 }

abbrev set_mode : PacketBuilder
set_mode = record {
  apid = record { raw = 0x181 };
  packet_type = tc;
  sequence_count = none;
  cuc = record { coarse = 0x1234_5678; fine = 0xAABB };
  func_code = some set_mode_code;
  instance_id = some first_instance;
  user_data = 1 ∷ 2 ∷ [];
}

abbrev wire : List ℕ
wire =
    0x19 ∷ 0x81 ∷ 0xC0 ∷ 0x00 ∷ 0x00 ∷ 0x0B ∷ 0x2F ∷ 0x12 ∷ 0x34 ∷ 0x56 ∷ 0x78 ∷ 0xAA ∷ 0xBB ∷ 0x01
    ∷ 0x00 ∷ 0x01 ∷ 1 ∷ 2 ∷ []

build-wire : build set_mode ≡ ok wire
unfolding build SequenceCount.new DataLength.new Primary.encode Primary.pkt_id Primary.pkt_seq
    PacketType.as_bit Secondary.encode Cuc.encode_be
build-wire = refl

parse-wire : parse wire ≡ ok (intended set_mode set_mode_code first_instance)
unfolding parse Primary.decode Primary.decode_head Primary.top4 PacketType.from_bit Apid.new
    SequenceCount.new DataLength.new Secondary.decode Cuc.decode_be FuncCode.new InstanceId.new
parse-wire = refl

count_unset : (s : SequenceCount) → none ≡ some s → SequenceCount.IsValid s
count_unset s e = absurd (cc)

set_mode-IsValid : IsValid set_mode
set_mode-IsValid = record {
  apid_valid = omega arith;
  count_valid = count_unset;
  cuc_valid = omega arith;
  func_code_valid = λ c e. ground arith;
  instance_valid = λ i e. ground arith;
}

parse-build_example :
    (buf : List ℕ) × (build set_mode ≡ ok buf)
    × (parse buf ≡ ok (intended set_mode set_mode_code first_instance))
parse-build_example =
    parse-build set_mode set_mode_code first_instance set_mode-IsValid refl refl (omega arith)

parse-eq-ok_example :
    (bytes_of (intended set_mode set_mode_code first_instance) ≡ wire)
    × R.IsValid (intended set_mode set_mode_code first_instance)
parse-eq-ok_example =
    R.parse-eq-ok wire (intended set_mode set_mode_code first_instance) (omega arith) parse-wire

parse-take_example : parse (take 17 wire) ≡ err (length_mismatch 18 17)
parse-take_example = parse-take wire 17 parse-wire (omega arith)
