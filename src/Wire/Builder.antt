-- ===== src/Wire/Builder.antt =====
-- rust/ccsds_wire/src/builder.rs: the only way in which the program makes packets.
pub mod RoundTrip
use build_with_opus.Prelude.{
  ℕ, ◌+◌, ◌-◌, Option, none, some, List, [], ◌++◌, ok, err, length, ◌>>=◌, ok_or, leb,
  if◌then◌else◌,
}
use build_with_opus.Wire.Error.{Decoded, length_mismatch, instance_id_reserved, func_code_reserved}
use build_with_opus.Wire.Apid.{Apid}
use build_with_opus.Wire.PacketType.{PacketType, tm, tc}
use build_with_opus.Wire.SequenceCount
use build_with_opus.Wire.SequenceCount.{SequenceCount}
use build_with_opus.Wire.DataLength
use build_with_opus.Wire.FuncCode.{FuncCode}
use build_with_opus.Wire.InstanceId.{InstanceId}
use build_with_opus.Wire.Cuc.{Cuc}
use build_with_opus.Wire.Primary
use build_with_opus.Wire.Primary.{PrimaryHeader}
use build_with_opus.Wire.Secondary
use build_with_opus.Wire.Secondary.{SecondaryHeader}

pub record PacketBuilder : Type 0 where
  pub apid : Apid
  pub packet_type : PacketType
  pub sequence_count : Option SequenceCount
  pub cuc : Cuc
  pub func_code : Option FuncCode
  pub instance_id : Option InstanceId
  pub user_data : List ℕ

unfoldable pub new : Apid → PacketType → PacketBuilder
new apid packet_type = record {
  apid = apid;
  packet_type = packet_type;
  sequence_count = none;
  cuc = record { coarse = 0; fine = 0 };
  func_code = none;
  instance_id = none;
  user_data = [];
}

unfoldable pub new_tm : Apid → PacketBuilder
unfolding new
new_tm apid = new apid tm

unfoldable pub new_tc : Apid → PacketBuilder
unfolding new
new_tc apid = new apid tc

abbrev pub with_func_code : FuncCode → PacketBuilder → PacketBuilder
with_func_code v b = record b { func_code = some v }

abbrev pub with_instance_id : InstanceId → PacketBuilder → PacketBuilder
with_instance_id v b = record b { instance_id = some v }

abbrev pub with_cuc : Cuc → PacketBuilder → PacketBuilder
with_cuc v b = record b { cuc = v }

abbrev pub with_sequence_count : SequenceCount → PacketBuilder → PacketBuilder
with_sequence_count v b = record b { sequence_count = some v }

abbrev pub with_user_data : List ℕ → PacketBuilder → PacketBuilder
with_user_data v b = record b { user_data = v }

-- A count that is not set is 0.
count_or_zero : Option SequenceCount → Decoded SequenceCount
count_or_zero none = SequenceCount.new 0
count_or_zero (some s) = ok s

-- `u16::try_from`. The checked sum of the source cannot overflow a usize, and its difference is
-- exact, since the header alone has ten bytes.
data_length_of : List ℕ → Decoded ℕ
data_length_of user_data =
    let raw_dl = Secondary.len + length user_data - 1 in
    if leb raw_dl 65535 then ok raw_dl else err (length_mismatch raw_dl (65535 + 7))

unfoldable pub build : PacketBuilder → Decoded (List ℕ)
unfolding count_or_zero data_length_of
build b = do
  func_code ← ok_or b.func_code func_code_reserved
  instance_id ← ok_or b.instance_id instance_id_reserved
  sequence_count ← count_or_zero b.sequence_count
  dl ← data_length_of b.user_data
  let secondary : SecondaryHeader = record {
    time = b.cuc;
    func_code = func_code;
    instance_id = instance_id;
  }
  let primary : PrimaryHeader = record {
    apid = b.apid;
    packet_type = b.packet_type;
    sequence_count = sequence_count;
    data_length = DataLength.new dl;
  }
  ok (Primary.encode primary ++ (Secondary.encode secondary ++ b.user_data))
