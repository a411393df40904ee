-- ===== src/Wire/Builder/RoundTrip.antt =====
-- What the builder makes, and what it refuses.
use build_with_opus.Prelude.{
  ℕ, ◌+◌, ◌≤◌, ◌≡◌, refl, Option, none, some, List, ok, err, length, arith, ltb, if◌then◌else◌,
}
use build_with_opus.Prelude.Words.{IsBytes}
use build_with_opus.Wire.Error.{length_mismatch, instance_id_reserved, func_code_reserved}
use build_with_opus.Wire.Apid
use build_with_opus.Wire.SequenceCount
use build_with_opus.Wire.SequenceCount.{SequenceCount}
use build_with_opus.Wire.FuncCode
use build_with_opus.Wire.FuncCode.{FuncCode}
use build_with_opus.Wire.InstanceId
use build_with_opus.Wire.InstanceId.{InstanceId}
use build_with_opus.Wire.Cuc
use build_with_opus.Wire.DataLength
use build_with_opus.Wire.Packet.{SpacePacket, parse, bytes_of, total_len}
use build_with_opus.Wire.Packet.RoundTrip as R
use build_with_opus.Wire.Packet.RoundTrip.{parse-bytes_of, parse-eq-ok}
use build_with_opus.Wire.Builder.{PacketBuilder, build}

-- Every field that is set came out of a sealed constructor.
pub record IsValid (b : PacketBuilder) : Type 0 where
  pub apid_valid : Apid.IsValid b.apid
  pub count_valid : (s : SequenceCount) → b.sequence_count ≡ some s → SequenceCount.IsValid s
  pub cuc_valid : Cuc.IsValid b.cuc
  pub func_code_valid : (c : FuncCode) → b.func_code ≡ some c → FuncCode.IsValid c
  pub instance_valid : (i : InstanceId) → b.instance_id ≡ some i → InstanceId.IsValid i

abbrev pub count_of : PacketBuilder → SequenceCount
count_of b = elim b.sequence_count [ none ↦ record { raw = 0 } | some s ↦ s ]

-- The packet that a builder stands for, once its function code and instance are set.
abbrev pub intended : PacketBuilder → FuncCode → InstanceId → SpacePacket
intended b c i = record {
  primary = record {
    apid = b.apid;
    packet_type = b.packet_type;
    sequence_count = count_of b;
    data_length = record { raw = length b.user_data + 9 };
  };
  secondary = record { time = b.cuc; func_code = c; instance_id = i };
  user_data = b.user_data;
}

-- The longest user data that a 16-bit data length field can declare.
abbrev pub max_user_data : ℕ
max_user_data = 65526

-- On every builder, build reports a missing function code first, then a missing instance, then user
-- data of more than 65526 bytes with the length that it would have to declare, and otherwise writes
-- the two headers and the user data with the length field 9 above the length of the user data.
pub build-cases :
    (b : PacketBuilder)
    → build b ≡ elim b.func_code [
      | none ↦ err func_code_reserved
      | some c ↦ elim b.instance_id [
        | none ↦ err instance_id_reserved
        | some i ↦
            if ltb max_user_data (length b.user_data)
            then err (length_mismatch (length b.user_data + 9) 65542)
            else ok (bytes_of (intended b c i))
      ]
    ]
unfolding build SequenceCount.new DataLength.new
build-cases b = ground arith

intended-IsValid :
    (b : PacketBuilder) (c : FuncCode) (i : InstanceId)
    → IsValid b
    → b.func_code ≡ some c
    → b.instance_id ≡ some i
    → length b.user_data ≤ max_user_data
    → R.IsValid (intended b c i)
unfolding total_len
intended-IsValid b c i v hc hi h = record {
  primary_valid = record {
    apid_valid = v.apid_valid;
    sequence_count_valid = count_in_range b.sequence_count v.count_valid;
    data_length_valid = omega arith;
  };
  secondary_valid = record {
    time_valid = v.cuc_valid;
    func_code_valid = v.func_code_valid c hc;
    instance_id_valid = v.instance_valid i hi;
  };
  declared = omega arith;
}
  where
    count_in_range :
        (o : Option SequenceCount)
        → ((s : SequenceCount) → o ≡ some s → SequenceCount.IsValid s)
        → SequenceCount.IsValid (elim o [ none ↦ record { raw = 0 } | some s ↦ s ])
    count_in_range none valid = omega arith
    count_in_range (some s) valid = valid s refl

-- A builder whose fields are in range, with its function code and instance set and at most 65526
-- bytes of user data, builds a packet, and the parser reads exactly the fields of the builder back
-- from it, a count that was not set as 0.
pub parse-build :
    (b : PacketBuilder) (c : FuncCode) (i : InstanceId)
    → IsValid b
    → b.func_code ≡ some c
    → b.instance_id ≡ some i
    → length b.user_data ≤ max_user_data
    → (buf : List ℕ) × (build b ≡ ok buf) × (parse buf ≡ ok (intended b c i))
parse-build b c i v hc hi h = (
  bytes_of (intended b c i),
  ground (arith, build-cases b),
  parse-bytes_of (intended b c i) (intended-IsValid b c i v hc hi h),
)

-- The builder that copies every field of a packet.
abbrev pub copy_of : SpacePacket → PacketBuilder
copy_of p = record {
  apid = p.primary.apid;
  packet_type = p.primary.packet_type;
  sequence_count = some p.primary.sequence_count;
  cuc = p.secondary.time;
  func_code = some p.secondary.func_code;
  instance_id = some p.secondary.instance_id;
  user_data = p.user_data;
}

-- It builds the very buffer that the packet was parsed from.
pub build-copy_of :
    (buf : List ℕ) (p : SpacePacket) → IsBytes buf → parse buf ≡ ok p → build (copy_of p) ≡ ok buf
build-copy_of buf p b e =
    let (whole, valid) = parse-eq-ok buf p b e in
    ground (
      arith,
      build-cases (copy_of p),
      declared_length p valid,
      whole,
      valid.primary_valid.data_length_valid,
    )
  where
    declared_length :
        (p : SpacePacket) → R.IsValid p → p.primary.data_length.raw ≡ length p.user_data + 9
    declared_length p v = unfold total_len in omega (arith, v.declared)
