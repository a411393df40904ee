-- ===== src/Uplink/TcBuilder/RoundTrip.antt =====
-- What an operator's intent becomes, and which intent is refused.
use build_with_opus.Prelude.{
  ℕ, ◌≤◌, length, ◌≡◌, refl, ap, ◌∙◌, false, some, List, ok, err, if◌then◌else◌, arith, Bool-cases,
  inl, inr, map_err,
}
use build_with_opus.Wire.Apid
use build_with_opus.Wire.SequenceCount
use build_with_opus.Wire.SequenceCount.{SequenceCount}
use build_with_opus.Wire.FuncCode
use build_with_opus.Wire.InstanceId
use build_with_opus.Wire.PacketType.{tc}
use build_with_opus.Wire.Cuc
use build_with_opus.Wire.Cuc.{Cuc}
use build_with_opus.Wire.Packet.{SpacePacket, parse}
use build_with_opus.Wire.Packet.RoundTrip.{parsed_parts}
use build_with_opus.Wire.Builder
use build_with_opus.Wire.Builder.{PacketBuilder}
use build_with_opus.Wire.Builder.RoundTrip as B
use build_with_opus.Wire.Builder.RoundTrip.{intended, parse-build}
use build_with_opus.Uplink.TcBuilder.{TcIntent, Decomposed, forbidden_param, serialize, build}
use build_with_opus.Uplink.TcBuilder.Catalog.{
  meaning, IsTyped, is_excessive, Describes, decompose_meaning, decompose_excessive,
}

abbrev builder_of : Decomposed → SequenceCount → Cuc → PacketBuilder
builder_of d seq now = record {
  apid = record { raw = d.apid_raw };
  packet_type = tc;
  sequence_count = some seq;
  cuc = now;
  func_code = some (record { raw = d.func_raw });
  instance_id = some (record { raw = 1 });
  user_data = d.user_data;
}

abbrev packet_of : Decomposed → SequenceCount → Cuc → SpacePacket
packet_of d seq now =
    intended (builder_of d seq now) (record { raw = d.func_raw }) (record { raw = 1 })

-- The packet means the intent, and carries the sequence count and the time that were asked for.
pub record Commands (intent : TcIntent) (seq : SequenceCount) (now : Cuc) (p : SpacePacket)
    : Type 0 where
  pub means : meaning p.primary.apid.raw p.secondary.func_code.raw p.user_data ≡ some intent
  pub command : p.primary.packet_type ≡ tc
  pub count : p.primary.sequence_count ≡ seq
  pub time : p.secondary.time ≡ now
  pub instance_one : p.secondary.instance_id.raw ≡ 1

build_described :
    (intent : TcIntent) (d : Decomposed) (seq : SequenceCount) (now : Cuc)
    → Describes intent d
    → build intent seq now ≡ map_err serialize (Builder.build (builder_of d seq now))
unfolding build Apid.new FuncCode.new InstanceId.new Builder.new_tc Builder.new
build_described intent d seq now h = ground (arith, h.decomposes, h.addresses, h.instance_one)

builder-IsValid :
    (intent : TcIntent) (d : Decomposed) (seq : SequenceCount) (now : Cuc)
    → Describes intent d
    → SequenceCount.IsValid seq
    → Cuc.IsValid now
    → B.IsValid (builder_of d seq now)
builder-IsValid intent d seq now h hs hn = record {
  apid_valid = h.addresses.0.1;
  count_valid = λ s e. ground (arith, e, hs);
  cuc_valid = hn;
  func_code_valid = λ c e. ground (arith, e, h.addresses);
  instance_valid = λ i e. ground (arith, e);
}

-- The packet, and that it is short.
pub build_small :
    (intent : TcIntent) (seq : SequenceCount) (now : Cuc)
    → IsTyped intent
    → is_excessive intent ≡ false
    → SequenceCount.IsValid seq
    → Cuc.IsValid now
    → (bytes : List ℕ) × (build intent seq now ≡ ok bytes)
      × ((p : SpacePacket) × (parse bytes ≡ ok p) × Commands intent seq now p)
      × (length bytes ≤ 34)
build_small intent seq now typed safe hs hn =
    let (d, h) = decompose_meaning intent typed safe in
    let (bytes, built, parsed) =
      parse-build (builder_of d seq now) (record { raw = d.func_raw }) (record { raw = 1 })
        (builder-IsValid intent d seq now h hs hn) refl refl (omega (arith, h.short)) in
    (
      bytes,
      build_described intent d seq now h ∙ ap (map_err serialize) built,
      (
        packet_of d seq now,
        parsed,
        record { means = h.means; command = refl; count = refl; time = refl; instance_one = refl },
      ),
      omega (arith, (parsed_parts bytes (packet_of d seq now) parsed).3, h.short),
    )

-- An intent whose fields fit their widths and whose drill current is not above 1000 becomes a
-- packet that the parser accepts, and that packet is a telecommand to instance 1, with the sequence
-- count and the time that were asked for, whose address, function code and user data mean exactly
-- the intent when they are read as the command catalogue says.
pub build-intent :
    (intent : TcIntent) (seq : SequenceCount) (now : Cuc)
    → IsTyped intent
    → is_excessive intent ≡ false
    → SequenceCount.IsValid seq
    → Cuc.IsValid now
    → (bytes : List ℕ) × (build intent seq now ≡ ok bytes)
      × ((p : SpacePacket) × (parse bytes ≡ ok p) × Commands intent seq now p)
build-intent intent seq now typed safe hs hn =
    let (bytes, built, parsed, _) = build_small intent seq now typed safe hs hn in
    (bytes, built, parsed)

-- An intent is refused as a forbidden parameter exactly if it sets a drill current above 1000, and
-- no other error occurs, as long as the fields fit their widths.
pub build_forbidden :
    (intent : TcIntent) (seq : SequenceCount) (now : Cuc)
    → IsTyped intent
    → SequenceCount.IsValid seq
    → Cuc.IsValid now
    → if is_excessive intent
      then build intent seq now ≡ err forbidden_param
      else (bytes : List ℕ) × (build intent seq now ≡ ok bytes)
unfolding build
build_forbidden intent seq now typed hs hn = elim (Bool-cases (is_excessive intent)) [
  | inl e ↦ rw e (rw (decompose_excessive intent e, build) refl)
  | inr e ↦ rw e (let r = build-intent intent seq now typed e hs hn in (r.0, r.1))
]
