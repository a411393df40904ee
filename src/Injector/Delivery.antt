-- ===== src/Injector/Delivery.antt =====
-- One packet of the tool on its way through the receiver to the decoder.
use mathlib.Core.List.{append-nil}
use build_with_opus.Prelude.{
  ℕ, ◌+◌, ◌-◌, ◌%◌, ◌/◌, ◌≤◌, ◌<◌, ◌≡◌, ◌≢◌, refl, ap, ◌∙◌, bit_and, bit_or, min, true, suc, none,
  some, List, [], ◌∷◌, ◌++◌, ok, err, length, length-append, length-take, length-replicate, take,
  replicate, take-append, inl, inr, Bool-cases, ◌==◌, if◌then◌else◌, arith,
}
use build_with_opus.Prelude.Bits.{low_mask, disjoint_or}
use build_with_opus.Prelude.Words.{u16_from_be, u16_to_be}
use build_with_opus.Wire.Error.{length_mismatch}
use build_with_opus.Wire.Apid
use build_with_opus.Wire.SequenceCount
use build_with_opus.Wire.FuncCode
use build_with_opus.Wire.InstanceId
use build_with_opus.Wire.PacketType.{tm}
use build_with_opus.Wire.Packet.{SpacePacket, parse}
use build_with_opus.Wire.Packet.Errors.{parse-append}
use build_with_opus.Wire.Builder.{PacketBuilder, build, new, new_tm}
use build_with_opus.Wire.Builder.RoundTrip as B
use build_with_opus.Wire.Builder.RoundTrip.{parse-build}
use build_with_opus.Ingest.Framer.{AosFramer, byte_at, extract, process_frame}
use build_with_opus.Ingest.Framer.Link.{is_intact, process_frame-extract}
use build_with_opus.Ingest.Pipeline.{declared_length}
use build_with_opus.Injector.{
  InjectorState, next_seq, next_frame_ctr, frame_header, data_field, build_aos_frame, packet, send,
}

-- The packet that `send` builds, field by field.
abbrev pub telemetry : ℕ → ℕ → ℕ → List ℕ → SpacePacket
telemetry apid seq tai user_data = record {
  primary = record {
    apid = record { raw = apid };
    packet_type = tm;
    sequence_count = record { raw = seq };
    data_length = record { raw = length user_data + 9 };
  };
  secondary = record {
    time = record { coarse = tai; fine = 0 };
    func_code = record { raw = 2 };
    instance_id = record { raw = 1 };
  };
  user_data = user_data;
}

abbrev builder : ℕ → ℕ → ℕ → List ℕ → PacketBuilder
builder apid seq tai user_data = record {
  apid = record { raw = apid };
  packet_type = tm;
  sequence_count = some (record { raw = seq });
  cuc = record { coarse = tai; fine = 0 };
  func_code = some (record { raw = 2 });
  instance_id = some (record { raw = 1 });
  user_data = user_data;
}

builder-IsValid :
    (apid seq tai : ℕ) (user_data : List ℕ)
    → apid ≤ 0x7FF
    → seq ≤ 0x3FFF
    → tai < 4294967296
    → B.IsValid (builder apid seq tai user_data)
builder-IsValid apid seq tai user_data ha hs ht = record {
  apid_valid = ha;
  count_valid = λ s e. ground arith;
  cuc_valid = (ht, omega arith);
  func_code_valid = λ c e. ground arith;
  instance_valid = λ i e. ground arith;
}

packet-build :
    (apid seq tai : ℕ) (user_data : List ℕ)
    → apid ≤ 0x7FF
    → seq ≤ 0x3FFF
    → packet apid seq tai user_data ≡ build (builder apid seq tai user_data)
unfolding packet Apid.new SequenceCount.new FuncCode.new InstanceId.new new_tm new
packet-build apid seq tai user_data ha hs = ground (arith, ha, hs)

-- What is built is read back, and is sixteen bytes longer than the user data.
pub packet_lem :
    (apid seq tai : ℕ) (user_data : List ℕ)
    → apid ≤ 0x7FF
    → seq ≤ 0x3FFF
    → tai < 4294967296
    → length user_data ≤ 65526
    → (pkt : List ℕ) × (packet apid seq tai user_data ≡ ok pkt)
      × (parse pkt ≡ ok (telemetry apid seq tai user_data))
      × (length pkt ≡ 16 + length user_data)
packet_lem apid seq tai user_data ha hs ht hn =
    let b = builder apid seq tai user_data in
    let (pkt, built, parsed) =
      parse-build b (record { raw = 2 }) (record { raw = 1 })
        (builder-IsValid apid seq tai user_data ha hs ht) refl refl hn in
    (
      pkt,
      packet-build apid seq tai user_data ha hs ∙ built,
      parsed,
      omega (arith, declared_length pkt (telemetry apid seq tai user_data) parsed),
    )

byte_at-append : (xs ys : List ℕ) (i : ℕ) → byte_at (xs ++ ys) (length xs + i) ≡ byte_at ys i
byte_at-append [] ys i = let e : 0 + i ≡ i = omega arith in ap (byte_at ys) e
byte_at-append (x ∷ xs) ys i =
    let e : suc (length xs) + i ≡ suc (length xs + i) = omega arith in
    ap (byte_at (x ∷ xs ++ ys)) e ∙ byte_at-append xs ys i

length-data_field : (pkt : List ℕ) → length (data_field pkt) ≡ 1016
unfolding data_field
length-data_field pkt =
    let copy_len = min (length pkt) 1016 in
    omega (
      arith,
      length-append (take copy_len pkt) (replicate (1016 - copy_len) 0),
      length-take copy_len pkt,
      length-replicate {A = ℕ} (1016 - copy_len) 0,
    )

take_all {ℓ} : {A : Type ℓ} (xs ys : List A) (n : ℕ) → length xs ≡ n → take n (xs ++ ys) ≡ xs
take_all xs ys n h = rw (← h) (take-append xs ys)

take_whole : (xs : List ℕ) → take (length xs) xs ≡ xs
take_whole [] = refl
take_whole (x ∷ xs) = rw (take_whole xs)

-- A packet that is shorter than the data field is followed by zeros.
data_field-short :
    (pkt : List ℕ) → length pkt < 1016 → data_field pkt ≡ pkt ++ replicate (1016 - length pkt) 0
unfolding data_field
data_field-short pkt h =
    let whole : min (length pkt) 1016 ≡ length pkt = omega arith in rw (whole, take_whole pkt) refl

data_field-full : (pkt : List ℕ) → length pkt ≡ 1016 → data_field pkt ≡ pkt
unfolding data_field
data_field-full pkt h =
    let whole : min (length pkt) 1016 ≡ length pkt = omega arith in
    rw (whole, take_whole pkt, h) (append-nil pkt)

-- A packet that fills the data field is read back, and a shorter one is refused for its length.
parse-data_field :
    (pkt : List ℕ) (n : ℕ) {p : SpacePacket}
    → n ≤ 1000
    → parse pkt ≡ ok p
    → length pkt ≡ 16 + n
    → parse (data_field pkt) ≡ (if n == 1000 then ok p else err (length_mismatch (16 + n) 1016))
parse-data_field pkt n h parsed len = elim (Bool-cases (n == 1000)) [
  | inl e ↦ rw e (ap parse (data_field-full pkt (ground (arith, len, e))) ∙ parsed)
  | inr e ↦
      let short : n < 1000 = ground (arith, h, e) in
      let zeros : List ℕ = replicate (1016 - length pkt) 0 in
      let zeros_len : length zeros ≡ 1016 - length pkt =
        length-replicate {A = ℕ} (1016 - length pkt) 0 in
      let padded : zeros ≢ [] = λ empty. omega (arith, ap length empty, zeros_len, len, short) in
      let whole : length pkt + length zeros ≡ 1016 = omega (arith, zeros_len, len, short) in
      rw e (
        ap parse (data_field-short pkt (omega (arith, len, short)))
        ∙ parse-append pkt zeros parsed padded
        ∙ rw (whole, len) refl)
]

word_of_bytes : (c : ℕ) → c < 65536 → (c == u16_from_be (c / 256 % 256) (c % 256)) ≡ true
word_of_bytes c h = ground arith

channel_bits : (vc : ℕ) → bit_and (bit_or 128 (bit_and vc 63)) 63 ≡ vc % 64
channel_bits vc =
    ground (arith, low_mask 6 vc, disjoint_or 7 1 (vc % 64), low_mask 6 (128 + vc % 64))

module _ (crc16 : List ℕ → ℕ) (word : (bytes : List ℕ) → crc16 bytes < 65536) where
  -- The checksum of a frame is right where its last two bytes are that of the others.
  intact_frame :
      (buf body : List ℕ)
      → take 1022 buf ≡ body
      → byte_at buf 1022 ≡ crc16 body / 256 % 256
      → byte_at buf 1023 ≡ crc16 body % 256
      → is_intact crc16 buf ≡ true
  intact_frame buf body front hi lo = rw (front, hi, lo) (word_of_bytes (crc16 body) (word body))

  -- The receiver on a frame without the control field.
  process_frame-bytes :
      (b0 b1 b2 b3 b4 : ℕ) (d : List ℕ) (now : ℕ) (s : AosFramer)
      → length d ≡ 1016
      → let body = b0 ∷ b1 ∷ b2 ∷ b3 ∷ b4 ∷ 0 ∷ d in
        (process_frame crc16 now (body ++ u16_to_be (crc16 body)) s).1
        ≡ some (record { vc_id = bit_and b1 63; ocf = none; data_field = d })
  process_frame-bytes b0 b1 b2 b3 b4 d now s h =
      let body = b0 ∷ b1 ∷ b2 ∷ b3 ∷ b4 ∷ 0 ∷ d in
      let fecf = u16_to_be (crc16 body) in
      let front = take_all d fecf 1016 h in
      let ok_frame : is_intact crc16 (body ++ fecf) ≡ true =
        intact_frame (body ++ fecf) body (rw front refl) (rw h at (byte_at-append d fecf 0))
          (rw h at (byte_at-append d fecf 1)) in
      process_frame-extract crc16 now (body ++ fecf) s ok_frame ∙ unfold extract in rw front refl

  length-build_aos_frame :
      (pkt : List ℕ) (vc frame_ctr : ℕ) → length (build_aos_frame crc16 pkt vc frame_ctr) ≡ 1024
  unfolding build_aos_frame frame_header
  length-build_aos_frame pkt vc frame_ctr =
      let body = frame_header vc frame_ctr ++ data_field pkt in
      omega (arith, length-data_field pkt, length-append (data_field pkt) (u16_to_be (crc16 body)))

  -- The receiver takes the frame, on the channel that it was sent on.
  process_frame-build_aos_frame :
      (pkt : List ℕ) (vc frame_ctr now : ℕ) (s : AosFramer)
      → (process_frame crc16 now (build_aos_frame crc16 pkt vc frame_ctr) s).1
        ≡ some (record { vc_id = vc % 64; ocf = none; data_field = data_field pkt })
  unfolding build_aos_frame frame_header
  process_frame-build_aos_frame pkt vc frame_ctr now s =
      process_frame-bytes 74 (bit_or 128 (bit_and vc 63)) 0 frame_ctr frame_ctr (data_field pkt) now
        s (length-data_field pkt)
      ∙ ap (λ v. some (record { vc_id = v; ocf = none; data_field = data_field pkt }))
          (channel_bits vc)

-- What becomes of one packet of at most 1000 bytes of user data.
pub send-parse :
    (crc16 : List ℕ → ℕ) (word : (bytes : List ℕ) → crc16 bytes < 65536) (apid vc tai : ℕ)
    (user_data : List ℕ) (s : InjectorState)
    → apid ≤ 0x7FF
    → tai < 4294967296
    → s.seq ≤ 0x3FFF
    → length user_data ≤ 1000
    → (t : InjectorState) × (frame : List ℕ) × (d : List ℕ) × (send crc16 apid vc tai user_data s
        ≡ ok (t, frame))
      × (t.tick ≡ s.tick)
      × (t.seq ≡ (s.seq + 1) % 0x4000)
      × (length frame ≡ 1024)
      × ((now : ℕ) (receiver : AosFramer)
          → (process_frame crc16 now frame receiver).1
            ≡ some (record { vc_id = vc % 64; ocf = none; data_field = d }))
      × (parse d ≡ (
          if length user_data == 1000
          then ok (telemetry apid s.seq tai user_data)
          else err (length_mismatch (16 + length user_data) 1016)))
unfolding send next_seq next_frame_ctr
send-parse crc16 word apid vc tai user_data s ha ht hs hn =
    let (pkt, made, parsed, len) = packet_lem apid s.seq tai user_data ha hs ht (omega arith) in
    let ctr = s.frame_ctr in
    (
      record s { seq = bit_and ((s.seq + 1) % 65536) 0x3FFF; frame_ctr = (ctr + 1) % 256 },
      build_aos_frame crc16 pkt vc ctr,
      data_field pkt,
      rw made refl,
      refl,
      ground (arith, low_mask 14 ((s.seq + 1) % 65536)),
      length-build_aos_frame crc16 word pkt vc ctr,
      process_frame-build_aos_frame crc16 word pkt vc ctr,
      parse-data_field pkt (length user_data) hn parsed len,
    )
