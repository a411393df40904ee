-- ===== src/Uplink/TcFramer/Deframe.antt =====
-- The frame as CCSDS 232.0-B-3 reads it, and that the framer writes it so.
use build_with_opus.Prelude.{
  ℕ, ◌+◌, ◌-◌, ◌*◌, ◌/◌, ◌%◌, ◌≤◌, ◌<◌, bit_and, bit_or, ◌≡◌, refl, Bool-cases, inl, inr, Option,
  none, some, List, [], ◌∷◌, ◌++◌, ok, err, length, take, drop, ltb, if◌then◌else◌, length-append,
  take-append, drop-append, arith,
}
use build_with_opus.Prelude.Bits.{low_mask, disjoint_or}
use build_with_opus.Prelude.Words.{u16_to_be}
use build_with_opus.Uplink.Fop1.{TcFrameType, type_ad, type_bd, type_bc, TcFrame}
use build_with_opus.Uplink.TcFramer.{TcFramer, payload_too_large, flags, header, frame}

-- The fields of a frame; the frame type is given by two flags.
pub record FrameFields : Type 0 where
  pub version : ℕ
  pub bypass : ℕ
  pub control : ℕ
  pub reserved : ℕ
  pub spacecraft_id : ℕ
  pub virtual_channel : ℕ
  pub frame_length : ℕ
  pub sequence : ℕ
  pub payload : List ℕ
  pub fecf : List ℕ

pub deframe : List ℕ → Option FrameFields
deframe (b0 ∷ b1 ∷ b2 ∷ b3 ∷ b4 ∷ rest) = some (record {
  version = b0 / 64;
  bypass = b0 / 32 % 2;
  control = b0 / 16 % 2;
  reserved = b0 / 4 % 4;
  spacecraft_id = b0 % 4 * 256 + b1;
  virtual_channel = b2 / 4;
  frame_length = b2 % 4 * 256 + b3 + 1;
  sequence = b4;
  payload = take (length rest - 2) rest;
  fecf = drop (length rest - 2) rest;
})
deframe _ = none

-- The flags of CCSDS 232.0-B-3: the expedited service bypasses the acceptance check, and control
-- commands are sent in it too.
abbrev pub bypass_of : TcFrameType → ℕ
bypass_of type_ad = 0
bypass_of type_bd = 1
bypass_of type_bc = 1

abbrev pub control_of : TcFrameType → ℕ
control_of type_ad = 0
control_of type_bd = 0
control_of type_bc = 1

flags-eq : (t : TcFrameType) → flags t ≡ (bypass_of t, control_of t)
unfolding flags
flags-eq type_ad = refl
flags-eq type_bd = refl
flags-eq type_bc = refl

-- The fields that a frame stands for.
abbrev pub fields_of : (List ℕ → ℕ) → TcFramer → TcFrame → List ℕ → FrameFields
fields_of crc16 framer f body = record {
  version = 0;
  bypass = bypass_of f.frame_type;
  control = control_of f.frame_type;
  reserved = 0;
  spacecraft_id = framer.spacecraft_id % 1024;
  virtual_channel = f.vc_id % 64;
  frame_length = length f.payload + 7;
  sequence = f.sequence;
  payload = f.payload;
  fecf = u16_to_be (crc16 body);
}

first_byte :
    (scid : ℕ) (t : TcFrameType)
    → bit_or (bit_or ((flags t).0 * 32) ((flags t).1 * 16)) (bit_and (scid / 256 % 256) 3)
      ≡ (flags t).0 * 32 + (flags t).1 * 16 + scid / 256 % 4
unfolding flags
first_byte scid type_ad =
    ground (arith, low_mask 2 (scid / 256 % 256), disjoint_or 4 0 (bit_and (scid / 256 % 256) 3))
first_byte scid type_bd =
    ground (arith, low_mask 2 (scid / 256 % 256), disjoint_or 4 2 (bit_and (scid / 256 % 256) 3))
first_byte scid type_bc =
    ground (arith, low_mask 2 (scid / 256 % 256), disjoint_or 4 3 (bit_and (scid / 256 % 256) 3))

third_byte :
    (vc len : ℕ)
    → len < 1024
    → bit_or (bit_and vc 63 * 4 % 256) (bit_and (len / 256 % 256) 3) ≡ vc % 64 * 4 + len / 256
third_byte vc len h = ground (
  arith,
  low_mask 6 vc,
  low_mask 2 (len / 256 % 256),
  disjoint_or 2 (vc % 64) (bit_and (len / 256 % 256) 3),
)

-- What stands before the checksum.
abbrev body_of : TcFramer → TcFrame → List ℕ
body_of framer f = header framer.spacecraft_id (length f.payload + 6) f ++ f.payload

flags_small : (t : TcFrameType) → ((flags t).0 ≤ 1) × ((flags t).1 ≤ 1)
unfolding flags
flags_small type_ad = omega arith
flags_small type_bd = omega arith
flags_small type_bc = omega arith

split_rest :
    (payload : List ℕ) (c : ℕ)
    → let rest = payload ++ u16_to_be c in
      (take (length rest - 2) rest ≡ payload) × (drop (length rest - 2) rest ≡ u16_to_be c)
split_rest payload c =
    let n : length (payload ++ u16_to_be c) - 2 ≡ length payload =
      omega (arith, length-append payload (u16_to_be c)) in
    rw n (take-append payload (u16_to_be c), drop-append payload (u16_to_be c))

deframe-body_of :
    (crc16 : List ℕ → ℕ) (framer : TcFramer) (f : TcFrame) (c : ℕ)
    → length f.payload ≤ 505
    → deframe (body_of framer f ++ u16_to_be c)
      ≡ some (record (fields_of crc16 framer f []) { fecf = u16_to_be c })
unfolding deframe header
deframe-body_of crc16 framer f c h = ground (
  arith,
  first_byte framer.spacecraft_id f.frame_type,
  flags_small f.frame_type,
  flags-eq f.frame_type,
  third_byte f.vc_id (length f.payload + 6) (omega arith),
  low_mask 8 framer.spacecraft_id,
  low_mask 8 (length f.payload + 6),
  split_rest f.payload c,
)

frame_fits :
    (crc16 : List ℕ → ℕ) (framer : TcFramer) (f : TcFrame)
    → length f.payload ≤ 505
    → frame crc16 framer f ≡ ok (body_of framer f ++ u16_to_be (crc16 (body_of framer f)))
unfolding frame
frame_fits crc16 framer f h =
    let same : (5 + length f.payload + 2 - 1) % 65536 ≡ length f.payload + 6 = omega arith in
    rw same (ground arith)

length-body_of :
    (framer : TcFramer) (f : TcFrame) → length (body_of framer f) ≡ length f.payload + 5
unfolding header
length-body_of framer f = omega arith

frame_short :
    (crc16 : List ℕ → ℕ) (framer : TcFramer) (f : TcFrame)
    → length f.payload ≤ 505
    → (out : List ℕ) × (frame crc16 framer f ≡ ok out)
      × (length out ≤ 512)
      × (deframe out ≡ some (fields_of crc16 framer f (take (length out - 2) out)))
frame_short crc16 framer f h =
    let body = body_of framer f in
    let c = crc16 body in
    (
      body ++ u16_to_be c,
      frame_fits crc16 framer f h,
      omega (arith, length-append body (u16_to_be c), length-body_of framer f),
      rw ((split_rest body c).0) (deframe-body_of crc16 framer f c h),
    )

-- Every frame whose payload has at most 505 bytes is written, with at most 512 bytes, and read as
-- CCSDS 232.0-B-3 says it has version 0, the bypass flag unless its type is AD and the control flag
-- only where it is BC, the low 10 bits of the spacecraft identifier, the low 6 bits of the virtual
-- channel, its own length, the sequence number, the payload and the checksum of all that stands
-- before it. A longer payload is refused.
pub frame-parts :
    (crc16 : List ℕ → ℕ) (framer : TcFramer) (f : TcFrame)
    → if ltb 505 (length f.payload)
      then frame crc16 framer f ≡ err (payload_too_large (length f.payload))
      else (out : List ℕ) × (frame crc16 framer f ≡ ok out)
        × (length out ≤ 512)
        × (deframe out ≡ some (fields_of crc16 framer f (take (length out - 2) out)))
unfolding frame
frame-parts crc16 framer f = elim (Bool-cases (ltb 505 (length f.payload))) [
  | inl e ↦ rw e (ground (arith, e))
  | inr e ↦ rw e (frame_short crc16 framer f (ground (arith, e)))
]
