-- ===== src/Uplink/TcFramer.antt =====
-- rust/ground_station/src/uplink/framer.rs: telecommand transfer frames.
pub mod Deframe
use build_with_opus.Prelude.{
  ℕ, ◌+◌, ◌-◌, ◌%◌, bit_and, bit_or, List, [], ◌∷◌, ◌++◌, Result, ok, err, length, ltb,
  if◌then◌else◌,
}
use build_with_opus.Prelude.Words.{◌<<<◌, ◌>>>◌, u16_to_be}
use build_with_opus.Uplink.Fop1.{TcFrameType, type_ad, type_bd, type_bc, TcFrame}

abbrev pub tc_frame_max_bytes : ℕ
tc_frame_max_bytes = 512

pub record TcFramer : Type 0 where
  pub spacecraft_id : ℕ  -- u16

pub data FramerError : Type 0 where
  payload_too_large : ℕ → FramerError

-- `(bypass, cc)`
pub flags : TcFrameType → ℕ × ℕ
flags type_ad = (0, 0)
flags type_bd = (1, 0)
flags type_bc = (1, 1)

-- The five bytes of the primary header.
pub header : ℕ → ℕ → TcFrame → List ℕ
header scid frame_len_m1 f =
    let (bypass, cc) = flags f.frame_type in
    let vc = bit_and f.vc_id 0x3F in
    bit_or (bit_or (bypass <<< 5) (cc <<< 4)) (bit_and ((scid >>> 8) % 256) 0x03)
    ∷ bit_and scid 0xFF
    ∷ bit_or ((vc <<< 2) % 256) (bit_and ((frame_len_m1 >>> 8) % 256) 0x03)
    ∷ bit_and frame_len_m1 0xFF
    ∷ f.sequence
    ∷ []

-- The checksum of the `crc` crate is an argument.
pub frame : (List ℕ → ℕ) → TcFramer → TcFrame → Result FramerError (List ℕ)
frame crc16 framer f =
    let payload_len = length f.payload in
    let total_len = 5 + payload_len + 2 in
    let out = header framer.spacecraft_id ((total_len - 1) % 65536) f ++ f.payload in
    if ltb tc_frame_max_bytes total_len
    then err (payload_too_large payload_len)
    else ok (out ++ u16_to_be (crc16 out))
