-- ===== src/Injector.antt =====
-- rust/ground_station/src/bin/demo_injector.rs: the frames that the demonstration tool sends. What
-- goes out by the socket is in the answers; an error of the socket ends the tool.
pub mod Floats
pub mod Payloads
pub mod Rovers
pub mod Titan
pub mod Events
pub mod Tick
pub mod Delivery
pub mod Lengths
pub mod Refused
pub mod Clock
pub mod Runs
use build_with_opus.Prelude.{
  ℕ, ◌+◌, ◌-◌, ◌%◌, ◌^◌, bit_and, bit_or, min, List, [], ◌∷◌, ◌++◌, ok, ◌>>=◌, length, take,
  replicate,
}
use build_with_opus.Prelude.Words.{◌<<<◌, ◌>>>◌, u16_to_be}
use build_with_opus.Wire.Error.{Decoded}
use build_with_opus.Wire.Apid
use build_with_opus.Wire.SequenceCount
use build_with_opus.Wire.FuncCode
use build_with_opus.Wire.InstanceId
use build_with_opus.Wire.Builder.{
  new_tm, with_sequence_count, with_cuc, with_func_code, with_instance_id, with_user_data, build,
}

abbrev pub aos_frame_len : ℕ
aos_frame_len = 1024

abbrev pub fecf_payload_len : ℕ
fecf_payload_len = aos_frame_len - 2

abbrev pub primary_header_len : ℕ
primary_header_len = 6

abbrev pub data_field_max : ℕ
data_field_max = fecf_payload_len - primary_header_len

abbrev pub scid : ℕ
scid = 42

pub record InjectorState : Type 0 where
  pub tick : ℕ  -- u32
  pub seq : ℕ  -- u16
  pub frame_ctr : ℕ  -- u8

abbrev pub initial : InjectorState
initial = record { tick = 0; seq = 0; frame_ctr = 0 }

unfoldable pub next_seq : InjectorState → InjectorState × ℕ
next_seq s = (record s { seq = bit_and ((s.seq + 1) % 2 ^ 16) 0x3FFF }, s.seq)

unfoldable pub next_frame_ctr : InjectorState → InjectorState × ℕ
next_frame_ctr s = (record s { frame_ctr = (s.frame_ctr + 1) % 2 ^ 8 }, s.frame_ctr)

-- The primary header of a frame.
pub frame_header : ℕ → ℕ → List ℕ
frame_header vc_id frame_ctr =
    bit_or (0b01 <<< 6) (scid >>> 2)
    ∷ bit_or (bit_and scid 0x03 <<< 6) (bit_and vc_id 0x3F)
    ∷ 0
    ∷ frame_ctr
    ∷ frame_ctr
    ∷ 0x00
    ∷ []

-- The first 1016 bytes of the packet, and zeros in the rest of the data field.
pub data_field : List ℕ → List ℕ
data_field pkt =
    let copy_len = min (length pkt) data_field_max in
    take copy_len pkt ++ replicate (data_field_max - copy_len) 0

-- The checksum of the `crc` crate is an argument.
unfoldable pub build_aos_frame : (List ℕ → ℕ) → List ℕ → ℕ → ℕ → List ℕ
build_aos_frame crc16 pkt vc_id frame_ctr =
    let body = frame_header vc_id frame_ctr ++ data_field pkt in body ++ u16_to_be (crc16 body)

-- The packet of `send`, for a sequence count.
unfoldable pub packet : ℕ → ℕ → ℕ → List ℕ → Decoded (List ℕ)
packet apid seq tai user_data = do
  apid' ← Apid.new apid
  count ← SequenceCount.new seq
  func_code ← FuncCode.new 0x0002
  instance_id ← InstanceId.new 1
  build (
      with_user_data user_data (
        with_instance_id instance_id (
          with_func_code func_code (
            with_cuc (record { coarse = tai; fine = 0 })
              (with_sequence_count count (new_tm apid'))))))

unfoldable pub send :
    (List ℕ → ℕ) → ℕ → ℕ → ℕ → List ℕ → InjectorState → Decoded (InjectorState × List ℕ)
send crc16 apid vc_id tai user_data s = do
  let (numbered, seq) = next_seq s
  pkt ← packet apid seq tai user_data
  let (counted, frame_ctr) = next_frame_ctr numbered
  ok (counted, build_aos_frame crc16 pkt vc_id frame_ctr)

-- The clock's Unix seconds come from outside; `as u32` keeps the low bits of a u64.
unfoldable pub tai_now : ℕ → ℕ
tai_now unix_s = min (unix_s + 37) (2 ^ 64 - 1) % 2 ^ 32
