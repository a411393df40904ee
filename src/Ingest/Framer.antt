-- ===== src/Ingest/Framer.antt =====
-- rust/ground_station/src/ingest/framer.rs: the receiver of AOS transfer frames and the link state.
pub mod Window
pub mod Link
pub mod History
pub mod Stream
use build_with_opus.Prelude.{
  ℕ, ◌+◌, ◌-◌, ◌/◌, ◌%◌, bit_and, Bool, true, false, Option, none, some, List, [], ◌∷◌, leb, ltb,
  ◌==◌, if◌then◌else◌, take, drop, get_elem?,
}
use build_with_opus.Prelude.Words.{◌>>>◌, u16_from_be}
use build_with_opus.Ingest.Carrier.{AosFrame, emitted}
use build_with_opus.Ingest.Framer.Window.{
  FrameWindow, push, prune, valid_count_in, error_rate_above, starved,
}

abbrev pub aos_frame_len : ℕ
aos_frame_len = 1024

abbrev pub fecf_payload_len : ℕ
fecf_payload_len = aos_frame_len - 2

abbrev pub primary_header_len : ℕ
primary_header_len = 6

abbrev pub ocf_offset : ℕ
ocf_offset = aos_frame_len - 2 - 4

abbrev pub degraded_window : ℕ
degraded_window = 30000000000

abbrev pub los_window : ℕ
los_window = 10000000000

abbrev pub aos_rate_window : ℕ
aos_rate_window = 2000000000

abbrev pub aos_sustain : ℕ
aos_sustain = 5000000000

pub data LinkState : Type 0 where
  aos los degraded : LinkState

-- The channels are not in the state: what is sent on them is in the answers below.
pub record AosFramer : Type 0 where
  pub fecf_errors_total : ℕ
  pub last_fecf_event : Option ℕ
  pub link_state : LinkState
  pub aos_condition_since : Option ℕ
  pub frame_window : FrameWindow

unfoldable pub new : AosFramer
new = record {
  fecf_errors_total = 0;
  last_fecf_event = none;
  link_state = los;
  aos_condition_since = none;
  frame_window = [];
}

-- `get_or_insert(now)`
abbrev pub since_or : ℕ → Option ℕ → ℕ
since_or now none = now
since_or now (some since) = since

-- The new state, and the instant since when the rate condition holds.
pub compute_link_state : ℕ → FrameWindow → LinkState → Option ℕ → LinkState × Option ℕ
compute_link_state now w state since =
    if error_rate_above now degraded_window w
    then (degraded, none)
    else if starved now los_window w
    then (los, none)
    else if leb 1 (valid_count_in now aos_rate_window w)
    then (
      (if leb aos_sustain (now - since_or now since) then aos else state),
      some (since_or now since),
    )
    else (state, none)

abbrev pub is_aos : LinkState → Bool
is_aos aos = true
is_aos _ = false

abbrev pub same_state : LinkState → LinkState → Bool
same_state aos aos = true
same_state los los = true
same_state degraded degraded = true
same_state _ _ = false

-- The condition is forgotten on a change to another state than Aos.
pub settle : LinkState → LinkState × Option ℕ → LinkState × Option ℕ
settle prev (state, since) =
    if same_state state prev
    then (prev, since)
    else if is_aos state
    then (state, since)
    else (state, none)

pub update_link_state : ℕ → AosFramer → AosFramer
update_link_state now s =
    let w = prune now degraded_window s.frame_window in
    let (state, since) =
      settle s.link_state (compute_link_state now w s.link_state s.aos_condition_since) in
    record s { frame_window = w; link_state = state; aos_condition_since = since }

pub tick : ℕ → AosFramer → AosFramer
tick = update_link_state

pub maybe_emit_fecf_event : ℕ → AosFramer → AosFramer
maybe_emit_fecf_event now s = record s { last_fecf_event = emitted now s.last_fecf_event }

abbrev pub byte_at : List ℕ → ℕ → ℕ
byte_at buf i = elim (get_elem? buf i) [ none ↦ 0 | some b ↦ b ]

-- `&buf[first..last]`
abbrev pub slice : List ℕ → ℕ → ℕ → List ℕ
slice buf first last = take (last - first) (drop first buf)

-- Steps 2 and 3: the fields of a frame, of which the control field is published too.
unfoldable pub extract : List ℕ → AosFrame
extract buf =
    let ocf_flag = bit_and (byte_at buf 5 >>> 3) 0x01 in
    if ocf_flag == 1
    then record {
      vc_id = bit_and (byte_at buf 1) 0x3F;
      ocf = some (slice buf ocf_offset (ocf_offset + 4));
      data_field = slice buf primary_header_len ocf_offset;
    }
    else record {
      vc_id = bit_and (byte_at buf 1) 0x3F;
      ocf = none;
      data_field = slice buf primary_header_len fecf_payload_len;
    }

-- `process_frame` on the 1024 bytes of a buffer, with the checksum of the `crc` crate as an argument.
-- The answer is the frame that is handed to `try_send`, which answers nothing that is used.
unfoldable pub process_frame : (List ℕ → ℕ) → ℕ → List ℕ → AosFramer → AosFramer × Option AosFrame
process_frame crc16 now buf s =
    if crc16 (take fecf_payload_len buf)
      == u16_from_be (byte_at buf fecf_payload_len) (byte_at buf (fecf_payload_len + 1))
    then (
      update_link_state now (record s { frame_window = push now true s.frame_window }),
      some (extract buf),
    )
    else (
      update_link_state now (
          maybe_emit_fecf_event now (record s {
            fecf_errors_total = s.fecf_errors_total + 1;
            frame_window = push now false s.frame_window;
          })),
      none,
    )
