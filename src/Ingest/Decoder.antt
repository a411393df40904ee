-- ===== src/Ingest/Decoder.antt =====
-- rust/ground_station/src/ingest/decoder.rs: data fields that are space packets, to the router.
pub mod Forwarding
use build_with_opus.Prelude.{
  ℕ, ◌+◌, Bool, Option, none, some, List, [], Result, ok, err, if◌then◌else◌,
}
use build_with_opus.Prelude.Table.{Table, lookup, insert}
use build_with_opus.Wire.Error.{
  CcsdsError, buffer_too_short, invalid_version, invalid_p_field, apid_out_of_range,
  sequence_count_out_of_range, instance_id_reserved, length_mismatch, sequence_flags_not_standalone,
  func_code_reserved,
}
use build_with_opus.Wire.Packet.{parse}
use build_with_opus.Ingest.Carrier.{AosFrame, should_emit, emitted}

-- The strings of `error_label`, by number.
pub error_label : CcsdsError → ℕ
error_label (buffer_too_short needed got) = 0
error_label (invalid_version v) = 1
error_label (invalid_p_field p) = 2
error_label (apid_out_of_range a) = 3
error_label (sequence_count_out_of_range c) = 4
error_label instance_id_reserved = 5
error_label (length_mismatch declared actual) = 6
error_label (sequence_flags_not_standalone f) = 7
error_label func_code_reserved = 8

pub record SppDecoder : Type 0 where
  pub vc_id : ℕ
  pub decode_fail_total : ℕ
  pub dropped_total : ℕ
  pub last_decode_fail_events : Table ℕ
  pub last_bp_event : Option ℕ

unfoldable pub new : ℕ → SppDecoder
new vc_id = record {
  vc_id = vc_id;
  decode_fail_total = 0;
  dropped_total = 0;
  last_decode_fail_events = [];
  last_bp_event = none;
}

pub emit_decode_fail_event : ℕ → CcsdsError → SppDecoder → SppDecoder
emit_decode_fail_event now e s =
    if should_emit now (lookup (error_label e) s.last_decode_fail_events)
    then record s { last_decode_fail_events = insert (error_label e) now s.last_decode_fail_events }
    else s

pub emit_bp_event : ℕ → SppDecoder → SppDecoder
emit_bp_event now s = record s { last_bp_event = emitted now s.last_bp_event }

-- `accepted` is what `try_send` on the router's channel answers. The bytes that were sent are the
-- answer.
pub process : ℕ → Bool → AosFrame → SppDecoder → SppDecoder × Option (List ℕ)
process now accepted frame s = elim (parse frame.data_field) [
  | ok p ↦
      if accepted
      then (s, some frame.data_field)
      else (emit_bp_event now (record s { dropped_total = s.dropped_total + 1 }), none)
  | err e ↦ (
    emit_decode_fail_event now e (record s { decode_fail_total = s.decode_fail_total + 1 }),
    none,
  )
]
