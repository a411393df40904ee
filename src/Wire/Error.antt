-- ===== src/Wire/Error.antt =====
-- rust/ccsds_wire/src/error.rs: every way in which the codec refuses its input.
use build_with_opus.Prelude.{ℕ, Result}

pub data CcsdsError : Type 0 where
  buffer_too_short : (need got : ℕ) → CcsdsError
  invalid_version : ℕ → CcsdsError
  invalid_p_field : ℕ → CcsdsError
  apid_out_of_range : ℕ → CcsdsError
  sequence_count_out_of_range : ℕ → CcsdsError
  instance_id_reserved : CcsdsError
  length_mismatch : (declared actual : ℕ) → CcsdsError
  sequence_flags_not_standalone : ℕ → CcsdsError
  func_code_reserved : CcsdsError

abbrev pub Decoded : Type 0 → Type 0
Decoded A = Result CcsdsError A
