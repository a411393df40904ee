-- ===== src/Wire/SequenceCount.antt =====
-- rust/ccsds_wire/src/primitives.rs: the 14-bit packet sequence count.
use build_with_opus.Prelude.{ℕ, ◌≤◌, ok, err, ltb, if◌then◌else◌}
use build_with_opus.Wire.Error.{Decoded, sequence_count_out_of_range}

pub record SequenceCount : Type 0 where
  pub raw : ℕ

abbrev pub max : ℕ
max = 0x3FFF

unfoldable pub new : ℕ → Decoded SequenceCount
new v = if ltb max v then err (sequence_count_out_of_range v) else ok (record { raw = v })

abbrev pub IsValid : SequenceCount → Type 0
IsValid s = s.raw ≤ max
