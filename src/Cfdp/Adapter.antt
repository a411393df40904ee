-- ===== src/Cfdp/Adapter.antt =====
-- rust/ground_station/src/cfdp/adapter.rs: from TAI seconds to Unix seconds.
use build_with_opus.Prelude.{ℕ, ◌-◌}
use build_with_opus.Wire.Cuc.{Cuc}

abbrev pub tai_unix_offset_secs : ℕ
tai_unix_offset_secs = 378691200

-- `saturating_sub` stops at 0, as the subtraction of natural numbers does.
unfoldable pub tai_to_unix_secs : Cuc → ℕ
tai_to_unix_secs cuc = cuc.coarse - tai_unix_offset_secs
