-- ===== src/Ui/Time/Epochs.antt =====
-- The two epochs: what the interface shows, and how it agrees with the other conversions.
use build_with_opus.Prelude.{
  ◌*◌, ◌/◌, ◌<◌, ◌≡◌, ◌∙◌, ap, leb, leb→le, inl, inr, Bool-cases, if◌then◌else◌, arith,
}
use build_with_opus.Prelude.Int.{pos, pos_part, neg_part, ◌+ℤ◌, ◌-ℤ◌, int_laws, eq_of_parts}
use build_with_opus.Wire.Cuc
use build_with_opus.Wire.Cuc.{Cuc}
use build_with_opus.Cfdp.Adapter.{tai_to_unix_secs}
use build_with_opus.Ui.Time.{
  DateTimes, TaiUtcConverter, tai_epoch_unix_s, or_zero, u32_try_from, unwrap_or_epoch, tai_to_utc,
  utc_to_tai,
}

-- An offset of less than 2^31 seconds either way.
abbrev pub IsModest : TaiUtcConverter → Type 0
IsModest c = (pos_part c.leap_seconds < 2147483648) × (neg_part c.leap_seconds < 2147483648)

module _ (times : DateTimes) where
  open times use {unix_timestamp}

  -- The whole seconds of the time that is shown.
  pub unix_timestamp-tai_to_utc :
      (c : TaiUtcConverter) (tai : Cuc)
      → IsModest c
      → Cuc.IsValid tai
      → unix_timestamp (tai_to_utc times c tai)
        ≡ tai_epoch_unix_s +ℤ pos tai.coarse -ℤ c.leap_seconds
  unfolding tai_to_utc unwrap_or_epoch
  unix_timestamp-tai_to_utc c tai m v =
      let s = tai_epoch_unix_s +ℤ pos tai.coarse -ℤ c.leap_seconds in
      let (t, made, whole) = times.from_unix_timestamp_total s (omega int_laws) (omega int_laws) in
      let fine_ns = tai.fine * 1000000000 / 65536 in
      ap (λ o. unix_timestamp (times.saturating_add_nanoseconds (unwrap_or_epoch times o) fine_ns))
        made
      ∙ whole fine_ns (omega arith)

  -- For leap seconds of less than 2^31 either way, a time code of the wire that is turned into UTC
  -- and back has the same seconds, and a fraction of 0.
  pub utc_to_tai-tai_to_utc :
      (c : TaiUtcConverter) (tai : Cuc)
      → IsModest c
      → Cuc.IsValid tai
      → utc_to_tai times c (tai_to_utc times c tai) ≡ record { coarse = tai.coarse; fine = 0 }
  unfolding utc_to_tai
  utc_to_tai-tai_to_utc c tai m v =
      let shown = unix_timestamp-tai_to_utc c tai m v in
      let back : unix_timestamp (tai_to_utc times c tai) -ℤ tai_epoch_unix_s +ℤ c.leap_seconds
          ≡ pos tai.coarse =
        rw shown (omega int_laws) in
      ap (λ z. record { coarse = or_zero (u32_try_from z); fine = 0 }) back ∙ ground (arith, v.0)

  -- For leap seconds of less than 2^31 either way, the Unix seconds of the CFDP adapter are those
  -- that the interface shows plus the leap seconds from the year 1970 on, and 0 before.
  pub unix_timestamp-tai_to_unix_secs :
      (c : TaiUtcConverter) (tai : Cuc)
      → IsModest c
      → Cuc.IsValid tai
      → pos (tai_to_unix_secs tai) ≡ (
          if leb 378691200 tai.coarse
          then unix_timestamp (tai_to_utc times c tai) +ℤ c.leap_seconds
          else pos 0)
  unfolding tai_to_unix_secs
  unix_timestamp-tai_to_unix_secs c tai m v =
      let shown = unix_timestamp-tai_to_utc c tai m v in
      rw shown (elim (Bool-cases (leb 378691200 tai.coarse)) [
        | inl e ↦ rw e (eq_of_parts _ _ (omega (int_laws, leb→le 378691200 tai.coarse e)))
        | inr e ↦ rw e (ap pos (ground (arith, e)))
      ])
