-- ===== src/Ui/Time.antt =====
-- rust/ground_station/src/ui/time.rs: between TAI and UTC, and the window in which a command is valid.
pub mod Epochs
use build_with_opus.Prelude.{
  ℕ, ◌+◌, ◌*◌, ◌/◌, ◌≤◌, ◌<◌, ◌≡◌, Bool, Option, none, some, List, [], Result, ok, err, ltb,
  if◌then◌else◌,
}
use build_with_opus.Prelude.Int.{ℤ, pos, negsuc, ◌+ℤ◌, ◌-ℤ◌, ◌≤ℤ◌}
use build_with_opus.Wire.Cuc.{Cuc}

-- -378691200
abbrev pub tai_epoch_unix_s : ℤ
tai_epoch_unix_s = negsuc 378691199

-- What is used of the crate `time`: whole seconds from year -9999 to year 9999 have a time, which
-- gives them back also with nanoseconds of less than a second added.
pub record DateTimes : Type 1 where
  pub OffsetDateTime : Type 0
  pub unix_epoch : OffsetDateTime
  pub from_unix_timestamp : ℤ → Option OffsetDateTime
  pub unix_timestamp : OffsetDateTime → ℤ
  pub saturating_add_nanoseconds : OffsetDateTime → ℕ → OffsetDateTime
  pub format_rfc3339 : OffsetDateTime → Option (List ℕ)
  pub from_unix_timestamp_total :
      (s : ℤ)
      → negsuc 377705116799 ≤ℤ s
      → s ≤ℤ pos 253402300799
      → (t : OffsetDateTime) × (from_unix_timestamp s ≡ some t)
        × ((ns : ℕ) → ns < 1000000000 → unix_timestamp (saturating_add_nanoseconds t ns) ≡ s)

pub record TaiUtcConverter : Type 0 where
  pub leap_seconds : ℤ  -- i64

abbrev pub new : ℤ → TaiUtcConverter
new leap_seconds = record { leap_seconds = leap_seconds }

-- `u32::try_from`
abbrev pub u32_try_from : ℤ → Option ℕ
u32_try_from (pos n) = if ltb n 4294967296 then some n else none
u32_try_from (negsuc n) = none

abbrev pub or_zero : Option ℕ → ℕ
or_zero none = 0
or_zero (some n) = n

module _ (times : DateTimes) where
  open times use {
    OffsetDateTime, unix_epoch, from_unix_timestamp, unix_timestamp, saturating_add_nanoseconds,
    format_rfc3339,
  }

  pub unwrap_or_epoch : Option OffsetDateTime → OffsetDateTime
  unwrap_or_epoch none = unix_epoch
  unwrap_or_epoch (some t) = t

  unfoldable pub tai_to_utc : TaiUtcConverter → Cuc → OffsetDateTime
  unfolding unwrap_or_epoch
  tai_to_utc c tai =
      let unix_s = tai_epoch_unix_s +ℤ pos tai.coarse -ℤ c.leap_seconds in
      let fine_ns = tai.fine * 1000000000 / 65536 in
      saturating_add_nanoseconds (unwrap_or_epoch (from_unix_timestamp unix_s)) fine_ns

  unfoldable pub utc_to_tai : TaiUtcConverter → OffsetDateTime → Cuc
  utc_to_tai c utc =
      let tai_s = unix_timestamp utc -ℤ tai_epoch_unix_s +ℤ c.leap_seconds in
      record { coarse = or_zero (u32_try_from tai_s); fine = 0 }

  pub tai_to_iso8601 : TaiUtcConverter → Cuc → List ℕ
  tai_to_iso8601 c tai = elim (format_rfc3339 (tai_to_utc c tai)) [ none ↦ [] | some text ↦ text ]

-- What is used of the types `f64` and `f32`: sums and comparisons of whole seconds that fit a u32 are
-- exact.
pub record Seconds : Type 1 where
  pub F64 : Type 0
  pub F32 : Type 0
  pub of_u32 : ℕ → F64
  -- The literal n / 10.
  pub tenths : ℕ → F64
  pub of_be_bytes : List ℕ → F64
  pub add : F64 → F64 → F64
  pub sub : F64 → F64 → F64
  pub is_above : F64 → F64 → Bool
  pub exact :
      (a b c : ℕ)
      → a < 4294967296
      → b < 4294967296
      → c < 4294967296
      → is_above (add (of_u32 a) (of_u32 b)) (of_u32 c) ≡ ltb c (a + b)

pub data ValidityError (F64 : Type 0) : Type 0 where
  window_expired : (expired_by_s : F64) → ValidityError F64

module _ (seconds : Seconds) where
  open seconds use {F64, of_u32, add, sub, is_above}

  unfoldable pub check_validity_window : Cuc → Cuc → F64 → Result (ValidityError F64) (Unit {0})
  check_validity_window valid_until_tai now_tai light_time_s =
      let arrival_s = add (of_u32 now_tai.coarse) light_time_s in
      let limit_s = of_u32 valid_until_tai.coarse in
      if is_above arrival_s limit_s then err (window_expired (sub arrival_s limit_s)) else ok tt
