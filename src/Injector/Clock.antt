-- ===== src/Injector/Clock.antt =====
-- The time code of the tool's packets, as the interface shows it.
use build_with_opus.Prelude.{ℕ, ◌+◌, ◌<◌, ◌≡◌, ◌∙◌, arith}
use build_with_opus.Prelude.Int.{pos, ◌-ℤ◌, int_laws, eq_of_parts}
use build_with_opus.Ui.Time.{DateTimes, new, tai_to_utc}
use build_with_opus.Ui.Time.Epochs.{unix_timestamp-tai_to_utc}
use build_with_opus.Injector.{tai_now}

tai_now_lem : (u : ℕ) → u < 4294967259 → tai_now u ≡ u + 37
unfolding tai_now
tai_now_lem u h = omega arith

-- What the tool stamps at a time of the Unix clock, up to the year 2106, the interface shows, with
-- its 37 leap seconds, 378691200 seconds before that time.
pub unix_timestamp-tai_now :
    (times : DateTimes) (u : ℕ)
    → u < 4294967259
    → times.unix_timestamp
        (tai_to_utc times (new (pos 37)) (record { coarse = tai_now u; fine = 0 }))
      ≡ pos u -ℤ pos 378691200
unix_timestamp-tai_now times u h =
    let stamp = tai_now_lem u h in
    unix_timestamp-tai_to_utc times (new (pos 37)) (record { coarse = tai_now u; fine = 0 })
      (omega arith) (omega (arith, stamp))
    ∙ eq_of_parts _ _ (omega (int_laws, stamp))
