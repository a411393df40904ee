-- ===== src/Ingest/Carrier.antt =====
-- rust/ground_station/src/ingest/mod.rs: the frames that the stages pass on, and the limit on how
-- often an event is logged, which framer.rs, demux.rs and decoder.rs share.
use build_with_opus.Prelude.{ℕ, ◌-◌, Bool, true, Option, none, some, List, leb, if◌then◌else◌}

pub record AosFrame : Type 0 where
  pub vc_id : ℕ
  pub ocf : Option (List ℕ)
  pub data_field : List ℕ

-- One second, in nanoseconds.
abbrev pub event_min_interval : ℕ
event_min_interval = 1000000000

-- `last.is_none_or(|t| now.duration_since(t) >= MIN_INTERVAL)`
abbrev pub should_emit : ℕ → Option ℕ → Bool
should_emit now none = true
should_emit now (some last) = leb event_min_interval (now - last)

-- The time of the last event once one was due.
abbrev pub emitted : ℕ → Option ℕ → Option ℕ
emitted now last = if should_emit now last then some now else last
