-- ===== src/Uplink/Fop1.antt =====
-- rust/ground_station/src/uplink/cop1.rs and mod.rs: the constants and the data of the FOP-1 engine.
-- An `Instant` and a `Duration` are numbers of nanoseconds.
use build_with_opus.Prelude.{ℕ, Bool, Option, List}

abbrev pub cop1_window_size : ℕ
cop1_window_size = 15

abbrev pub cop1_max_retransmit : ℕ
cop1_max_retransmit = 3

abbrev pub cop1_stale_warn_mult : ℕ
cop1_stale_warn_mult = 3

abbrev pub cop1_stale_abort_mult : ℕ
cop1_stale_abort_mult = 10

abbrev pub clcw_stale_event_min_interval : ℕ
clcw_stale_event_min_interval = 1000000000

pub data Fop1State : Type 0 where
  initial initializing active retransmit_without_wait retransmit_with_wait : Fop1State

pub data TcFrameType : Type 0 where
  type_ad type_bd type_bc : TcFrameType

pub record TcFrame : Type 0 where
  pub vc_id : ℕ
  pub frame_type : TcFrameType
  pub sequence : ℕ
  pub payload : List ℕ

pub data Cop1Error : Type 0 where
  not_in_active_state : Fop1State → Cop1Error
  window_full : Cop1Error

-- The four bytes of a CLCW.
pub record Clcw : Type 0 where
  pub byte0 : ℕ
  pub byte1 : ℕ
  pub byte2 : ℕ
  pub byte3 : ℕ

-- The engine's end of the watch channel: the latest value, and whether it was published since the
-- last read. `has_changed` answers false when the sender is gone.
pub record ClcwWatch : Type 0 where
  pub value : Option Clcw
  pub changed : Bool

pub record Cop1Engine : Type 0 where
  pub state : Fop1State
  pub vs : ℕ  -- u8
  pub window : List (ℕ × List ℕ)
  pub retransmit_count : ℕ  -- u8
  pub t1_deadline : Option ℕ
  pub t1_duration : ℕ
  pub clcw_rx : ClcwWatch
  pub last_clcw_at : Option ℕ
  pub last_stale_event_at : Option ℕ
