-- ===== src/Ui/State.antt =====
-- rust/ground_station/src/ui/mod.rs: the state that the interface shows, and the queue of commands.
use build_with_opus.Prelude.{ℕ, Bool, false, Option, none, List, []}
use build_with_opus.Prelude.Int.{ℤ, pos}
use build_with_opus.Prelude.Texts.{codes}
use build_with_opus.Wire.Cuc.{Cuc}
use build_with_opus.Ingest.Sinks.{HkSnapshot, EventEntry}
use build_with_opus.Ui.Time as Time
use build_with_opus.Ui.Time.{TaiUtcConverter, Seconds}

pub data LinkVariant : Type 0 where
  link_aos link_los link_degraded : LinkVariant

pub record LinkStateDto : Type 0 where
  pub state : LinkVariant
  pub last_frame_utc : Option (List ℕ)

abbrev pub link_default : LinkStateDto
link_default = record { state = link_los; last_frame_utc = none }

pub record Cop1Status : Type 0 where
  pub fop1_state : List ℕ
  pub window_occupancy : ℕ  -- u8
  pub retransmit_count : ℕ  -- u8

abbrev pub cop1_default : Cop1Status
cop1_default = record { fop1_state = codes "Initial"; window_occupancy = 0; retransmit_count = 0 }

pub record MFileStatus : Type 0 where
  pub transaction_id : ℕ  -- u32
  pub total_chunks : ℕ  -- u32
  pub received_chunks : ℕ  -- u32
  pub gaps : List (ℕ × ℕ)

-- rust/ground_station/src/uplink/dispatcher.rs: a command that waits for the uplink.
pub record TcQueueEntry : Type 0 where
  pub apid : ℕ  -- u16
  pub func_code : ℕ  -- u16
  pub payload : List ℕ
  pub valid_until_tai_coarse : ℕ  -- u32

module _ (seconds : Seconds) where
  open seconds use {F64, F32, of_u32, tenths}

  pub record CfdpStatus : Type 0 where
    pub transaction_id : ℕ  -- u32
    pub source_entity : ℕ  -- u16
    pub dest_entity : ℕ  -- u16
    pub progress_pct : F32
    pub complete : Bool

  pub record TimeAuthority : Type 0 where
    pub tai_offset_s : ℤ  -- i64
    pub drift_budget_us_per_day : F64
    pub sync_packet_age_ms : ℕ  -- u64
    pub time_suspect_seen : Bool

  abbrev pub time_auth_default : TimeAuthority
  time_auth_default = record {
    tai_offset_s = pos 37;
    drift_budget_us_per_day = tenths 833;
    sync_packet_age_ms = 0;
    time_suspect_seen = false;
  }

  -- The channel of the commands is the list of those that wait, with its capacity.
  pub record UiState : Type 0 where
    pub hk : List HkSnapshot
    pub events : List EventEntry
    pub cfdp : List CfdpStatus
    pub mfile : List MFileStatus
    pub link : LinkStateDto
    pub cop1 : Cop1Status
    pub time_auth : TimeAuthority
    pub now_tai : Cuc
    pub light_time_s : F64
    pub converter : TaiUtcConverter
    pub tc_queue : List TcQueueEntry
    pub tc_capacity : ℕ

  unfoldable pub new : ℤ → ℕ → UiState
  new leap_seconds tc_capacity = record {
    hk = [];
    events = [];
    cfdp = [];
    mfile = [];
    link = link_default;
    cop1 = cop1_default;
    time_auth = time_auth_default;
    now_tai = record { coarse = 0; fine = 0 };
    light_time_s = of_u32 600;
    converter = Time.new leap_seconds;
    tc_queue = [];
    tc_capacity = tc_capacity;
  }
