-- ===== src/Ui/Handlers.antt =====
-- rust/ground_station/src/ui/mod.rs: the answers of the interface. The texts that `serde` makes of
-- them are taken from outside.
use build_with_opus.Prelude.{
  ℕ, ◌+◌, Bool, true, ◌&&◌, Option, none, some, List, [], ◌∷◌, ◌++◌, Result, ok, err, length, ltb,
  leb, if◌then◌else◌,
}
use build_with_opus.Prelude.Texts.{codes}
use build_with_opus.Wire.Cuc.{Cuc}
use build_with_opus.Ingest.Sinks.{HkSnapshot, EventEntry}
use build_with_opus.Ui.Time.{Seconds, ValidityError, check_validity_window}
use build_with_opus.Ui.State.{
  LinkStateDto, Cop1Status, MFileStatus, TcQueueEntry, CfdpStatus, TimeAuthority, UiState,
}
use build_with_opus.Ui.Links.{LinkHealthSnapshot, build_links_health}

-- `(0x300u16..=0x43Fu16).contains(&s.apid)`
abbrev pub is_rover_block : ℕ → Bool
is_rover_block apid = leb 0x300 apid && leb apid 0x43F

unfoldable pub get_rover : List HkSnapshot → List HkSnapshot
get_rover [] = []
get_rover (s ∷ hk) = let rest = get_rover hk in if is_rover_block s.apid then s ∷ rest else rest

pub record TcSubmitRequest : Type 0 where
  pub valid_until_tai_coarse : ℕ  -- u32
  pub apid : Option ℕ  -- u16
  pub func_code : Option ℕ  -- u16

pub record TcSubmitResponse : Type 0 where
  pub accepted : Bool

abbrev pub or_zero : Option ℕ → ℕ
or_zero none = 0
or_zero (some n) = n

unfoldable pub queue_entry : TcSubmitRequest → TcQueueEntry
queue_entry req = record {
  apid = or_zero req.apid;
  func_code = or_zero req.func_code;
  payload = [];
  valid_until_tai_coarse = req.valid_until_tai_coarse;
}

module _ (seconds : Seconds) where
  -- `let _ = tc_tx.try_send(entry)`: a command that finds the channel full is lost.
  unfoldable pub try_send_tc : TcQueueEntry → UiState seconds → UiState seconds
  try_send_tc entry s =
      if ltb (length s.tc_queue) s.tc_capacity
      then record s { tc_queue = s.tc_queue ++ entry ∷ [] }
      else s

  -- An error is answered with the status 422 and its text.
  unfoldable pub post_tc :
      TcSubmitRequest
      → UiState seconds
      → UiState seconds × Result (ValidityError seconds.F64) TcSubmitResponse
  post_tc req s =
      let valid_until : Cuc = record { coarse = req.valid_until_tai_coarse; fine = 0 } in
      elim (check_validity_window seconds valid_until s.now_tai s.light_time_s) [
        | err e ↦ (s, err e)
        | ok _ ↦ (try_send_tc (queue_entry req) s, ok (record { accepted = true }))
      ]

  -- `rx.recv()` of the dispatcher, which counts the command and drops it.
  unfoldable pub dispatcher_recv : UiState seconds × ℕ → UiState seconds × ℕ
  dispatcher_recv (s, total) = elim s.tc_queue [
    | [] ↦ (s, total)
    | entry ∷ later ↦ (record s { tc_queue = later }, total + 1)
  ]

  pub record Snapshot : Type 0 where
    pub hk : List HkSnapshot
    pub events : List EventEntry
    pub cfdp : List (CfdpStatus seconds)
    pub mfile : List MFileStatus
    pub link : LinkStateDto
    pub cop1 : Cop1Status
    pub time_auth : TimeAuthority seconds
    pub links_health : List LinkHealthSnapshot

  unfoldable pub snapshot : UiState seconds → Snapshot
  snapshot s = record {
    hk = s.hk;
    events = s.events;
    cfdp = s.cfdp;
    mfile = s.mfile;
    link = s.link;
    cop1 = s.cop1;
    time_auth = s.time_auth;
    links_health = build_links_health s.hk;
  }

  unfoldable pub build_snapshot : (Snapshot → Option (List ℕ)) → UiState seconds → List ℕ
  build_snapshot to_json s = elim (to_json (snapshot s)) [ none ↦ codes "{}" | some text ↦ text ]
