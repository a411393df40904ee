-- ===== src/Station/Tasks.antt =====
-- The tasks of rust/ground_station/src/main.rs and rust/ground_station/src/ingest/sinks.rs that
-- write to the state of the interface.
pub mod Window
use build_with_opus.Prelude.{ℕ, true, none, some, List, []}
use build_with_opus.Ingest.Framer.{LinkState, aos, los, degraded}
use build_with_opus.Ingest.Sinks.{Texts, process_hk_packet, process_event_packet}
use build_with_opus.Ui.Time.{Seconds}
use build_with_opus.Ui.State.{LinkVariant, link_aos, link_los, link_degraded, UiState}
use build_with_opus.Ui.Handlers.{dispatcher_recv}
use build_with_opus.Ui.Routes.{Request, serve}

-- The match of the subscriber to the state of the link.
pub variant_of : LinkState → LinkVariant
variant_of aos = link_aos
variant_of los = link_los
variant_of degraded = link_degraded

module _ (seconds : Seconds) where
  pub on_link_state : Texts → LinkState → UiState seconds → UiState seconds
  on_link_state texts ls s = record s {
    link = record { state = variant_of ls; last_frame_utc = some texts.now_utc };
  }

  -- `auth.time_suspect_seen = true`
  pub on_clock_skew : UiState seconds → UiState seconds
  on_clock_skew s = record s { time_auth = record s.time_auth { time_suspect_seen = true } }

  -- The bodies of `drain_hk` and of the event sink's loop.
  pub on_hk_packet : Texts → List ℕ → UiState seconds → UiState seconds
  on_hk_packet texts bytes s = record s { hk = process_hk_packet texts bytes s.hk }

  pub on_event_packet : Texts → List ℕ → UiState seconds → UiState seconds
  on_event_packet texts bytes s = record s { events = process_event_packet texts bytes s.events }

  -- What the program's tasks and the requests do to the state, one at a time under the locks.
  pub data Step (s : UiState seconds) : UiState seconds → Type 0 where
    link_changed : (texts : Texts) (ls : LinkState) → Step s (on_link_state texts ls s)
    clock_skew : Step s (on_clock_skew s)
    hk_packet : (texts : Texts) (bytes : List ℕ) → Step s (on_hk_packet texts bytes s)
    event_packet : (texts : Texts) (bytes : List ℕ) → Step s (on_event_packet texts bytes s)
    requested : (request : Request) → Step s (serve seconds request s).0
    dispatched : (total : ℕ) → Step s (dispatcher_recv seconds (s, total)).0

  pub data Reach (s : UiState seconds) : UiState seconds → Type 0 where
    here : Reach s s
    next : {t u : UiState seconds} → Reach s t → Step t u → Reach s u
