-- ===== src/Station/Dispatch.antt =====
-- rust/ground_station/src/main.rs, stage 4: from the decoders' packets to the channels of the sinks.
pub mod Security
pub mod Suspect
use build_with_opus.Prelude.{
  ℕ, Bool, true, false, List, [], ◌∷◌, ◌++◌, ok, err, ◌==◌, if◌then◌else◌,
}
use build_with_opus.Wire.Packet.{parse}
use build_with_opus.Ingest.Router as Router
use build_with_opus.Ingest.Router.{
  ApidRouter, Route, RejectReason, hk, event_log, cfdp_pdu, rover_forward, idle_fill, rejected,
}

-- What was sent on the four channels, the first packet first, and the flag of `UiState::time_auth`.
pub record Outlets : Type 0 where
  pub hk_sent : List (List ℕ)
  pub event_sent : List (List ℕ)
  pub cfdp_sent : List (List ℕ)
  pub rover_sent : List (List ℕ)
  pub time_suspect_seen : Bool

pub record RouterTask : Type 0 where
  pub router : ApidRouter
  pub outlets : Outlets

unfoldable pub new : RouterTask
new = record {
  router = Router.new;
  outlets = record {
    hk_sent = [];
    event_sent = [];
    cfdp_sent = [];
    rover_sent = [];
    time_suspect_seen = false;
  };
}

-- What comes from the decoders' tasks, with the answers of `try_send` and of `try_write`.
pub record Item : Type 0 where
  pub vc_id : ℕ
  pub bytes : List ℕ
  pub accepted : Bool
  pub lock_free : Bool

-- `let _ = tx.try_send(bytes)`
abbrev pub try_send : Item → List (List ℕ) → List (List ℕ)
try_send item sent = if item.accepted then sent ++ item.bytes ∷ [] else sent

-- The arms of the match on the route, with the APID of the packet.
unfoldable pub deliver : Item → ℕ → Route → Outlets → Outlets
deliver item apid hk o = record o { hk_sent = try_send item o.hk_sent }
deliver item apid event_log o = record o { event_sent = try_send item o.event_sent }
deliver item apid cfdp_pdu o = record o { cfdp_sent = try_send item o.cfdp_sent }
deliver item apid rover_forward o = record o { rover_sent = try_send item o.rover_sent }
deliver item apid idle_fill o = o
deliver item apid (rejected reason) o =
    if apid == 0x0541
    then record o { time_suspect_seen = if item.lock_free then true else o.time_suspect_seen }
    else o

-- The body of the loop: what does not parse is passed over.
unfoldable pub route_item : Item → RouterTask → RouterTask
route_item item s = elim (parse item.bytes) [
  | err e ↦ s
  | ok pkt ↦
      let routed = Router.route s.router item.vc_id pkt in
      record { router = routed.0; outlets = deliver item pkt.primary.apid.raw routed.1 s.outlets }
]

unfoldable pub route_items : List Item → RouterTask → RouterTask
route_items [] s = s
route_items (item ∷ later) s = route_items later (route_item item s)
