-- ===== src/Ingest/Router/Dispatch.antt =====
-- Where a permitted packet goes.
use build_with_opus.Prelude.{ℕ, ◌≡◌, Bool, true, false, ◌&&◌, ◌||◌, not, ◌==◌, arith}
use build_with_opus.Wire.Packet.{SpacePacket}
use build_with_opus.Ingest.Router.{
  ApidRouter, Route, hk, event_log, cfdp_pdu, rover_forward, within, route,
}
use build_with_opus.Ingest.Router.Security.{is_forbidden, apid_of}

abbrev pub is_housekeeping : ℕ → Bool
is_housekeeping a = within 0x100 0x17F a || within 0x200 0x2FF a

abbrev pub is_hk : Route → Bool
is_hk hk = true
is_hk _ = false

abbrev pub is_rover : Route → Bool
is_rover rover_forward = true
is_rover _ = false

abbrev pub is_event_log : Route → Bool
is_event_log event_log = true
is_event_log _ = false

abbrev pub is_cfdp : Route → Bool
is_cfdp cfdp_pdu = true
is_cfdp _ = false

-- A packet that is neither forbidden nor idle fill.
abbrev pub is_open : ℕ → Bool
is_open a = not (is_forbidden a) && not (a == 0x7FF)

-- Of the packets that are neither forbidden nor idle fill, the file receiver gets exactly those of
-- channel 2 and the event log those of channel 1; of the other channels the housekeeping store gets
-- exactly the APIDs 0x100-0x17F and 0x200-0x2FF, and the rover archive 0x300-0x45F.
pub route_sinks :
    (r : ApidRouter) (vc : ℕ) (p : SpacePacket)
    → (is_cfdp (route r vc p).1 ≡ (is_open (apid_of p) && (vc == 2)))
      × (is_event_log (route r vc p).1 ≡ (is_open (apid_of p) && (vc == 1)))
      × (is_hk (route r vc p).1 ≡ (not (vc == 1) && (not (vc == 2) && is_housekeeping (apid_of p))))
      × (is_rover (route r vc p).1
          ≡ (not (vc == 1) && (not (vc == 2) && within 0x300 0x45F (apid_of p))))
unfolding route
route_sinks r vc p = (ground arith, ground arith, ground arith, ground arith)
