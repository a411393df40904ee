-- ===== src/Ingest/Router/Security.antt =====
-- Forbidden APIDs: the simulator's block and the ground-internal block.
use build_with_opus.Prelude.{
  ℕ, ◌+◌, ◌≡◌, ◌≢◌, Bool, true, false, ◌&&◌, ◌||◌, List, [], ◌∷◌, ◌==◌, if◌then◌else◌, arith,
}
use build_with_opus.Prelude.Table.{lookup, lookup-insert}
use build_with_opus.Wire.Packet.{SpacePacket}
use build_with_opus.Ingest.Router.{
  ApidRouter, Route, rejected, unknown_block, hk, event_log, cfdp_pdu, rover_forward, within,
  or_zero, count_forbidden, new, route, forbidden_apid_seen_total,
}

-- The two blocks of the registry that must never be seen on a radio link.
abbrev pub is_forbidden : ℕ → Bool
is_forbidden apid = within 0x500 0x57F apid || within 0x600 0x67F apid

abbrev pub apid_of : SpacePacket → ℕ
apid_of p = p.primary.apid.raw

-- The routes that hand the packet to a sink.
abbrev pub is_delivered : Route → Bool
is_delivered hk = true
is_delivered event_log = true
is_delivered cfdp_pdu = true
is_delivered rover_forward = true
is_delivered _ = false

abbrev pub is_security_rejection : Route → Bool
is_security_rejection (rejected unknown_block) = false
is_security_rejection (rejected _) = true
is_security_rejection _ = false

-- On every virtual channel and with any counters, exactly the packets with an APID in 0x500-0x57F
-- or 0x600-0x67F are rejected for a security reason.
pub route_forbidden :
    (r : ApidRouter) (vc : ℕ) (p : SpacePacket)
    → is_security_rejection (route r vc p).1 ≡ is_forbidden (apid_of p)
unfolding route
route_forbidden r vc p = ground arith

pub total-count_forbidden :
    (r : ApidRouter) (a b : ℕ)
    → forbidden_apid_seen_total (count_forbidden a r) b
      ≡ (if a == b then forbidden_apid_seen_total r b + 1 else forbidden_apid_seen_total r b)
unfolding forbidden_apid_seen_total count_forbidden
total-count_forbidden r a b =
    ground (arith, lookup-insert a b (or_zero (lookup a r.forbidden_seen) + 1) r.forbidden_seen)

-- One packet moves the counter of one APID by one if it is forbidden, and no counter otherwise.
pub total-route :
    (r : ApidRouter) (vc : ℕ) (p : SpacePacket) (b : ℕ)
    → forbidden_apid_seen_total (route r vc p).0 b
      ≡ forbidden_apid_seen_total r b
        + (if is_forbidden (apid_of p) && (apid_of p == b) then 1 else 0)
unfolding route
total-route r vc p b = ground (arith, total-count_forbidden r (apid_of p) b)

-- The router over a sequence of packets with their channels.
abbrev pub route_all : ApidRouter → List (ℕ × SpacePacket) → ApidRouter
route_all r [] = r
route_all r ((vc, p) ∷ rest) = route_all (route r vc p).0 rest

-- How many packets of a sequence carry the APID b.
abbrev pub occurrences : ℕ → List (ℕ × SpacePacket) → ℕ
occurrences b [] = 0
occurrences b ((vc, p) ∷ rest) = (if apid_of p == b then 1 else 0) + occurrences b rest

total-route_all_from :
    (r : ApidRouter) (packets : List (ℕ × SpacePacket)) (b : ℕ)
    → forbidden_apid_seen_total (route_all r packets) b
      ≡ forbidden_apid_seen_total r b + (if is_forbidden b then occurrences b packets else 0)
total-route_all_from r [] b = ground arith
total-route_all_from r ((vc, p) ∷ rest) b =
    ground (arith, total-route r vc p b, total-route_all_from (route r vc p).0 rest b)

-- After any sequence of packets on any channels, the counter of a forbidden APID is the number of
-- packets that carried it, and the counter of any other APID is 0.
pub total-route_all :
    (packets : List (ℕ × SpacePacket)) (b : ℕ)
    → forbidden_apid_seen_total (route_all new packets) b
      ≡ (if is_forbidden b then occurrences b packets else 0)
unfolding forbidden_apid_seen_total new lookup
total-route_all packets b = ground (arith, total-route_all_from new packets b)

-- What is handed to a sink is neither forbidden nor idle fill.
pub delivered_permitted :
    (r : ApidRouter) (vc : ℕ) (p : SpacePacket)
    → is_delivered (route r vc p).1 ≡ true
    → (is_forbidden (apid_of p) ≡ false) × (apid_of p ≢ 0x7FF)
unfolding route
delivered_permitted r vc p h = ground arith
