-- ===== src/Ingest/Router.antt =====
-- rust/ground_station/src/ingest/router.rs: the APID-based packet router.
pub mod Security
pub mod Dispatch
mod Runs
use build_with_opus.Prelude.{
  ℕ, ◌+◌, Bool, ◌&&◌, ◌||◌, Option, none, some, [], leb, ◌==◌, if◌then◌else◌,
}
use build_with_opus.Prelude.Table.{Table, lookup, insert}
use build_with_opus.Wire.Packet.{SpacePacket}

pub data RejectReason : Type 0 where
  forbidden_fault_inject_apid forbidden_sim_apid forbidden_ground_internal unknown_block :
      RejectReason

pub data Route : Type 0 where
  hk event_log cfdp_pdu rover_forward idle_fill : Route
  rejected : RejectReason → Route

-- How often each forbidden APID was seen; the count is a u64, one more for each packet.
pub record ApidRouter : Type 0 where
  pub forbidden_seen : Table ℕ

pub new : ApidRouter
new = record { forbidden_seen = [] }

-- `(lo..=hi).contains(&apid)`
abbrev pub within : ℕ → ℕ → ℕ → Bool
within lo hi apid = leb lo apid && leb apid hi

abbrev pub or_zero : Option ℕ → ℕ
or_zero none = 0
or_zero (some n) = n

-- `*self.forbidden_seen.entry(apid).or_insert(0) += 1`
pub count_forbidden : ℕ → ApidRouter → ApidRouter
count_forbidden apid r = record {
  forbidden_seen = insert apid (or_zero (lookup apid r.forbidden_seen) + 1) r.forbidden_seen;
}

-- The dispatch on the APID range, at the end of `route`.
pub route_range : ℕ → Route
route_range apid =
    if within 0x100 0x17F apid || (within 0x200 0x27F apid || within 0x280 0x2FF apid)
    then hk
    else if within 0x300 0x45F apid
    then rover_forward
    else rejected unknown_block

-- What follows the security checks: idle fill, the sinks that the channel decides, the ranges.
pub route_permitted : ℕ → ℕ → Route
route_permitted vc_id apid =
    if apid == 0x7FF
    then idle_fill
    else if vc_id == 2
    then cfdp_pdu
    else if vc_id == 1
    then event_log
    else route_range apid

pub route : ApidRouter → ℕ → SpacePacket → ApidRouter × Route
unfolding route_range route_permitted
route r vc_id pkt =
    let apid = pkt.primary.apid.raw in
    if within 0x540 0x543 apid
    then (count_forbidden apid r, rejected forbidden_fault_inject_apid)
    else if within 0x500 0x53F apid || within 0x544 0x57F apid
    then (count_forbidden apid r, rejected forbidden_sim_apid)
    else if within 0x600 0x67F apid
    then (count_forbidden apid r, rejected forbidden_ground_internal)
    else (r, route_permitted vc_id apid)

pub forbidden_apid_seen_total : ApidRouter → ℕ → ℕ
forbidden_apid_seen_total r apid = or_zero (lookup apid r.forbidden_seen)
