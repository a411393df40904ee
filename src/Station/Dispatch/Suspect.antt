-- ===== src/Station/Dispatch/Suspect.antt =====
-- When the time is marked as suspect.
use build_with_opus.Prelude.{
  ℕ, ◌≡◌, Bool, false, ◌&&◌, ◌||◌, inl, inr, Result-cases, List, [], ◌∷◌, ok, err, ◌==◌, arith,
}
use build_with_opus.Wire.Error.{Decoded}
use build_with_opus.Wire.Packet.{SpacePacket, parse}
use build_with_opus.Ingest.Router.{
  Route, hk, event_log, cfdp_pdu, rover_forward, idle_fill, rejected, route,
}
use build_with_opus.Ingest.Router.Security.{
  apid_of, is_forbidden, is_security_rejection, route_forbidden,
}
use build_with_opus.Station.Dispatch.{
  Outlets, RouterTask, Item, new, deliver, route_item, route_items,
}

abbrev carries_clock_skew : Decoded SpacePacket → Bool
carries_clock_skew (ok p) = apid_of p == 0x0541
carries_clock_skew (err e) = false

-- The item is a packet of the simulator's clock skew, and the lock on the flag was free.
pub marks_suspect : Item → Bool
marks_suspect item = item.lock_free && carries_clock_skew (parse item.bytes)

pub any_marks : List Item → Bool
any_marks [] = false
any_marks (item ∷ later) = marks_suspect item || any_marks later

deliver-suspect :
    (item : Item) (apid : ℕ) (x : Route) (o : Outlets)
    → is_security_rejection x ≡ is_forbidden apid
    → (deliver item apid x o).time_suspect_seen
      ≡ (o.time_suspect_seen || (item.lock_free && (apid == 0x0541)))
unfolding deliver
deliver-suspect item apid (rejected reason) o h = ground (arith, h)
deliver-suspect item apid hk o h = ground (arith, h)
deliver-suspect item apid event_log o h = ground (arith, h)
deliver-suspect item apid cfdp_pdu o h = ground (arith, h)
deliver-suspect item apid rover_forward o h = ground (arith, h)
deliver-suspect item apid idle_fill o h = ground (arith, h)

route_item-suspect :
    (item : Item) (s : RouterTask)
    → (route_item item s).outlets.time_suspect_seen
      ≡ (s.outlets.time_suspect_seen || marks_suspect item)
unfolding route_item marks_suspect
route_item-suspect item s = elim (Result-cases (parse item.bytes)) [
  | inl (e, failed) ↦ rw (failed, route_item) (ground arith)
  | inr (p, parsed) ↦
      rw (parsed, route_item)
        (deliver-suspect item (apid_of p) (route s.router item.vc_id p).1 s.outlets
          (route_forbidden s.router item.vc_id p))
]

time_suspect_from :
    (items : List Item) (s : RouterTask)
    → (route_items items s).outlets.time_suspect_seen
      ≡ (s.outlets.time_suspect_seen || any_marks items)
unfolding route_items any_marks
time_suspect_from [] s = ground arith
time_suspect_from (item ∷ later) s =
    ground (arith, route_item-suspect item s, time_suspect_from later (route_item item s))

-- After any packets, the time is marked as suspect exactly where one of them was a packet of the
-- APID 0x541 that came while the lock on the mark was free.
pub time_suspect_seen-route_items :
    (items : List Item) → (route_items items new).outlets.time_suspect_seen ≡ any_marks items
unfolding new
time_suspect_seen-route_items items = time_suspect_from items new
