-- ===== src/Station/Dispatch/Security.antt =====
-- What the sinks can be given, and when the time is marked as suspect.
use build_with_opus.Prelude.{
  ℕ, ◌≡◌, Bool, true, ◌&&◌, not, inl, inr, Bool-cases, Result-cases, List, [], ◌∷◌, All, All-append,
  ok, ◌==◌, arith,
}
use build_with_opus.Wire.Packet.{SpacePacket, parse}
use build_with_opus.Ingest.Router.{
  ApidRouter, Route, hk, event_log, cfdp_pdu, rover_forward, idle_fill, rejected, within, route,
}
use build_with_opus.Ingest.Router.Security.{apid_of}
use build_with_opus.Ingest.Router.Dispatch.{
  is_housekeeping, is_open, is_cfdp, is_event_log, is_hk, is_rover, route_sinks,
}
use build_with_opus.Station.Dispatch.{
  Outlets, RouterTask, Item, new, try_send, deliver, route_item, route_items,
}

-- The bytes are a packet whose APID passes the test.
pub Carries : (ℕ → Bool) → List ℕ → Type 0
Carries test bytes = (p : SpacePacket) × (parse bytes ≡ ok p) × (test (apid_of p) ≡ true)

-- Every sink was given only packets, and only of the APIDs that are its own.
pub record IsClean (o : Outlets) : Type 0 where
  pub hk_clean : All (Carries is_housekeeping) o.hk_sent
  pub event_clean : All (Carries is_open) o.event_sent
  pub cfdp_clean : All (Carries is_open) o.cfdp_sent
  pub rover_clean : All (Carries (within 0x300 0x45F)) o.rover_sent

and_first : (a b : Bool) → true ≡ (a && b) → a ≡ true
and_first a b h = ground arith

and_last : (a b c : Bool) → true ≡ (a && (b && c)) → c ≡ true
and_last a b c h = ground arith

-- What a route says of the APID.
abbrev Fits : ℕ → Route → Type 0
Fits apid hk = is_housekeeping apid ≡ true
Fits apid event_log = is_open apid ≡ true
Fits apid cfdp_pdu = is_open apid ≡ true
Fits apid rover_forward = within 0x300 0x45F apid ≡ true
Fits apid idle_fill = Unit {0}
Fits apid (rejected reason) = Unit {0}

permitted-Fits :
    (vc apid : ℕ) (x : Route)
    → is_cfdp x ≡ (is_open apid && (vc == 2))
    → is_event_log x ≡ (is_open apid && (vc == 1))
    → is_hk x ≡ (not (vc == 1) && (not (vc == 2) && is_housekeeping apid))
    → is_rover x ≡ (not (vc == 1) && (not (vc == 2) && within 0x300 0x45F apid))
    → Fits apid x
permitted-Fits vc apid hk c e h r = and_last _ _ _ h
permitted-Fits vc apid event_log c e h r = and_first _ _ e
permitted-Fits vc apid cfdp_pdu c e h r = and_first _ _ c
permitted-Fits vc apid rover_forward c e h r = and_last _ _ _ r
permitted-Fits vc apid idle_fill c e h r = tt
permitted-Fits vc apid (rejected reason) c e h r = tt

route-Fits : (r : ApidRouter) (vc : ℕ) (p : SpacePacket) → Fits (apid_of p) (route r vc p).1
route-Fits r vc p =
    let (c, e, h, v) = route_sinks r vc p in permitted-Fits vc (apid_of p) (route r vc p).1 c e h v

sent_one :
    (P : List ℕ → Type 0) (item : Item) (sent : List (List ℕ))
    → P item.bytes
    → All P sent
    → All P (try_send item sent)
sent_one P item sent h hs = elim (Bool-cases item.accepted) [
  | inl e ↦ rw e (All-append P sent (item.bytes ∷ []) hs (h, tt))
  | inr e ↦ rw e hs
]

deliver-IsClean :
    (item : Item) (p : SpacePacket) (x : Route) (o : Outlets)
    → parse item.bytes ≡ ok p
    → Fits (apid_of p) x
    → IsClean o
    → IsClean (deliver item (apid_of p) x o)
unfolding deliver Carries
deliver-IsClean item p hk o e f v = record {
  hk_clean = sent_one (Carries is_housekeeping) item o.hk_sent (p, e, f) v.hk_clean;
  event_clean = v.event_clean;
  cfdp_clean = v.cfdp_clean;
  rover_clean = v.rover_clean;
}
deliver-IsClean item p event_log o e f v = record {
  hk_clean = v.hk_clean;
  event_clean = sent_one (Carries is_open) item o.event_sent (p, e, f) v.event_clean;
  cfdp_clean = v.cfdp_clean;
  rover_clean = v.rover_clean;
}
deliver-IsClean item p cfdp_pdu o e f v = record {
  hk_clean = v.hk_clean;
  event_clean = v.event_clean;
  cfdp_clean = sent_one (Carries is_open) item o.cfdp_sent (p, e, f) v.cfdp_clean;
  rover_clean = v.rover_clean;
}
deliver-IsClean item p rover_forward o e f v = record {
  hk_clean = v.hk_clean;
  event_clean = v.event_clean;
  cfdp_clean = v.cfdp_clean;
  rover_clean = sent_one (Carries (within 0x300 0x45F)) item o.rover_sent (p, e, f) v.rover_clean;
}
deliver-IsClean item p idle_fill o e f v = v
deliver-IsClean item p (rejected reason) o e f v = elim (Bool-cases (apid_of p == 0x0541)) [
  | inl suspect ↦
      rw (suspect, deliver)
        (record {
          hk_clean = v.hk_clean;
          event_clean = v.event_clean;
          cfdp_clean = v.cfdp_clean;
          rover_clean = v.rover_clean;
        })
  | inr other ↦ rw (other, deliver) v
]

route_item-IsClean :
    (item : Item) (s : RouterTask) → IsClean s.outlets → IsClean (route_item item s).outlets
unfolding route_item
route_item-IsClean item s v = elim (Result-cases (parse item.bytes)) [
  | inl (e, failed) ↦ rw (failed, route_item) v
  | inr (p, parsed) ↦
      rw (parsed, route_item)
        (deliver-IsClean item p (route s.router item.vc_id p).1 s.outlets parsed
          (route-Fits s.router item.vc_id p) v)
]

route_items-IsClean_from :
    (items : List Item) (s : RouterTask) → IsClean s.outlets → IsClean (route_items items s).outlets
unfolding route_items
route_items-IsClean_from [] s v = v
route_items-IsClean_from (item ∷ later) s v =
    route_items-IsClean_from later (route_item item s) (route_item-IsClean item s v)

-- Whatever bytes come on whatever channels, and however full the channels of the sinks are: the
-- housekeeping sink is only ever given packets of the APIDs 0x100-0x17F and 0x200-0x2FF, the rover
-- sink only packets of 0x300-0x45F, and the event and file sinks only packets whose APID is neither
-- forbidden nor idle fill.
pub route_items-IsClean : (items : List Item) → IsClean (route_items items new).outlets
unfolding new
route_items-IsClean items =
    route_items-IsClean_from items new
      (record { hk_clean = tt; event_clean = tt; cfdp_clean = tt; rover_clean = tt })
