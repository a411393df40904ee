-- ===== src/Station/Pipeline/Arrival.antt =====
-- Housekeeping on its way from the frame to the interface.
use build_with_opus.Prelude.{
  ℕ, ◌≤◌, ◌<◌, ◌≡◌, refl, ◌∙◌, ap, true, none, some, List, [], ◌∷◌, ◌++◌, ok, length, ◌==◌,
  if◌then◌else◌, arith,
}
use build_with_opus.Wire.Packet.{SpacePacket, parse}
use build_with_opus.Ingest.Carrier.{AosFrame}
use build_with_opus.Ingest.Framer.{process_frame}
use build_with_opus.Ingest.Demux.Counts.{IsServed, dispatch-served}
use build_with_opus.Ingest.Decoder.Forwarding.{process-parsed}
use build_with_opus.Ingest.Router.{Route, hk, route}
use build_with_opus.Ingest.Router.Security.{apid_of}
use build_with_opus.Ingest.Router.Dispatch.{is_housekeeping, is_hk, route_sinks}
use build_with_opus.Ingest.Sinks.{Texts, HkSnapshot, process_hk_packet}
use build_with_opus.Ingest.Sinks.Headers.{parse-extract_apid, parse-hk_frame}
use build_with_opus.Ui.Links.{latest_hk_frame}
use build_with_opus.Ui.Links.Reports.{latest-process_hk_packet}
use build_with_opus.Injector.{InjectorState, send}
use build_with_opus.Injector.Delivery.{telemetry, send-parse}
use build_with_opus.Station.Dispatch.{RouterTask, Item, deliver, route_item}
use build_with_opus.Station.Pipeline.{Stages, Answers, decode_frame, demux_frame, receive}

is_hk-eq : (x : Route) → is_hk x ≡ true → x ≡ hk
is_hk-eq hk h = refl
is_hk-eq _ h = cc

-- Every channel has room.
abbrev pub all_room : Answers
all_room = record {
  demux_accepted = true;
  decoder_accepted = true;
  sink_accepted = true;
  lock_free = true;
}

route_item-hk :
    (item : Item) (p : SpacePacket) (s : RouterTask)
    → parse item.bytes ≡ ok p
    → item.accepted ≡ true
    → item.vc_id ≡ 0
    → is_housekeeping (apid_of p) ≡ true
    → (route_item item s).outlets.hk_sent ≡ s.outlets.hk_sent ++ item.bytes ∷ []
unfolding route_item deliver
route_item-hk item p s parsed room vc house =
    let to_hk : (route s.router item.vc_id p).1 ≡ hk =
      is_hk-eq _ ((route_sinks s.router item.vc_id p).2 ∙ rw (vc, house) refl) in
    rw (parsed, route_item) (rw (to_hk, deliver) (rw room refl))

receive-hk :
    (crc16 : List ℕ → ℕ) (now : ℕ) (buf : List ℕ) (frame : AosFrame) (p : SpacePacket) (s : Stages)
    → (process_frame crc16 now buf s.framer).1 ≡ some frame
    → parse frame.data_field ≡ ok p
    → frame.vc_id ≡ 0
    → is_housekeeping (apid_of p) ≡ true
    → IsServed frame.vc_id s.demux
    → (receive crc16 now all_room buf s).router_task.outlets.hk_sent
      ≡ s.router_task.outlets.hk_sent ++ frame.data_field ∷ []
unfolding receive demux_frame decode_frame
receive-hk crc16 now buf frame p s taken parsed vc house served =
    rw (taken, receive)
      (rw (dispatch-served now frame s.demux served, demux_frame)
        (rw (process-parsed now frame (s.decoders frame.vc_id) p parsed, decode_frame)
          (route_item-hk _ p s.router_task parsed refl vc house)))

housekeeping_fits : (apid : ℕ) → is_housekeeping apid ≡ true → apid ≤ 0x7FF
housekeeping_fits apid h = ground (arith, h)

filled :
    {A : Type 0} (full short : A) (n : ℕ) → n ≡ 1000 → (if n == 1000 then full else short) ≡ full
filled full short n h = ground (arith, h)

-- A telemetry packet of a housekeeping APID that fills its frame on channel 0, which the
-- demultiplexer serves, comes from the tool that sends it to the operator: with room in every
-- channel, the router hands exactly its bytes to the housekeeping sink, and there its user data,
-- under the time of its time code, is what the interface holds as the latest frame of the APID.
pub receive-send :
    (crc16 : List ℕ → ℕ) (word : (bytes : List ℕ) → crc16 bytes < 65536) (texts : Texts)
    (apid tai : ℕ) (user_data : List ℕ) (tool : InjectorState) (now : ℕ) (s : Stages)
    (store : List HkSnapshot)
    → is_housekeeping apid ≡ true
    → tai < 4294967296
    → tool.seq ≤ 0x3FFF
    → length user_data ≡ 1000
    → IsServed 0 s.demux
    → (t : InjectorState) × (frame : List ℕ) × (pkt : List ℕ) × (send crc16 apid 0 tai user_data
          tool
        ≡ ok (t, frame))
      × ((receive crc16 now all_room frame s).router_task.outlets.hk_sent
          ≡ s.router_task.outlets.hk_sent ++ pkt ∷ [])
      × (latest_hk_frame (process_hk_packet texts pkt store) apid
          ≡ some (record {
            timestamp_utc = texts.iso8601 (record { coarse = tai; fine = 0 });
            payload = user_data;
          }))
receive-send crc16 word texts apid tai user_data tool now s store house ht hs full served =
    let p = telemetry apid tool.seq tai user_data in
    let (t, frame, pkt, sent, _, _, _, taken, parsed) =
      send-parse crc16 word apid 0 tai user_data tool (housekeeping_fits apid house) ht hs
        (omega (arith, full)) in
    let whole : parse pkt ≡ ok p = parsed ∙ filled (ok p) _ (length user_data) full in
    (
      t,
      frame,
      pkt,
      sent,
      receive-hk crc16 now frame (record { vc_id = 0; ocf = none; data_field = pkt }) p s
          (taken now s.framer) whole refl house served,
      latest-process_hk_packet texts pkt store apid (parse-extract_apid pkt p whole)
          ∙ ap some (parse-hk_frame texts pkt p whole),
    )
