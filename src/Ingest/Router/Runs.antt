-- ===== src/Ingest/Router/Runs.antt =====
-- The router's theorems at concrete packets.
use build_with_opus.Prelude.{ℕ, ◌≡◌, true, false, [], ◌∷◌}
use build_with_opus.Wire.PacketType.{tm}
use build_with_opus.Wire.Packet.{SpacePacket}
use build_with_opus.Ingest.Router.{new, route, forbidden_apid_seen_total}
use build_with_opus.Ingest.Router.Security.{
  is_security_rejection, route_forbidden, route_all, total-route_all,
}
use build_with_opus.Ingest.Router.Dispatch.{is_cfdp, is_event_log, is_hk, is_rover, route_sinks}

abbrev packet : ℕ → SpacePacket
packet apid = record {
  primary = record {
    apid = record { raw = apid };
    packet_type = tm;
    sequence_count = record { raw = 0 };
    data_length = record { raw = 9 };
  };
  secondary = record {
    time = record { coarse = 0; fine = 0 };
    func_code = record { raw = 2 };
    instance_id = record { raw = 1 };
  };
  user_data = [];
}

route_forbidden_example : is_security_rejection (route new 0 (packet 0x541)).1 ≡ true
route_forbidden_example = route_forbidden new 0 (packet 0x541)

total-route_all_example :
    forbidden_apid_seen_total
      (route_all new ((0, packet 0x541) ∷ (2, packet 0x101) ∷ (1, packet 0x541) ∷ []))
      0x541
    ≡ 2
total-route_all_example =
    total-route_all ((0, packet 0x541) ∷ (2, packet 0x101) ∷ (1, packet 0x541) ∷ []) 0x541

route_sinks_example :
    (is_cfdp (route new 0 (packet 0x101)).1 ≡ false)
    × (is_event_log (route new 0 (packet 0x101)).1 ≡ false)
    × (is_hk (route new 0 (packet 0x101)).1 ≡ true)
    × (is_rover (route new 0 (packet 0x101)).1 ≡ false)
route_sinks_example = route_sinks new 0 (packet 0x101)
