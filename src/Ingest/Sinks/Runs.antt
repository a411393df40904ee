-- ===== src/Ingest/Sinks/Runs.antt =====
-- The theorems on the stores at concrete packets.
use build_with_opus.Prelude.{◌≡◌, [], ◌∷◌, List, ℕ}
use build_with_opus.Ingest.Sinks.{Texts}
use build_with_opus.Ingest.Sinks.Rings.{
  last_entries, frames_of, sent_by, process_hk_packets, frames_of-process_hk_packets,
}

abbrev texts : Texts
texts = record { iso8601 = λ tai. tai.coarse ∷ []; now_utc = []; lossy = λ bytes. bytes }

-- Two packets of APID 0x101 and one that is too short.
abbrev packets : List (List ℕ)
packets = (0x09 ∷ 0x01 ∷ 5 ∷ []) ∷ (0x09 ∷ []) ∷ (0x09 ∷ 0x01 ∷ 6 ∷ []) ∷ []

frames_of-process_hk_packets_example :
    frames_of 0x101 (process_hk_packets texts packets)
    ≡ last_entries 20 (sent_by texts 0x101 packets)
frames_of-process_hk_packets_example = frames_of-process_hk_packets texts 0x101 packets
