-- ===== src/Ingest.antt =====
-- rust/ground_station/src/ingest: from AOS frames to routed space packets.
pub mod Carrier
pub mod Framer
pub mod Demux
pub mod Decoder
pub mod Sinks
pub mod Pipeline
pub mod Runs
pub mod Router
