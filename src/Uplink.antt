-- ===== src/Uplink.antt =====
-- rust/ground_station/src/uplink: from operator intent to telecommand frames.
pub mod Fop1
pub mod Cop1
pub mod TcBuilder
pub mod TcFramer
pub mod Transfer
pub mod Runs
