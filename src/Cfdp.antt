-- ===== src/Cfdp.antt =====
-- rust/ground_station/src/cfdp: the receiver of files that are sent without acknowledgement.
pub mod Pdu
pub mod Class1
pub mod Adapter
pub mod Runs
