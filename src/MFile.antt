-- ===== src/MFile.antt =====
-- rust/ground_station/src/mfile: reassembly of files from chunks that arrive out of order.
pub mod BitSet
pub mod Header
pub mod State
pub mod Assembler
pub mod Runs
