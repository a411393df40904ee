-- ===== src/Station.antt =====
-- rust/ground_station/src/main.rs: the stages one after the other.
pub mod Dispatch
pub mod Tasks
pub mod Pipeline
pub mod Interleaving
mod Runs
