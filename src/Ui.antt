-- ===== src/Ui.antt =====
-- rust/ground_station/src/ui: the operator's interface.
pub mod Time
pub mod State
pub mod Links
pub mod Handlers
pub mod Routes
mod Runs
