-- ===== src/Bindings.antt =====
-- rust/cfs_bindings: cFE message identifiers and message buffers over the packet codec.
pub mod MsgId
pub mod Message
pub mod SbBuffer
pub mod Convert
mod Runs
