-- ===== src/Wire.antt =====
-- rust/ccsds_wire: the CCSDS space packet codec, from the sealed field types to whole packets.
pub mod Error
pub mod Apid
pub mod SequenceCount
pub mod DataLength
pub mod FuncCode
pub mod InstanceId
pub mod PacketType
pub mod Cuc
pub mod Primary
pub mod Secondary
pub mod Packet
pub mod Builder
mod Runs
