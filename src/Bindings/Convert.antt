-- ===== src/Bindings/Convert.antt =====
-- rust/cfs_bindings/src/convert.rs: to a cFE message and back.
use build_with_opus.Prelude.{ℕ, ◌≡◌, List, ok, ◌>>=◌, arith}
use build_with_opus.Prelude.Words.{IsBytes}
use build_with_opus.Wire.Error.{Decoded}
use build_with_opus.Wire.Apid.{Apid}
use build_with_opus.Wire.PacketType.{PacketType, tm, tc}
use build_with_opus.Wire.Packet
use build_with_opus.Wire.Packet.{SpacePacket}
use build_with_opus.Wire.Builder
use build_with_opus.Wire.Builder.{
  PacketBuilder, with_func_code, with_instance_id, with_cuc, with_sequence_count, with_user_data,
}
use build_with_opus.Wire.Builder.RoundTrip.{build-copy_of}
use build_with_opus.Bindings.Message
use build_with_opus.Bindings.Message.{Message}

unfoldable pub to_c_message : List ℕ → Decoded Message
to_c_message buf = Message.from_bytes buf

builder_for : PacketType → Apid → PacketBuilder
builder_for tc a = Builder.new_tc a
builder_for tm a = Builder.new_tm a

rebuild : SpacePacket → Decoded (List ℕ)
unfolding builder_for
rebuild pkt = Builder.build (
    with_user_data pkt.user_data (
      with_sequence_count pkt.primary.sequence_count (
        with_cuc pkt.secondary.time (
          with_instance_id pkt.secondary.instance_id (
            with_func_code pkt.secondary.func_code
              (builder_for pkt.primary.packet_type pkt.primary.apid))))))

pub from_c_message : Message → Decoded (List ℕ)
from_c_message msg = do pkt ← Message.as_space_packet msg; rebuild pkt

rebuild-parse :
    (buf : List ℕ) (p : SpacePacket) → IsBytes buf → Packet.parse buf ≡ ok p → rebuild p ≡ ok buf
unfolding rebuild Builder.new_tm Builder.new_tc
rebuild-parse buf p b e = ground (arith, build-copy_of buf p b e)

-- A byte buffer that becomes a cFE message comes back from it byte for byte, though the way back
-- rebuilds the packet from its parsed fields.
pub from_c_message-to_c_message :
    (buf : List ℕ) (m : Message) → IsBytes buf → to_c_message buf ≡ ok m → from_c_message m ≡ ok buf
unfolding to_c_message from_c_message Message.as_space_packet
from_c_message-to_c_message buf m b e =
    let (p, parsed, made) = Message.from_bytes-eq-ok buf m e in
    ground (arith, parsed, made, rebuild-parse buf p b parsed)
