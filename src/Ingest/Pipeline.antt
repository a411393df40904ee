-- ===== src/Ingest/Pipeline.antt =====
-- The receiver, the decoder and the packet parser one after the other.
use build_with_opus.Prelude.{ℕ, ◌+◌, ◌≡◌, ◌∙◌, none, some, List, ok, length, arith}
use build_with_opus.Wire.Packet.{SpacePacket, parse}
use build_with_opus.Ingest.Carrier.{AosFrame}
use build_with_opus.Ingest.Framer.{AosFramer, process_frame}
use build_with_opus.Ingest.Framer.Link.{length-process_frame}

-- The length that an accepted packet declares is that of the buffer.
pub declared_length :
    (buf : List ℕ) (p : SpacePacket) → parse buf ≡ ok p → p.primary.data_length.raw + 7 ≡ length buf
unfolding parse
declared_length buf p e = ground (arith, e)

-- A packet that the parser accepts out of a frame that the receiver passed on fills the data field
-- of the frame exactly: the length that it declares is 1012 bytes in a frame with the control
-- field, and 1016 bytes in a frame without it.
pub packet_fills_frame :
    (crc16 : List ℕ → ℕ) (now : ℕ) (buf : List ℕ) (s : AosFramer) (frame : AosFrame)
    (p : SpacePacket)
    → length buf ≡ 1024
    → (process_frame crc16 now buf s).1 ≡ some frame
    → parse frame.data_field ≡ ok p
    → p.primary.data_length.raw + 7 ≡ elim frame.ocf [ none ↦ 1016 | some o ↦ 1012 ]
packet_fills_frame crc16 now buf s frame p h passed parsed =
    declared_length frame.data_field p parsed ∙ length-process_frame crc16 now buf s frame h passed
