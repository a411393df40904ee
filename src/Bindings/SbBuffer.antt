-- ===== src/Bindings/SbBuffer.antt =====
-- rust/cfs_bindings/src/message.rs: a buffer that is only known to hold both headers.
use build_with_opus.Prelude.{ℕ, not, List, ok, length, ◌>>◌, guard, ltb}
use build_with_opus.Wire.Error.{Decoded, buffer_too_short}
use build_with_opus.Wire.Packet
use build_with_opus.Bindings.Message
use build_with_opus.Bindings.Message.{Message}

pub record SbBuffer : Type 0 where
  pub bytes : List ℕ

unfoldable pub from_bytes : List ℕ → Decoded SbBuffer
from_bytes bytes = do
  guard (not (ltb (length bytes) Packet.header_len))
      (buffer_too_short Packet.header_len (length bytes))
  ok (record { bytes = bytes })

unfoldable pub into_message : SbBuffer → Decoded Message
into_message b = Message.from_bytes b.bytes
