-- ===== src/Wire/Packet.antt =====
-- rust/ccsds_wire/src/packet.rs: a whole space packet as a view of a buffer.
pub mod RoundTrip
pub mod Errors
use build_with_opus.Prelude.{
  ℕ, ◌+◌, List, ◌++◌, ok, err, length, drop, ◌>>=◌, ◌>>◌, guard, ◌==◌, leb, ltb, if◌then◌else◌,
}
use build_with_opus.Wire.Error.{Decoded, buffer_too_short, length_mismatch}
use build_with_opus.Wire.Primary
use build_with_opus.Wire.Primary.{PrimaryHeader}
use build_with_opus.Wire.Secondary
use build_with_opus.Wire.Secondary.{SecondaryHeader}

pub record SpacePacket : Type 0 where
  pub primary : PrimaryHeader
  pub secondary : SecondaryHeader
  pub user_data : List ℕ

abbrev pub header_len : ℕ
header_len = Primary.len + Secondary.len

unfoldable pub parse : List ℕ → Decoded SpacePacket
parse buf = do
  guard (leb header_len (length buf)) (buffer_too_short header_len (length buf))
  primary ← Primary.decode buf
  secondary ← Secondary.decode (drop Primary.len buf)
  let declared_total = primary.data_length.raw + 7
  guard (declared_total == length buf) (length_mismatch declared_total (length buf))
  ok (record { primary = primary; secondary = secondary; user_data = drop header_len buf })

unfoldable pub total_len : SpacePacket → ℕ
total_len p = header_len + length p.user_data

-- The packet as the builder writes it: both headers, then the user data.
abbrev pub bytes_of : SpacePacket → List ℕ
bytes_of p = Primary.encode p.primary ++ (Secondary.encode p.secondary ++ p.user_data)
