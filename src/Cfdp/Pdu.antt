-- ===== src/Cfdp/Pdu.antt =====
-- rust/ground_station/src/cfdp/class1.rs and mod.rs: the parsers of a CFDP PDU.
pub mod Identifier
use build_with_opus.Prelude.{
  ℕ, suc, ◌+◌, ◌*◌, ◌/◌, ◌%◌, ◌^◌, bit_and, bit_or, Bool, not, Option, none, some, List, [], ◌∷◌,
  Result, ok, err, ◌>>=◌, ◌>>◌, guard, ok_or, length, take, drop, leb, ltb, ◌==◌, if◌then◌else◌,
}
use build_with_opus.Prelude.Words.{◌<<<◌, ◌>>>◌, u32_from_be}

abbrev pub fixed_hdr_len : ℕ
fixed_hdr_len = 4

abbrev pub dir_eof : ℕ
dir_eof = 0x04

abbrev pub dir_metadata : ℕ
dir_metadata = 0x07

-- The texts of `Parse` are left out.
pub data CfdpError : Type 0 where
  parse : CfdpError
  unknown_transaction : ℕ → CfdpError
  capacity_exceeded : CfdpError
  crc_mismatch : ℕ → CfdpError
  timeout : ℕ → CfdpError
  io : CfdpError

pub record FixedHeader : Type 0 where
  pub is_file_data : Bool
  pub entity_id_len : ℕ
  pub seqnum_len : ℕ
  pub var_hdr_end : ℕ

-- The header whose first and fourth bytes are these.
unfoldable pub header_of : ℕ → ℕ → FixedHeader
header_of byte0 byte3 =
    let entity_id_len = bit_and (byte3 >>> 4) 0x07 + 1 in
    let seqnum_len = bit_and byte3 0x07 + 1 in
    record {
      is_file_data = not (bit_and byte0 0b0001_0000 == 0);
      entity_id_len = entity_id_len;
      seqnum_len = seqnum_len;
      var_hdr_end = fixed_hdr_len + entity_id_len + seqnum_len + entity_id_len;
    }

unfoldable pub decode_fixed_header : List ℕ → Result CfdpError FixedHeader
unfolding header_of
decode_fixed_header (byte0 ∷ byte1 ∷ byte2 ∷ byte3 ∷ rest) =
    let header = header_of byte0 byte3 in
    if ltb (4 + length rest) header.var_hdr_end then err parse else ok header
decode_fixed_header _ = err parse

-- `get(first..last)`
abbrev pub get : List ℕ → ℕ → ℕ → Option (List ℕ)
get bytes first n =
    if leb (first + n) (length bytes) then some (take n (drop first bytes)) else none

-- The fold of `read_be_u64`, on a u64.
unfoldable pub read_be_from : ℕ → List ℕ → ℕ
read_be_from acc [] = acc
read_be_from acc (b ∷ bytes) = read_be_from (bit_or ((acc <<< 8) % 2 ^ 64) b) bytes

unfoldable pub read_be_u64 : List ℕ → ℕ
unfolding read_be_from
read_be_u64 bytes = read_be_from 0 bytes

unfoldable pub transaction_id : ℕ → ℕ → ℕ
transaction_id source_id seq_num = bit_or ((source_id <<< 32) % 2 ^ 64) seq_num

unfoldable pub extract_transaction_id : List ℕ → ℕ → ℕ → Result CfdpError ℕ
unfolding transaction_id read_be_u64
extract_transaction_id pdu entity_id_len seqnum_len = do
  src_bytes ← ok_or (get pdu fixed_hdr_len entity_id_len) parse
  seq_bytes ← ok_or (get pdu (fixed_hdr_len + entity_id_len) seqnum_len) parse
  ok (transaction_id (read_be_u64 src_bytes) (read_be_u64 seq_bytes))

pub record FileMetadata : Type 0 where
  pub dest_path : List ℕ
  pub file_size : ℕ

-- What stands before the first zero, and what stands behind it.
unfoldable pub split_at_nul : List ℕ → Option (List ℕ × List ℕ)
split_at_nul [] = none
split_at_nul (b ∷ bytes) = elim (split_at_nul bytes) [
  | some (before, after) ↦ if b == 0 then some ([], bytes) else some (b ∷ before, after)
  | none ↦ if b == 0 then some ([], bytes) else none
]

-- `u32::from_be_bytes` of four bytes from an offset
abbrev pub u32_first : List ℕ → Option ℕ
u32_first (b0 ∷ b1 ∷ b2 ∷ b3 ∷ rest) = some (u32_from_be b0 b1 b2 b3)
u32_first _ = none

abbrev pub u32_at : List ℕ → ℕ → Option ℕ
u32_at bytes offset = u32_first (drop offset bytes)

-- `std::str::from_utf8` is an argument: whether the bytes are UTF-8.
unfoldable pub parse_metadata_pdu : (List ℕ → Bool) → List ℕ → Result CfdpError FileMetadata
unfolding split_at_nul
parse_metadata_pdu is_utf8 data_field = do
  file_size ← ok_or (u32_at data_field 2) parse
  names ← ok_or (split_at_nul (drop 6 data_field)) parse
  dest ← ok_or (split_at_nul (names.1)) parse
  guard (is_utf8 (dest.0)) parse
  ok (record { dest_path = dest.0; file_size = file_size })

pub record Eof : Type 0 where
  pub cond_code : ℕ
  pub crc32 : ℕ
  pub file_size : ℕ

unfoldable pub parse_eof_pdu : List ℕ → Result CfdpError Eof
parse_eof_pdu data_field = do
  cond_byte ← ok_or (get data_field 1 1) parse
  crc32 ← ok_or (u32_at data_field 2) parse
  file_size ← ok_or (u32_at data_field 6) parse
  ok (record {
    cond_code = bit_and (elim cond_byte [ [] ↦ 0 | b ∷ rest ↦ b >>> 4 ]) 0x0F;
    crc32 = crc32;
    file_size = file_size;
  })

-- The offset and the data.
unfoldable pub parse_file_data_pdu : List ℕ → Result CfdpError (ℕ × List ℕ)
parse_file_data_pdu data_field = do
  offset ← ok_or (u32_at data_field 0) parse
  ok (offset, drop 4 data_field)
