-- ===== src/MFile/Header.antt =====
-- rust/ground_station/src/mfile/mod.rs: the wire header of a chunk.
use build_with_opus.Prelude.{
  ℕ, ◌+◌, ◌*◌, Option, none, some, List, ◌∷◌, Result, ok, length, take, drop, leb, ltb, ◌>>=◌, ◌>>◌,
  guard, ok_or, not, ◌==◌, if◌then◌else◌,
}
use build_with_opus.Prelude.Words.{u16_from_be, u32_from_be}

abbrev pub header_len : ℕ
header_len = 34

abbrev pub mfile_chunk_max_bytes : ℕ
mfile_chunk_max_bytes = 1024

pub data MFileError : Type 0 where
  too_short : MFileError
  chunk_len_exceeded : ℕ → MFileError
  chunk_crc_mismatch : (transaction_id expected got : ℕ) → MFileError
  io : MFileError

-- The first bytes of a list as a big-endian number, if there are enough.
unfoldable pub u16_at : List ℕ → Option ℕ
u16_at (b0 ∷ b1 ∷ rest) = some (u16_from_be b0 b1)
u16_at _ = none

unfoldable pub u32_at : List ℕ → Option ℕ
u32_at (b0 ∷ b1 ∷ b2 ∷ b3 ∷ rest) = some (u32_from_be b0 b1 b2 b3)
u32_at _ = none

unfoldable pub u64_at : List ℕ → Option ℕ
u64_at (b0 ∷ b1 ∷ b2 ∷ b3 ∷ b4 ∷ b5 ∷ b6 ∷ b7 ∷ rest) =
    some (u32_from_be b0 b1 b2 b3 * 4294967296 + u32_from_be b4 b5 b6 b7)
u64_at _ = none

unfoldable pub read_u16_be : List ℕ → ℕ → Option ℕ
unfolding u16_at
read_u16_be buf offset = u16_at (drop offset buf)

unfoldable pub read_u32_be : List ℕ → ℕ → Option ℕ
unfolding u32_at
read_u32_be buf offset = u32_at (drop offset buf)

unfoldable pub read_u64_be : List ℕ → ℕ → Option ℕ
unfolding u64_at
read_u64_be buf offset = u64_at (drop offset buf)

-- The fields of the header that the assembler uses, and the payload.
pub record Chunk : Type 0 where
  pub transaction_id : ℕ
  pub total_size_bytes : ℕ
  pub total_chunks : ℕ
  pub crc32_full_file : ℕ
  pub chunk_index : ℕ
  pub chunk_len : ℕ
  pub payload : List ℕ

-- `raw.get(HEADER_LEN..HEADER_LEN + n)`
unfoldable pub payload_of : List ℕ → ℕ → Option (List ℕ)
payload_of raw n =
    if leb (header_len + n) (length raw) then some (take n (drop header_len raw)) else none

-- Steps 1 and 2 of `on_chunk`, with the checksum of the `crc` crate as an argument.
unfoldable pub parse_chunk : (List ℕ → ℕ) → List ℕ → Result MFileError Chunk
unfolding payload_of
parse_chunk crc32 raw = do
  guard (not (ltb (length raw) header_len)) too_short
  transaction_id ← ok_or (read_u32_be raw 0) too_short
  total_size_bytes ← ok_or (read_u64_be raw 4) too_short
  total_chunks ← ok_or (read_u32_be raw 12) too_short
  crc32_full_file ← ok_or (read_u32_be raw 16) too_short
  chunk_index ← ok_or (read_u32_be raw 20) too_short
  chunk_len ← ok_or (read_u16_be raw 24) too_short
  last_chunk_index ← ok_or (read_u32_be raw 26) too_short
  crc32_sent ← ok_or (read_u32_be raw 30) too_short
  guard (not (ltb mfile_chunk_max_bytes chunk_len)) (chunk_len_exceeded chunk_len)
  payload ← ok_or (payload_of raw chunk_len) too_short
  guard (crc32 payload == crc32_sent) (chunk_crc_mismatch transaction_id crc32_sent (crc32 payload))
  ok (record {
    transaction_id = transaction_id;
    total_size_bytes = total_size_bytes;
    total_chunks = total_chunks;
    crc32_full_file = crc32_full_file;
    chunk_index = chunk_index;
    chunk_len = chunk_len;
    payload = payload;
  })
