-- ===== src/Cfdp/Class1/Delivery.antt =====
-- A transaction while its PDUs arrive, on a disk that does what POSIX says of writes at an offset.
pub mod Segments
pub mod Complete
pub mod Whole
use build_with_opus.Prelude.{
  ℕ, zero, suc, ◌+◌, ◌-◌, ◌≤◌, ◌<◌, ◌≡◌, ◌≢◌, refl, sym, ap, ◌∙◌, Bool, true, false, ◌&&◌, ◌||◌,
  Bool-cases, inl, inr, Option, none, some, List, [], ◌∷◌, ◌++◌, Result, ok, err, length, get_elem?,
  drop, min, leb, ltb, if◌then◌else◌, arith,
}
use build_with_opus.Prelude.Words.{u32_to_be}
use build_with_opus.Prelude.Table.{lookup, insert, lookup-insert}
use build_with_opus.Cfdp.Pdu.{
  CfdpError, FixedHeader, FileMetadata, decode_fixed_header, extract_transaction_id,
  parse_file_data_pdu,
}
use build_with_opus.Cfdp.Class1.{
  Files, FinalPath, TransactionState, Class1Receiver, put, open_transaction, write_chunk,
  on_file_data, on_directive, on_pdu,
}

-- `bytes first`, and so on, `n` of them.
unfoldable pub slice : (ℕ → ℕ) → ℕ → ℕ → List ℕ
slice bytes first zero = []
slice bytes first (suc n) = bytes first ∷ slice bytes (suc first) n

pub length-slice : (bytes : ℕ → ℕ) (first n : ℕ) → length (slice bytes first n) ≡ n
unfolding slice
length-slice bytes first zero = refl
length-slice bytes first (suc n) = ap suc (length-slice bytes (suc first) n)

abbrev pub byte_or_zero : List ℕ → ℕ → ℕ
byte_or_zero bytes i = elim (get_elem? bytes i) [ none ↦ 0 | some b ↦ b ]

pub byte_or_zero-slice :
    (bytes : ℕ → ℕ) (first n i : ℕ)
    → i < n
    → byte_or_zero (slice bytes first n) i ≡ bytes (first + i)
unfolding slice
byte_or_zero-slice bytes first zero i h = absurd (omega (arith, h))
byte_or_zero-slice bytes first (suc n) zero h = ap bytes (omega arith)
byte_or_zero-slice bytes first (suc n) (suc i) h =
    byte_or_zero-slice bytes (suc first) n i (omega (arith, h)) ∙ ap bytes (omega arith)

-- What a file system does with the partial file of a transaction: whether there is one, its size,
-- its bytes, and the checksum of the bytes. A write goes through, makes the file where there is
-- none, and behind the end makes it longer. A file that is not there cannot be opened for the
-- checksum.
pub record Storage {D : Type 0} (files : Files D) (id : ℕ) : Type 1 where
  pub exists : D → Bool
  pub size : D → ℕ
  pub byte : ℕ → D → ℕ
  pub crc32 : List ℕ → ℕ
  pub writes : (offset : ℕ) (chunk : List ℕ) (d : D) → (files.write_at id offset chunk d).1 ≡ true
  pub exists-write_at :
      (offset : ℕ) (chunk : List ℕ) (d : D) → exists (files.write_at id offset chunk d).0 ≡ true
  pub size-write_at :
      (offset : ℕ) (chunk : List ℕ) (d : D)
      → 0 < length chunk
      → size (files.write_at id offset chunk d).0
        ≡ (if leb (offset + length chunk) (size d) then size d else offset + length chunk)
  pub byte-write_at :
      (offset : ℕ) (chunk : List ℕ) (d : D) (i : ℕ)
      → byte i (files.write_at id offset chunk d).0 ≡ (
          if leb offset i && ltb i (offset + length chunk)
          then byte_or_zero chunk (i - offset)
          else byte i d)
  pub sums :
      (d : D)
      → files.file_crc32 id d
        ≡ (if exists d then some (crc32 (slice (λ i. byte i d) 0 (size d))) else none)
  pub renames : (path : FinalPath) (d : D) → (files.rename id path d).1 ≡ true

-- The PDU is one of the transaction, with this data field.
pub record Carries (id : ℕ) (is_file_data : Bool) (data_field pdu : List ℕ) : Type 0 where
  pub header : FixedHeader
  pub decoded : decode_fixed_header pdu ≡ ok header
  pub extracted : extract_transaction_id pdu header.entity_id_len header.seqnum_len ≡ ok id
  pub kind : header.is_file_data ≡ is_file_data
  pub field : drop header.var_hdr_end pdu ≡ data_field

module _ {D : Type 0} (files : Files D) (id : ℕ) where
  pub on_pdu-file_data :
      (data_field pdu : List ℕ) (r : Class1Receiver D)
      → Carries id true data_field pdu
      → on_pdu files pdu r ≡ on_file_data files id data_field r
  unfolding on_pdu
  on_pdu-file_data data_field pdu r c =
      rw (c.decoded, on_pdu)
        (rw (c.extracted, on_pdu) (rw (c.kind) (ap (λ d. on_file_data files id d r) c.field)))

  pub on_pdu-directive :
      (data_field pdu : List ℕ) (r : Class1Receiver D)
      → Carries id false data_field pdu
      → on_pdu files pdu r ≡ on_directive files id data_field r
  unfolding on_pdu
  on_pdu-directive data_field pdu r c =
      rw (c.decoded, on_pdu)
        (rw (c.extracted, on_pdu) (rw (c.kind) (ap (λ d. on_directive files id d r) c.field)))

  open_transaction-there :
      (t : TransactionState) (r : Class1Receiver D)
      → lookup id r.active ≡ some t
      → open_transaction id r ≡ some r
  unfolding open_transaction
  open_transaction-there t r there = rw (there, open_transaction) refl

  parse_file_data_pdu-eq :
      (offset : ℕ) (chunk : List ℕ)
      → offset < 4294967296
      → parse_file_data_pdu (u32_to_be offset ++ chunk) ≡ ok (offset, chunk)
  unfolding parse_file_data_pdu
  parse_file_data_pdu-eq offset chunk h = ap (λ o. ok (o, chunk)) (omega (arith, h))

  -- A segment of an open transaction is written where it belongs, and counted.
  pub on_file_data-segment :
      (storage : Storage files id) (offset : ℕ) (chunk : List ℕ) (t : TransactionState)
      (r : Class1Receiver D)
      → lookup id r.active ≡ some t
      → offset < 4294967296
      → (on_file_data files id (u32_to_be offset ++ chunk) r).0
        ≡ put id
            (record t { bytes_written = min (t.bytes_written + length chunk) 18446744073709551615 })
            (record r { disk = (files.write_at id offset chunk r.disk).0 })
  unfolding on_file_data write_chunk
  on_file_data-segment storage offset chunk t r there h =
      rw (open_transaction-there t r there, on_file_data)
        (rw (parse_file_data_pdu-eq offset chunk h, on_file_data)
          (rw (there, on_file_data) (rw (storage.writes offset chunk r.disk, write_chunk) refl)))
