-- ===== src/Cfdp/Class1.antt =====
-- rust/ground_station/src/cfdp/class1.rs and mod.rs: the table of transactions and its operations.
pub mod Reach
pub mod Delivery
use build_with_opus.Prelude.{
  ℕ, ◌+◌, ◌-◌, ◌*◌, min, Bool, true, false, Option, none, some, List, [], ◌∷◌, Result, ok, err,
  ◌>>=◌, map_err, length, leb, ltb, drop, ◌==◌, if◌then◌else◌,
}
use build_with_opus.Prelude.Table.{Table, lookup, insert, remove}
use build_with_opus.Wire.Cuc.{Cuc}
use build_with_opus.Cfdp.Pdu.{
  CfdpError, parse, unknown_transaction, capacity_exceeded, crc_mismatch, io, FixedHeader,
  decode_fixed_header, extract_transaction_id, FileMetadata, parse_metadata_pdu, Eof, parse_eof_pdu,
  parse_file_data_pdu, dir_eof, dir_metadata,
}

abbrev pub cfdp_max_transactions : ℕ
cfdp_max_transactions = 16

abbrev pub cfdp_timeout_owlt_mult : ℕ
cfdp_timeout_owlt_mult = 10

-- `<id>.bin` in the output directory, or the path of the metadata, which is joined to the output
-- directory unless it is absolute.
pub data FinalPath : Type 0 where
  bin_path : ℕ → FinalPath
  metadata_path : List ℕ → FinalPath

-- The files on a disk D, those that are assembled by the number of their transaction. The flag says
-- whether the operation succeeded, and `none` that the file could not be read.
pub record Files (D : Type 0) : Type 0 where
  pub is_utf8 : List ℕ → Bool
  pub write_at : (id offset : ℕ) (chunk : List ℕ) → D → D × Bool
  pub file_crc32 : ℕ → D → Option ℕ
  pub rename : ℕ → FinalPath → D → D × Bool

pub data TransactionOutcome : Type 0 where
  completed : (id : ℕ) (path : FinalPath) (bytes : ℕ) → TransactionOutcome
  abandoned : (id bytes_received : ℕ) → TransactionOutcome

-- The partial path is given by the transaction's number.
pub record TransactionState : Type 0 where
  pub started_tai_coarse : ℕ
  pub last_pdu_tai : ℕ
  pub metadata : Option FileMetadata
  pub bytes_written : ℕ
  pub expected_crc : Option ℕ

pub record Class1Receiver (D : Type 0) : Type 0 where
  pub owlt_secs : ℕ
  pub active : Table TransactionState
  pub next_tx_id : ℕ
  pub disk : D

abbrev pub new_state : TransactionState
new_state = record {
  started_tai_coarse = 0;
  last_pdu_tai = 0;
  metadata = none;
  bytes_written = 0;
  expected_crc = none;
}

-- `saturating_mul` on a u64
unfoldable pub timeout_secs : ℕ → ℕ
timeout_secs owlt_secs = min (owlt_secs * cfdp_timeout_owlt_mult) 18446744073709551615

-- Whether the checksum of the file is the expected one, if there is one.
abbrev pub crc_fails : ℕ → Option ℕ → Bool
crc_fails actual none = false
crc_fails actual (some expected) = if actual == expected then false else true

abbrev pub final_path : ℕ → TransactionState → FinalPath
final_path id t = elim t.metadata [ none ↦ bin_path id | some m ↦ metadata_path m.dest_path ]

abbrev pub is_late : ℕ → ℕ → TransactionState → Bool
is_late timeout now_tai t = ltb timeout (now_tai - t.last_pdu_tai)

-- The transactions that time out, in the order of the table.
pub timed_out : ℕ → ℕ → Table TransactionState → Table TransactionState
timed_out timeout now_tai [] = []
timed_out timeout now_tai ((id, t) ∷ rest) =
    let later = timed_out timeout now_tai rest in
    if is_late timeout now_tai t then (id, t) ∷ later else later

module _ {D : Type 0} where
  unfoldable pub new : ℕ → D → Class1Receiver D
  new owlt_secs disk = record { owlt_secs = owlt_secs; active = []; next_tx_id = 1; disk = disk }

  -- The table with the transaction in it, unless it is full.
  pub open_transaction : ℕ → Class1Receiver D → Option (Class1Receiver D)
  open_transaction id s = elim (lookup id s.active) [
    | some t ↦ some s
    | none ↦
        if leb cfdp_max_transactions (length s.active)
        then none
        else some (record s { active = insert id new_state s.active })
  ]

  pub put : ℕ → TransactionState → Class1Receiver D → Class1Receiver D
  put id t s = record s { active = insert id t s.active }

  module _ (files : Files D) where
    -- The bytes are counted once they are written.
    pub write_chunk :
        ℕ
        → ℕ
        → List ℕ
        → TransactionState
        → Class1Receiver D
        → Class1Receiver D × Result CfdpError (Unit {0})
    write_chunk id offset chunk t s =
        let (disk, done) = files.write_at id offset chunk s.disk in
        if done
        then (
          put id
              (record t {
                bytes_written = min (t.bytes_written + length chunk) 18446744073709551615;
              })
              (record s { disk = disk }),
          ok tt,
        )
        else (record s { disk = disk }, err io)

    pub on_file_data :
        ℕ → List ℕ → Class1Receiver D → Class1Receiver D × Result CfdpError (Unit {0})
    on_file_data id data_field s = elim (open_transaction id s) [
      | none ↦ (s, err capacity_exceeded)
      | some u ↦ elim (parse_file_data_pdu data_field) [
        | err e ↦ (u, err e)
        | ok (offset, chunk) ↦ elim (lookup id u.active) [
          | none ↦ (u, err capacity_exceeded)
          | some t ↦ write_chunk id offset chunk t u
        ]
      ]
    ]

    pub on_metadata : ℕ → List ℕ → Class1Receiver D → Class1Receiver D × Result CfdpError (Unit {0})
    on_metadata id data_field s = elim (open_transaction id s) [
      | none ↦ (s, err capacity_exceeded)
      | some u ↦ elim (parse_metadata_pdu files.is_utf8 data_field) [
        | err e ↦ (u, err e)
        | ok meta ↦ elim (lookup id u.active) [
          | none ↦ (u, err capacity_exceeded)
          | some t ↦ (put id (record t { metadata = some meta }) u, ok tt)
        ]
      ]
    ]

  pub on_eof : ℕ → List ℕ → Class1Receiver D → Class1Receiver D × Result CfdpError (Unit {0})
  on_eof id data_field s = elim (parse_eof_pdu data_field) [
    | err e ↦ (s, err e)
    | ok eof ↦ elim (lookup id s.active) [
      | none ↦ (s, err (unknown_transaction id))
      | some t ↦ (
        put id (record t { expected_crc = if eof.cond_code == 0 then some eof.crc32 else none }) s,
        ok tt,
      )
    ]
  ]

  module _ (files : Files D) where
    pub on_directive :
        ℕ → List ℕ → Class1Receiver D → Class1Receiver D × Result CfdpError (Unit {0})
    on_directive id [] s = (s, err parse)
    on_directive id (dir_code ∷ rest) s =
        if dir_code == dir_metadata
        then on_metadata files id (dir_code ∷ rest) s
        else if dir_code == dir_eof
        then on_eof id (dir_code ∷ rest) s
        else (s, ok tt)

    pub on_pdu : List ℕ → Class1Receiver D → Class1Receiver D × Result CfdpError (Unit {0})
    on_pdu pdu s = elim (decode_fixed_header pdu) [
      | err e ↦ (s, err e)
      | ok header ↦ elim (extract_transaction_id pdu header.entity_id_len header.seqnum_len) [
        | err e ↦ (s, err e)
        | ok id ↦
            if header.is_file_data
            then on_file_data files id (drop header.var_hdr_end pdu) s
            else on_directive id (drop header.var_hdr_end pdu) s
      ]
    ]

    pub finalize_state :
        ℕ
        → TransactionState
        → Class1Receiver D
        → Class1Receiver D × Result CfdpError TransactionOutcome
    finalize_state id t s = elim (files.file_crc32 id s.disk) [
      | none ↦ (s, err io)
      | some actual ↦
          if crc_fails actual t.expected_crc
          then (s, err (crc_mismatch id))
          else let (disk, done) = files.rename id (final_path id t) s.disk in
            if done
            then (record s { disk = disk }, ok (completed id (final_path id t) t.bytes_written))
            else (record s { disk = disk }, err io)
    ]

    pub finalize_transaction :
        ℕ → Class1Receiver D → Class1Receiver D × Result CfdpError TransactionOutcome
    finalize_transaction id s = elim (lookup id s.active) [
      | none ↦ (s, err (unknown_transaction id))
      | some t ↦ finalize_state id t (record s { active = remove id s.active })
    ]

  pub send_file : Class1Receiver D → Class1Receiver D × Result CfdpError ℕ
  send_file s = (record s { next_tx_id = s.next_tx_id + 1 }, ok s.next_tx_id)

  pub cancel : ℕ → Class1Receiver D → Class1Receiver D × Result CfdpError (Unit {0})
  cancel id s = elim (lookup id s.active) [
    | none ↦ (s, err (unknown_transaction id))
    | some t ↦ (record s { active = remove id s.active }, ok tt)
  ]

  pub abandon_all :
      Table TransactionState → Class1Receiver D → Class1Receiver D × List TransactionOutcome
  abandon_all [] s = (s, [])
  abandon_all ((id, t) ∷ rest) s =
      let (u, outcomes) = abandon_all rest (record s { active = remove id s.active }) in
      (u, abandoned id t.bytes_written ∷ outcomes)

  pub poll : Cuc → Class1Receiver D → Class1Receiver D × List TransactionOutcome
  poll now s = abandon_all (timed_out (timeout_secs s.owlt_secs) now.coarse s.active) s
