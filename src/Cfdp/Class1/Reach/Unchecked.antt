-- ===== src/Cfdp/Class1/Reach/Unchecked.antt =====
-- A transaction that is finalized before its end-of-file PDU came.
use build_with_opus.Prelude.{
  ℕ, ◌+◌, ◌<◌, ◌≡◌, refl, ap, ◌∙◌, true, none, some, List, ok, length, arith, min,
}
use build_with_opus.Prelude.Table.{lookup, insert, lookup-insert}
use build_with_opus.Cfdp.Pdu.{parse_file_data_pdu}
use build_with_opus.Cfdp.Class1.{
  Files, completed, bin_path, TransactionState, Class1Receiver, new_state, open_transaction, put,
  write_chunk, on_file_data, finalize_state, finalize_transaction,
}

module _ {D : Type 0} (files : Files D) (id : ℕ) where
  abbrev pub opened : Class1Receiver D → Class1Receiver D
  opened s = record s { active = insert id new_state s.active }

  abbrev written : List ℕ → TransactionState
  written chunk = record new_state { bytes_written = min (0 + length chunk) 18446744073709551615 }

  pub open_transaction-room :
      (s : Class1Receiver D)
      → lookup id s.active ≡ none
      → length s.active < 16
      → open_transaction id s ≡ some (opened s)
  unfolding open_transaction
  open_transaction-room s absent room = ground (arith, absent)

  first_chunk :
      (data_field chunk : List ℕ) (offset : ℕ) (s : Class1Receiver D)
      → lookup id s.active ≡ none
      → length s.active < 16
      → parse_file_data_pdu data_field ≡ ok (offset, chunk)
      → (files.write_at id offset chunk s.disk).1 ≡ true
      → (on_file_data files id data_field s).0
        ≡ put id
            (written chunk)
            (record (opened s) { disk = (files.write_at id offset chunk s.disk).0 })
  unfolding on_file_data write_chunk put
  first_chunk data_field chunk offset s absent room parsed done =
      let there : lookup id (opened s).active ≡ some new_state =
        ground (arith, lookup-insert id id new_state s.active) in
      rw (open_transaction-room s absent room, on_file_data)
        (rw (parsed, on_file_data) (rw (there, on_file_data) (rw (done, write_chunk) refl)))

  finalize_written :
      (chunk : List ℕ) (any_crc : ℕ) (s : Class1Receiver D)
      → lookup id s.active ≡ some (written chunk)
      → files.file_crc32 id s.disk ≡ some any_crc
      → (files.rename id (bin_path id) s.disk).1 ≡ true
      → (finalize_transaction files id s).1
        ≡ ok (completed id (bin_path id) (min (length chunk) 18446744073709551615))
  unfolding finalize_transaction finalize_state
  finalize_written chunk any_crc s there sum moved =
      rw (there, finalize_transaction)
        (rw (sum, finalize_state) (rw (moved, finalize_state) (ground arith)))

  -- The first file data PDU of a transaction and then finalize_transaction, with no end-of-file PDU
  -- between them, complete the file whatever its checksum is: the transaction was not open, the
  -- table had room, the data field of the PDU parses, and the disk does what it is asked for.
  pub completes_unchecked :
      (data_field chunk : List ℕ) (offset any_crc : ℕ) (s : Class1Receiver D)
      → lookup id s.active ≡ none
      → length s.active < 16
      → parse_file_data_pdu data_field ≡ ok (offset, chunk)
      → (files.write_at id offset chunk s.disk).1 ≡ true
      → files.file_crc32 id ((files.write_at id offset chunk s.disk).0) ≡ some any_crc
      → (files.rename id (bin_path id) ((files.write_at id offset chunk s.disk).0)).1 ≡ true
      → (finalize_transaction files id (on_file_data files id data_field s).0).1
        ≡ ok (completed id (bin_path id) (min (length chunk) 18446744073709551615))
  unfolding put
  completes_unchecked data_field chunk offset any_crc s absent room parsed done sum moved =
      let disk = (files.write_at id offset chunk s.disk).0 in
      let after = put id (written chunk) (record (opened s) { disk = disk }) in
      let there : lookup id after.active ≡ some (written chunk) =
        ground (arith, lookup-insert id id (written chunk) (opened s).active) in
      ap (λ u. (finalize_transaction files id u).1)
        (first_chunk data_field chunk offset s absent room parsed done)
      ∙ finalize_written chunk any_crc after there sum moved
