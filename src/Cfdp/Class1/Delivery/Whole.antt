-- ===== src/Cfdp/Class1/Delivery/Whole.antt =====
-- What becomes of a file whose PDUs all arrive, in whatever order.
use mathlib.Core.Path.{subst}
use build_with_opus.Prelude.{
  ℕ, ◌≤◌, ◌<◌, ◌≡◌, refl, sym, ap, ◌∙◌, Bool, ◌||◌, ltb, true, false, Bool-cases, inl, inr, none,
  some, List, [], ◌∷◌, ◌++◌, All, ok, err, length, if◌then◌else◌, arith,
}
use build_with_opus.Prelude.Words.{u32_to_be}
use build_with_opus.Prelude.Table.{lookup, insert, remove, lookup-insert, lookup-remove}
use build_with_opus.Cfdp.Pdu.{
  io, FileMetadata, Eof, parse_metadata_pdu, parse_eof_pdu, dir_metadata, dir_eof,
}
use build_with_opus.Cfdp.Class1.{
  Files, Class1Receiver, new_state, put, on_metadata, on_eof, on_directive, on_pdu,
  finalize_transaction,
}
use build_with_opus.Cfdp.Class1.Reach.Unchecked.{opened, open_transaction-room}
use build_with_opus.Cfdp.Class1.Delivery.Segments.{
  covers, total, Fits, deliver, Going, deliver-Going,
}
use build_with_opus.Cfdp.Class1.Delivery.Complete.{
  slice-eq, full_size, total-positive, answer_for, answer_with, finalize_state-eq,
  finalize_state-missing,
}
use build_with_opus.Cfdp.Class1.Delivery.{slice, Storage, Carries, on_pdu-directive}

module _ {D : Type 0} (files : Files D) (id : ℕ) (storage : Storage files id) where
  open storage use {exists, size, byte}

  module _ (bytes : ℕ → ℕ) (n : ℕ) (meta : FileMetadata) where
    abbrev Ongoing : Bool → List (ℕ × ℕ) → Class1Receiver D → Type 0
    Ongoing = Going files id storage bytes n meta

    announced-Going :
        (data_field pdu : List ℕ) (s : Class1Receiver D)
        → Carries id false (dir_metadata ∷ data_field) pdu
        → parse_metadata_pdu files.is_utf8 (dir_metadata ∷ data_field) ≡ ok meta
        → lookup id s.active ≡ none
        → length s.active < 16
        → size s.disk ≡ 0
        → Ongoing (exists s.disk) [] (on_pdu files pdu s).0
    unfolding on_directive on_metadata put covers total
    announced-Going data_field pdu s c parsed absent room fresh =
        let named = record new_state { metadata = some meta } in
        let there : lookup id (opened files id s).active ≡ some new_state =
          ground (arith, lookup-insert id id new_state s.active) in
        let after = put id named (opened files id s) in
        let answered : (on_pdu files pdu s).0 ≡ after =
          ap (λ a. a.0) (on_pdu-directive files id _ pdu s c)
          ∙ rw (open_transaction-room files id s absent room, on_metadata)
              (rw (parsed, on_metadata) (rw (there, on_metadata) refl)) in
        let goes : Ongoing (exists s.disk) [] after = record {
          t = named;
          there = ground (arith, lookup-insert id id named (opened files id s).active);
          named = refl;
          counted = refl;
          made = ground arith;
          short = omega (arith, fresh);
          right = λ i e. cc e;
        } in
        subst (Ongoing (exists s.disk) []) (sym answered) goes

    -- The end-of-file PDU only notes the checksum.
    noted :
        (before : Bool) (seen : List (ℕ × ℕ)) (data_field pdu : List ℕ) (eof : Eof)
        (r : Class1Receiver D)
        → Carries id false (dir_eof ∷ data_field) pdu
        → parse_eof_pdu (dir_eof ∷ data_field) ≡ ok eof
        → eof.cond_code ≡ 0
        → (g : Ongoing before seen r)
        → (on_pdu files pdu r).0 ≡ put id (record g.t { expected_crc = some eof.crc32 }) r
    unfolding on_directive on_eof
    noted before seen data_field pdu eof r c parsed fine g =
        ap (λ a. a.0) (on_pdu-directive files id _ pdu r c)
        ∙ rw (parsed, on_eof) (rw (g.there, on_eof) (rw fine refl))

    -- All bytes are there once every position is covered.
    whole :
        (before : Bool) (segments : List (ℕ × ℕ)) (r : Class1Receiver D)
        → ((i : ℕ) → i < n → covers i segments ≡ true)
        → Ongoing before segments r
        → slice (λ i. byte i r.disk) 0 (size r.disk) ≡ slice bytes 0 n
    whole before segments r all g =
        ap (slice (λ i. byte i r.disk) 0)
          (full_size (size r.disk) n g.short (λ i h. (g.right i (all i h)).0))
        ∙ slice-eq (λ i. byte i r.disk) bytes 0 n (λ i h. (g.right i (all i (omega (arith, h)))).1)

    finalized :
        (before : Bool) (segments : List (ℕ × ℕ)) (crc : ℕ) (r : Class1Receiver D)
        → All (Fits n) segments
        → ((i : ℕ) → i < n → covers i segments ≡ true)
        → (g : Ongoing before segments r)
        → let ended = put id (record g.t { expected_crc = some crc }) r in
          ((finalize_transaction files id ended).1
            ≡ answer_with id meta
                (before || ltb 0 n)
                (storage.crc32 (slice bytes 0 n))
                crc
                (total segments))
          × (lookup id (finalize_transaction files id ended).0.active ≡ none)
    unfolding finalize_transaction put
    finalized before segments crc r fits all g =
        let t' = record g.t { expected_crc = some crc } in
        let left = remove id (insert id t' r.active) in
        let there : lookup id (insert id t' r.active) ≡ some t' =
          ground (arith, lookup-insert id id t' r.active) in
        let gone : lookup id left ≡ none =
          ground (arith, lookup-remove id id (insert id t' r.active)) in
        let made : exists r.disk ≡ before || ltb 0 n =
          g.made ∙ ap (λ b. before || b) (total-positive n segments fits all) in
        rw (there, finalize_transaction)
          (elim (Bool-cases (before || ltb 0 n)) [
            | inl e ↦
                let sum : files.file_crc32 id r.disk ≡ some (storage.crc32 (slice bytes 0 n)) =
                  storage.sums r.disk
                  ∙ rw (made ∙ e)
                      (ap (λ file. some (storage.crc32 file)) (whole before segments r all g)) in
                let (answered, kept) =
                  finalize_state-eq files id storage meta t' (record r { active = left })
                    (storage.crc32 (slice bytes 0 n)) crc sum refl g.named in
                rw e (
                  answered
                      ∙ ap (answer_for id meta (storage.crc32 (slice bytes 0 n)) crc) g.counted,
                  ap (lookup id) kept ∙ gone,
                )
            | inr e ↦
                let missing : files.file_crc32 id r.disk ≡ none =
                  storage.sums r.disk ∙ rw (made ∙ e) refl in
                let (answered, kept) =
                  finalize_state-missing files id t' (record r { active = left }) missing in
                rw e (answered, ap (lookup id) kept ∙ gone)
          ])

    -- A file of at most 2^32 bytes is announced by its metadata PDU, and its segments come in any
    -- order, some of them more than once and fewer than 2^64 bytes in all, until every byte has
    -- come, and then an end-of-file PDU that declares no error. The transaction was not open
    -- before, the table had room, the partial file was empty or not there, and the file system does
    -- what it should. Then the partial file holds exactly the bytes of the file;
    -- finalize_transaction completes it under the announced name if its checksum is that of the
    -- end-of-file PDU, and otherwise answers a checksum error; but a file of no bytes whose partial
    -- file was not there is answered with an I/O error, since no segment makes it. The transaction
    -- is closed in each case. The number of bytes that is reported is that of all segments,
    -- repeated ones included.
    pub finalize_transaction-deliver :
        (pdu : ℕ × ℕ → List ℕ)
        (pdus : (segment : ℕ × ℕ)
          → Carries id true (u32_to_be segment.0 ++ slice bytes segment.0 segment.1) (pdu segment))
        (segments : List (ℕ × ℕ)) (named announcement ended ending : List ℕ) (eof : Eof)
        (s : Class1Receiver D)
        → Carries id false (dir_metadata ∷ named) announcement
        → parse_metadata_pdu files.is_utf8 (dir_metadata ∷ named) ≡ ok meta
        → Carries id false (dir_eof ∷ ended) ending
        → parse_eof_pdu (dir_eof ∷ ended) ≡ ok eof
        → eof.cond_code ≡ 0
        → All (Fits n) segments
        → ((i : ℕ) → i < n → covers i segments ≡ true)
        → n ≤ 4294967296
        → total segments < 18446744073709551616
        → lookup id s.active ≡ none
        → length s.active < 16
        → size s.disk ≡ 0
        → let arrived = deliver files id storage pdu segments (on_pdu files announcement s).0 in
          let finished = finalize_transaction files id (on_pdu files ending arrived).0 in
          (slice (λ i. byte i arrived.disk) 0 (size arrived.disk) ≡ slice bytes 0 n)
          × (finished.1 ≡ (
              if exists s.disk || ltb 0 n
              then answer_for id meta (storage.crc32 (slice bytes 0 n)) eof.crc32 (total segments)
              else err io))
          × (lookup id finished.0.active ≡ none)
    finalize_transaction-deliver pdu pdus segments named announcement ended ending eof s announces
          parsed ends parsed_eof fine fits all small few absent room fresh =
        let start = announced-Going named announcement s announces parsed absent room fresh in
        let g =
          deliver-Going files id storage bytes n meta pdu pdus (exists s.disk) segments
            (on_pdu files announcement s).0 fits small few start in
        let arrived = deliver files id storage pdu segments (on_pdu files announcement s).0 in
        let closed =
          subst
            (λ (u : Class1Receiver D).
              let finished = finalize_transaction files id u in
              (finished.1
                ≡ answer_with id meta (exists s.disk || ltb 0 n) (storage.crc32 (slice bytes 0 n))
                    eof.crc32 (total segments))
              × (lookup id finished.0.active ≡ none))
            (sym (noted (exists s.disk) segments ended ending eof arrived ends parsed_eof fine g))
            (finalized (exists s.disk) segments eof.crc32 arrived fits all g) in
        (whole (exists s.disk) segments arrived all g, closed.0, closed.1)
