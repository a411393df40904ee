-- ===== src/Cfdp/Class1/Reach.antt =====
-- The states that the operations reach.
pub mod Poll
pub mod States
pub mod Unchecked
use mathlib.Core.Path.{subst}
use build_with_opus.Prelude.{
  ℕ, suc, ◌+◌, ◌-◌, ◌*◌, ◌≤◌, ◌<◌, ◌≡◌, refl, sym, ap, ◌∙◌, ◌⊎◌, inl, inr, Bool, true, false,
  Bool-cases, Option-cases, Option, none, some, List, [], ◌∷◌, Result, ok, err, length, leb, ltb,
  drop, ◌==◌, if◌then◌else◌, arith,
}
use build_with_opus.Prelude.Table.{Table, lookup, insert, remove, lookup-insert, lookup-remove}
use build_with_opus.Prelude.Table.Distinct.{
  IsDistinct, length-insert_absent, length-insert_present, insert-IsDistinct, remove-IsDistinct,
  length-remove,
}
use build_with_opus.Wire.Cuc.{Cuc}
use build_with_opus.Cfdp.Pdu.{
  CfdpError, FixedHeader, FileMetadata, Eof, decode_fixed_header, extract_transaction_id,
  parse_metadata_pdu, parse_eof_pdu, parse_file_data_pdu, dir_eof, dir_metadata,
}
use build_with_opus.Cfdp.Class1.{
  Files, TransactionOutcome, TransactionState, Class1Receiver, new, new_state,
  cfdp_max_transactions, open_transaction, put, write_chunk, on_file_data, on_metadata, on_eof,
  on_directive, on_pdu, crc_fails, final_path, finalize_state, finalize_transaction, send_file,
  cancel, timeout_secs, timed_out, abandon_all, poll,
}

-- At most 16 transactions, each once, and none with a time of its last PDU.
pub record IsBounded (active : Table TransactionState) : Type 0 where
  pub few : length active ≤ 16
  pub distinct : IsDistinct active
  pub untimed : (id : ℕ) (t : TransactionState) → lookup id active ≡ some t → t.last_pdu_tai ≡ 0

pub empty-IsBounded : IsBounded []
unfolding lookup
empty-IsBounded = record { few = omega arith; distinct = tt; untimed = λ id t e. cc e }

insert-IsBounded :
    (id : ℕ) (t u : TransactionState) (active : Table TransactionState)
    → lookup id active ≡ some u
    → t.last_pdu_tai ≡ 0
    → IsBounded active
    → IsBounded (insert id t active)
insert-IsBounded id t u active there untimed b = record {
  few = omega (arith, length-insert_present id t u active there, b.few);
  distinct = insert-IsDistinct id t active b.distinct;
  untimed = λ j v e. ground (arith, lookup-insert id j t active, e, untimed, b.untimed j v);
}

pub remove-IsBounded :
    (id : ℕ) (active : Table TransactionState) → IsBounded active → IsBounded (remove id active)
remove-IsBounded id active b = record {
  few = length-remove id active 16 b.few;
  distinct = remove-IsDistinct id active b.distinct;
  untimed = λ j v e. ground (arith, lookup-remove id j active, e, b.untimed j v);
}

add-IsBounded :
    (id : ℕ) (active : Table TransactionState)
    → lookup id active ≡ none
    → leb cfdp_max_transactions (length active) ≡ false
    → IsBounded active
    → IsBounded (insert id new_state active)
add-IsBounded id active absent room b = record {
  few = ground (arith, length-insert_absent id new_state active absent, room);
  distinct = insert-IsDistinct id new_state active b.distinct;
  untimed = λ j v e. ground (arith, lookup-insert id j new_state active, e, b.untimed j v);
}

Result-cases {ℓ} :
    {A : Type ℓ} (r : Result CfdpError A) → ((e : CfdpError) × (r ≡ err e)) ⊎ ((a : A) × (r ≡ ok a))
Result-cases (err e) = inl (e, refl)
Result-cases (ok a) = inr (a, refl)

module _ {D : Type 0} where
  open_transaction-IsBounded :
      (id : ℕ) (s u : Class1Receiver D)
      → open_transaction id s ≡ some u
      → IsBounded s.active
      → IsBounded u.active
  unfolding open_transaction
  open_transaction-IsBounded id s u e b = elim (Option-cases (lookup id s.active)) [
    | inr (t, there) ↦
        let same : s ≡ u = ground (arith, there, e) in
        subst (λ (r : Class1Receiver D). IsBounded r.active) same b
    | inl absent ↦ elim (Bool-cases (leb cfdp_max_transactions (length s.active))) [
      | inl full ↦ absurd (ground (arith, absent, full, e))
      | inr room ↦
          let same : record s { active = insert id new_state s.active } ≡ u =
            ground (arith, absent, room, e) in
          subst (λ (r : Class1Receiver D). IsBounded r.active) same
            (add-IsBounded id s.active absent room b)
    ]
  ]

  put-IsBounded :
      (id : ℕ) (t u : TransactionState) (s : Class1Receiver D)
      → lookup id s.active ≡ some u
      → t.last_pdu_tai ≡ u.last_pdu_tai
      → IsBounded s.active
      → IsBounded (put id t s).active
  unfolding put
  put-IsBounded id t u s there same b =
      insert-IsBounded id t u s.active there (same ∙ b.untimed id u there) b

  on_eof-IsBounded :
      (id : ℕ) (data_field : List ℕ) (s : Class1Receiver D)
      → IsBounded s.active
      → IsBounded (on_eof id data_field s).0.active
  unfolding on_eof
  on_eof-IsBounded id data_field s b = elim (Result-cases (parse_eof_pdu data_field)) [
    | inl (e, failed) ↦ rw (failed, on_eof) b
    | inr (eof, parsed) ↦
        rw (parsed, on_eof)
          (elim (Option-cases (lookup id s.active)) [
            | inl absent ↦ rw (absent, on_eof) b
            | inr (t, there) ↦ rw (there, on_eof) (put-IsBounded id _ t s there refl b)
          ])
  ]

  module _ (files : Files D) where
    write_chunk-IsBounded :
        (id offset : ℕ) (chunk : List ℕ) (t : TransactionState) (s : Class1Receiver D)
        → lookup id s.active ≡ some t
        → IsBounded s.active
        → IsBounded (write_chunk files id offset chunk t s).0.active
    unfolding write_chunk
    write_chunk-IsBounded id offset chunk t s there b =
        elim (Bool-cases ((files.write_at id offset chunk s.disk).1)) [
          | inl done ↦ rw (done, write_chunk) (put-IsBounded id _ t _ there refl b)
          | inr failed ↦ rw (failed, write_chunk) b
        ]

    on_file_data-IsBounded :
        (id : ℕ) (data_field : List ℕ) (s : Class1Receiver D)
        → IsBounded s.active
        → IsBounded (on_file_data files id data_field s).0.active
    unfolding on_file_data
    on_file_data-IsBounded id data_field s b = elim (Option-cases (open_transaction id s)) [
      | inl full ↦ rw (full, on_file_data) b
      | inr (u, opened) ↦
          let v = open_transaction-IsBounded id s u opened b in
          rw (opened, on_file_data)
            (elim (Result-cases (parse_file_data_pdu data_field)) [
              | inl (e, failed) ↦ rw (failed, on_file_data) v
              | inr ((offset, chunk), parsed) ↦
                  rw (parsed, on_file_data)
                    (elim (Option-cases (lookup id u.active)) [
                      | inl absent ↦ rw (absent, on_file_data) v
                      | inr (t, there) ↦
                          rw (there, on_file_data)
                            (write_chunk-IsBounded id offset chunk t u there v)
                    ])
            ])
    ]

    on_metadata-IsBounded :
        (id : ℕ) (data_field : List ℕ) (s : Class1Receiver D)
        → IsBounded s.active
        → IsBounded (on_metadata files id data_field s).0.active
    unfolding on_metadata
    on_metadata-IsBounded id data_field s b = elim (Option-cases (open_transaction id s)) [
      | inl full ↦ rw (full, on_metadata) b
      | inr (u, opened) ↦
          let v = open_transaction-IsBounded id s u opened b in
          rw (opened, on_metadata)
            (elim (Result-cases (parse_metadata_pdu files.is_utf8 data_field)) [
              | inl (e, failed) ↦ rw (failed, on_metadata) v
              | inr (meta, parsed) ↦
                  rw (parsed, on_metadata)
                    (elim (Option-cases (lookup id u.active)) [
                      | inl absent ↦ rw (absent, on_metadata) v
                      | inr (t, there) ↦
                          rw (there, on_metadata) (put-IsBounded id _ t u there refl v)
                    ])
            ])
    ]

    on_directive-IsBounded :
        (id : ℕ) (data_field : List ℕ) (s : Class1Receiver D)
        → IsBounded s.active
        → IsBounded (on_directive files id data_field s).0.active
    unfolding on_directive
    on_directive-IsBounded id [] s b = b
    on_directive-IsBounded id (code ∷ rest) s b = elim (Bool-cases (code == dir_metadata)) [
      | inl e ↦ rw (e, on_directive) (on_metadata-IsBounded id (code ∷ rest) s b)
      | inr e ↦
          rw (e, on_directive)
            (elim (Bool-cases (code == dir_eof)) [
              | inl f ↦ rw (f, on_directive) (on_eof-IsBounded id (code ∷ rest) s b)
              | inr f ↦ rw (f, on_directive) b
            ])
    ]

    pub on_pdu-IsBounded :
        (pdu : List ℕ) (s : Class1Receiver D)
        → IsBounded s.active
        → IsBounded (on_pdu files pdu s).0.active
    unfolding on_pdu
    on_pdu-IsBounded pdu s b = elim (Result-cases (decode_fixed_header pdu)) [
      | inl (e, failed) ↦ rw (failed, on_pdu) b
      | inr (header, decoded) ↦
          rw (decoded, on_pdu)
            (elim (Result-cases
              (extract_transaction_id pdu header.entity_id_len header.seqnum_len)) [
                | inl (e, failed) ↦ rw (failed, on_pdu) b
                | inr (id, found) ↦
                    rw (found, on_pdu)
                      (elim (Bool-cases header.is_file_data) [
                        | inl k ↦
                            rw (k, on_pdu)
                              (on_file_data-IsBounded id (drop header.var_hdr_end pdu) s b)
                        | inr k ↦
                            rw (k, on_pdu)
                              (on_directive-IsBounded id (drop header.var_hdr_end pdu) s b)
                      ])
              ])
    ]
