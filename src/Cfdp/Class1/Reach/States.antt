-- ===== src/Cfdp/Class1/Reach/States.antt =====
-- The invariant in every state that a sequence of calls reaches.
use build_with_opus.Prelude.{ℕ, ◌≡◌, refl, inl, inr, Bool-cases, Option-cases, List}
use build_with_opus.Prelude.Table.{lookup, remove}
use build_with_opus.Wire.Cuc.{Cuc}
use build_with_opus.Cfdp.Class1.{
  Files, TransactionState, Class1Receiver, new, on_pdu, crc_fails, final_path, finalize_state,
  finalize_transaction, send_file, cancel, poll,
}
use build_with_opus.Cfdp.Class1.Reach.{
  IsBounded, empty-IsBounded, remove-IsBounded, on_pdu-IsBounded,
}
use build_with_opus.Cfdp.Class1.Reach.Poll.{abandon_all-IsBounded}

module _ {D : Type 0} (files : Files D) where
  active-finalize_state :
      (id : ℕ) (t : TransactionState) (s : Class1Receiver D)
      → (finalize_state files id t s).0.active ≡ s.active
  unfolding finalize_state
  active-finalize_state id t s = elim (Option-cases (files.file_crc32 id s.disk)) [
    | inl unreadable ↦ rw (unreadable, finalize_state) refl
    | inr (actual, sum) ↦
        rw (sum, finalize_state)
          (elim (Bool-cases (crc_fails actual t.expected_crc)) [
            | inl e ↦ rw (e, finalize_state) refl
            | inr e ↦
                rw (e, finalize_state)
                  (elim (Bool-cases ((files.rename id (final_path id t) s.disk).1)) [
                    | inl done ↦ rw (done, finalize_state) refl
                    | inr failed ↦ rw (failed, finalize_state) refl
                  ])
          ])
  ]

  finalize_transaction-IsBounded :
      (id : ℕ) (s : Class1Receiver D)
      → IsBounded s.active
      → IsBounded (finalize_transaction files id s).0.active
  unfolding finalize_transaction
  finalize_transaction-IsBounded id s b = elim (Option-cases (lookup id s.active)) [
    | inl absent ↦ rw (absent, finalize_transaction) b
    | inr (t, there) ↦
        rw (there, finalize_transaction)
          (rw (active-finalize_state id t (record s { active = remove id s.active }))
            (remove-IsBounded id s.active b))
  ]

  cancel-IsBounded :
      (id : ℕ) (s : Class1Receiver D) → IsBounded s.active → IsBounded (cancel id s).0.active
  unfolding cancel
  cancel-IsBounded id s b = elim (Option-cases (lookup id s.active)) [
    | inl absent ↦ rw (absent, cancel) b
    | inr (t, there) ↦ rw (there, cancel) (remove-IsBounded id s.active b)
  ]

  pub data Reach : Class1Receiver D → Type 0 where
    start : (owlt_secs : ℕ) (disk : D) → Reach (new owlt_secs disk)
    pdu : (bytes : List ℕ) (s : Class1Receiver D) → Reach s → Reach (on_pdu files bytes s).0
    finalized :
        (id : ℕ) (s : Class1Receiver D) → Reach s → Reach (finalize_transaction files id s).0
    sent : (s : Class1Receiver D) → Reach s → Reach (send_file s).0
    cancelled : (id : ℕ) (s : Class1Receiver D) → Reach s → Reach (cancel id s).0
    polled : (now : Cuc) (s : Class1Receiver D) → Reach s → Reach (poll now s).0

  -- In every state that new, on_pdu, finalize_transaction, send_file, cancel and poll reach,
  -- whatever bytes arrive and whatever the files do, at most 16 transactions are open, each of them
  -- once, and the time of the last PDU of each is still 0.
  pub Reach-IsBounded : (s : Class1Receiver D) → Reach s → IsBounded s.active
  unfolding new send_file poll
  Reach-IsBounded _ (start owlt_secs disk) = empty-IsBounded
  Reach-IsBounded _ (pdu bytes s r) = on_pdu-IsBounded files bytes s (Reach-IsBounded s r)
  Reach-IsBounded _ (finalized id s r) = finalize_transaction-IsBounded id s (Reach-IsBounded s r)
  Reach-IsBounded _ (sent s r) = Reach-IsBounded s r
  Reach-IsBounded _ (cancelled id s r) = cancel-IsBounded id s (Reach-IsBounded s r)
  Reach-IsBounded _ (polled now s r) = abandon_all-IsBounded _ s (Reach-IsBounded s r)
