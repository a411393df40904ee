-- ===== src/Cfdp/Class1/Delivery/Complete.antt =====
-- When all bytes of a file have come, and what is answered for the transaction then.
use build_with_opus.Prelude.{
  ℕ, zero, suc, ◌+◌, ◌≤◌, ◌<◌, ◌≡◌, refl, ap, ◌∙◌, Bool, ltb, ltb→lt, true, Bool-cases, inl, inr,
  none, some, List, [], ◌∷◌, All, Result, ok, err, ◌==◌, if◌then◌else◌, arith,
}
use build_with_opus.Cfdp.Pdu.{CfdpError, io, crc_mismatch, FileMetadata}
use build_with_opus.Cfdp.Class1.{
  Files, TransactionState, Class1Receiver, TransactionOutcome, completed, metadata_path,
  finalize_state,
}
use build_with_opus.Cfdp.Class1.Delivery.Segments.{covers, total, Fits}
use build_with_opus.Cfdp.Class1.Delivery.{slice, Storage}

pub slice-eq :
    (f g : ℕ → ℕ) (first n : ℕ)
    → ((i : ℕ) → i < first + n → f i ≡ g i)
    → slice f first n ≡ slice g first n
unfolding slice
slice-eq f g first zero h = refl
slice-eq f g first (suc n) h =
    ap (λ b. b ∷ slice f (suc first) n) (h first (omega arith))
    ∙ ap (λ later. g first ∷ later) (slice-eq f g (suc first) n (λ i k. h i (omega (arith, k))))

pub full_size : (k m : ℕ) → k ≤ m → ((i : ℕ) → i < m → i < k) → k ≡ m
full_size k zero h all = omega (arith, h)
full_size k (suc m) h all = omega (arith, h, all m (omega arith))

-- There is a segment exactly where there is a byte.
pub total-positive :
    (n : ℕ) (segments : List (ℕ × ℕ))
    → All (Fits n) segments
    → ((i : ℕ) → i < n → covers i segments ≡ true)
    → ltb 0 (total segments) ≡ ltb 0 n
unfolding total covers
total-positive n [] fits all = elim (Bool-cases (ltb 0 n)) [
  | inl e ↦ cc (all 0 (ltb→lt 0 n e))
  | inr e ↦ ground (arith, e)
]
total-positive n ((offset, len) ∷ older) fits all = ground (arith, fits.0.0, fits.0.1)

module _ (id : ℕ) (meta : FileMetadata) where
  abbrev pub answer_for : ℕ → ℕ → ℕ → Result CfdpError TransactionOutcome
  answer_for actual crc counted =
      if actual == crc
      then ok (completed id (metadata_path meta.dest_path) counted)
      else err (crc_mismatch id)

  -- What is answered where the partial file is there, and where it is not.
  abbrev pub answer_with : Bool → ℕ → ℕ → ℕ → Result CfdpError TransactionOutcome
  answer_with there actual crc counted = if there then answer_for actual crc counted else err io

module _ {D : Type 0} (files : Files D) (id : ℕ) where
  pub finalize_state-missing :
      (t : TransactionState) (s : Class1Receiver D)
      → files.file_crc32 id s.disk ≡ none
      → ((finalize_state files id t s).1 ≡ err io)
        × ((finalize_state files id t s).0.active ≡ s.active)
  unfolding finalize_state
  finalize_state-missing t s missing = rw (missing, finalize_state) (refl, refl)

  pub finalize_state-eq :
      (storage : Storage files id) (meta : FileMetadata) (t : TransactionState)
      (s : Class1Receiver D) (actual crc : ℕ)
      → files.file_crc32 id s.disk ≡ some actual
      → t.expected_crc ≡ some crc
      → t.metadata ≡ some meta
      → ((finalize_state files id t s).1 ≡ answer_for id meta actual crc t.bytes_written)
        × ((finalize_state files id t s).0.active ≡ s.active)
  unfolding finalize_state
  finalize_state-eq storage meta t s actual crc sum expected named =
      let moved = storage.renames (metadata_path meta.dest_path) s.disk in
      elim (Bool-cases (actual == crc)) [
        | inl e ↦
            rw (sum, finalize_state)
              (rw (expected, finalize_state)
                (rw (e, finalize_state)
                  (rw (named, finalize_state) (rw (moved, finalize_state) (refl, refl)))))
        | inr e ↦
            rw (sum, finalize_state)
              (rw (expected, finalize_state) (rw (e, finalize_state) (refl, refl)))
      ]
