-- ===== src/MFile/Assembler/Transfer.antt =====
-- One chunk of a file that comes while the file's transaction is open.
use build_with_opus.Prelude.{
  ℕ, ◌<◌, ◌≡◌, refl, ap, ◌∙◌, inl, inr, true, false, none, some, List, ◌∷◌, ok, Bool-cases, arith,
}
use build_with_opus.Prelude.Table.{lookup}
use build_with_opus.Prelude.OrderedTable.{lookup-insert}
use build_with_opus.MFile.Header.{Chunk}
use build_with_opus.MFile.State.{FileName, Services, TxState, Assembler, reply}
use build_with_opus.MFile.BitSet
use build_with_opus.MFile.BitSet.{BitSet}
use build_with_opus.MFile.BitSet.Laws.{Puts, is_set-eq-has, set_lem}
use build_with_opus.MFile.Assembler.{
  open_tx, count_duplicate, store_chunk, add_chunk, receive, on_parsed,
}
use build_with_opus.MFile.Assembler.Transaction.{
  elem, chunk_of, Carries, store_chunk-Carries, again-Carries, is_full-Carries,
}

module _ (env : Services) (piece : ℕ → List ℕ) (id size n crc : ℕ) where
  abbrev pub sent : ℕ → Chunk
  sent = chunk_of piece id size n crc

  -- The transaction is open with the chunks that came, and the disk is as it was.
  pub record Phase (came : List ℕ) (disk : List (FileName × List ℕ)) (s : Assembler) : Type 0 where
    pub tx : TxState
    pub there : lookup id s.active ≡ some tx
    pub carries : Carries piece n crc came tx
    pub same_disk : s.disk ≡ disk

  -- With the transaction open, step 3 does nothing.
  open_tx-there :
      (c : Chunk) (tx : TxState) (s : Assembler)
      → lookup c.transaction_id s.active ≡ some tx
      → open_tx env c s ≡ s
  unfolding open_tx
  open_tx-there c tx s e = rw (e, open_tx) refl

  pub on_parsed-found :
      (c : Chunk) (tx : TxState) (s t : Assembler)
      → open_tx env c s ≡ t
      → lookup c.transaction_id t.active ≡ some tx
      → on_parsed env c s ≡ receive env c tx t
  unfolding on_parsed
  on_parsed-found c tx s t opened e =
      rw (ap (λ u. lookup c.transaction_id u.active) opened ∙ e, on_parsed)
        (ap (receive env c tx) opened)

  pub on_parsed-there :
      (c : Chunk) (tx : TxState) (s : Assembler)
      → lookup c.transaction_id s.active ≡ some tx
      → on_parsed env c s ≡ receive env c tx s
  on_parsed-there c tx s e = on_parsed-found c tx s s (open_tx-there c tx s e) e

  module _ (i : ℕ) (came : List ℕ) (tx : TxState) (s : Assembler) (h : i < n)
      (c : Carries piece n crc came tx) where
    receive_again :
        elem i came ≡ true
        → receive env (sent i) tx s ≡ (count_duplicate (sent i) tx s, reply (ok none))
    unfolding receive
    receive_again e =
        rw
          (
            is_set-eq-has tx.received i c.counted.sized (omega (arith, c.covers)),
            c.bits i,
            e,
            receive,
          )
          refl

    pub receive_new :
        elem i came ≡ false
        → (received : BitSet) × (receive env (sent i) tx s ≡ add_chunk env (sent i) received tx s)
          × Puts tx.received i received
    unfolding receive
    receive_new e =
        let fits : i < tx.received.len = omega (arith, c.covers) in
        let (received, put, puts) = set_lem tx.received i c.counted.sized fits in
        (
          received,
          rw (is_set-eq-has tx.received i c.counted.sized fits, c.bits i, e, put, receive) refl,
          puts,
        )

  disk-count_duplicate :
      (c : Chunk) (tx : TxState) (s : Assembler)
      → ((count_duplicate c tx s).active ≡ s.active) × ((count_duplicate c tx s).disk ≡ s.disk)
  unfolding count_duplicate
  disk-count_duplicate c tx s = ground arith

  -- A bit set that misses a chunk is not full.
  not_full :
      (i j : ℕ) (came : List ℕ) (received : BitSet) (tx : TxState)
      → j < n
      → elem j (i ∷ came) ≡ false
      → Carries piece n crc (i ∷ came) (store_chunk (sent i) received tx)
      → BitSet.is_full received ≡ false
  unfolding store_chunk
  not_full i j came received tx h e c = elim (Bool-cases (BitSet.is_full received)) [
    | inl full ↦ absurd (
        let all =
          (is_full-Carries piece n crc (i ∷ came) (store_chunk (sent i) received tx) c).0 full in
        ground (arith, all j h, e))
    | inr partial ↦ partial
  ]

  -- One chunk that is not the last to come.
  module _ (i j : ℕ) (came : List ℕ) (disk : List (FileName × List ℕ)) (s : Assembler) where
    pub on_parsed-Phase :
        i < n
        → j < n
        → elem j (i ∷ came) ≡ false
        → Phase came disk s
        → Phase (i ∷ came) disk (on_parsed env (sent i) s).0
    unfolding add_chunk
    on_parsed-Phase hi hj missing p = elim (Bool-cases (elem i came)) [
      | inl again ↦
          rw
            (
              on_parsed-there (sent i) p.tx s p.there,
              receive_again i came p.tx s hi p.carries again,
            )
            (let same = disk-count_duplicate (sent i) p.tx s in
              record {
                tx = p.tx;
                there = ap (lookup id) same.0 ∙ p.there;
                carries = again-Carries piece n crc i came p.tx again p.carries;
                same_disk = same.1 ∙ p.same_disk;
              })
      | inr fresh ↦
          let (received, added, puts) = receive_new i came p.tx s hi p.carries fresh in
          let carries =
            store_chunk-Carries piece id size n crc i came received p.tx hi puts p.carries in
          rw
            (
              on_parsed-there (sent i) p.tx s p.there,
              added,
              not_full i j came received p.tx hj missing carries,
              add_chunk,
            )
            (record {
              tx = store_chunk (sent i) received p.tx;
              there =
                  ground (arith, lookup-insert id id (store_chunk (sent i) received p.tx) s.active);
              carries = carries;
              same_disk = p.same_disk;
            })
    ]
