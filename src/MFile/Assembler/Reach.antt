-- ===== src/MFile/Assembler/Reach.antt =====
-- The states that `new`, `on_chunk` and `poll` reach.
use build_with_opus.Prelude.{
  ℕ, ◌+◌, ◌≡◌, refl, ◌∙◌, ◌⊎◌, inl, inr, true, false, none, some, List, [], ◌∷◌, Option, Result, ok,
  err, Bool-cases, Option-cases, arith,
}
use build_with_opus.Prelude.Table.{lookup}
use build_with_opus.Prelude.OrderedTable as Ordered
use build_with_opus.Prelude.OrderedTable.{IsOrdered, insert-IsOrdered, lookup-insert}
use build_with_opus.Prelude.OrderedTable.Totals.{total-insert, AllValues-insert, AllValues-lookup}
use build_with_opus.Wire.Cuc.{Cuc}
use build_with_opus.MFile.Header.{MFileError, Chunk, parse_chunk}
use build_with_opus.MFile.State.{Services, AssemblyOutcome, TxState, Assembler, new}
use build_with_opus.MFile.BitSet
use build_with_opus.MFile.BitSet.{BitSet}
use build_with_opus.MFile.BitSet.Laws.{IsSized, set_same_size}
use build_with_opus.MFile.Assembler.{
  abandon, open_tx, count_duplicate, holds, store_chunk, add_chunk, finished, receive, on_parsed,
  on_chunk, abandon_all, poll,
}
use build_with_opus.MFile.Assembler.Account.{
  IsBalanced, IsSound, new-IsBalanced, finalize-IsBalanced, abandon-IsBalanced, open_tx-IsBalanced,
}

count_duplicate-IsBalanced :
    (c : Chunk) (tx : TxState) (s : Assembler) → IsBalanced s → IsBalanced (count_duplicate c tx s)
unfolding count_duplicate
count_duplicate-IsBalanced c tx s inv =
    elim (Bool-cases (holds c.payload (lookup c.chunk_index tx.chunks))) [
      | inl e ↦
          rw (e, count_duplicate)
            (record { ordered = inv.ordered; account = inv.account; sound = inv.sound })
      | inr e ↦
          rw (e, count_duplicate)
            (record { ordered = inv.ordered; account = inv.account; sound = inv.sound })
    ]

finished-IsBalanced :
    (r : Assembler × Option (Result MFileError AssemblyOutcome))
    → IsBalanced r.0
    → IsBalanced (finished r).0
finished-IsBalanced (s, none) inv = inv
finished-IsBalanced (s, some (ok outcome)) inv = inv
finished-IsBalanced (s, some (err e)) inv = inv

stored-IsBalanced :
    (c : Chunk) (received : BitSet) (tx : TxState) (s : Assembler)
    → lookup c.transaction_id s.active ≡ some tx
    → IsSized received
    → received.len ≡ tx.total_chunks
    → IsBalanced s
    → IsBalanced (record s {
      active = Ordered.insert c.transaction_id (store_chunk c received tx) s.active;
      total_ram_bytes = s.total_ram_bytes + c.chunk_len;
    })
unfolding store_chunk
stored-IsBalanced c received tx s e sized covers inv =
    let tx' = store_chunk c received tx in
    let before : IsSound s.owlt_secs tx =
      AllValues-lookup (IsSound s.owlt_secs) c.transaction_id tx s.active inv.sound e in
    record {
      ordered = insert-IsOrdered c.transaction_id tx' s.active inv.ordered;
      account = ground (
        arith,
        total-insert (λ t. t.in_flight_bytes) c.transaction_id tx' s.active inv.ordered,
        e,
        inv.account,
      );
      sound =
          AllValues-insert (IsSound s.owlt_secs) c.transaction_id tx' s.active
            (record { deadline = before.deadline; sized = sized; covers = covers }) inv.sound;
    }

add_chunk-IsBalanced :
    (env : Services) (c : Chunk) (received : BitSet) (tx : TxState) (s : Assembler)
    → lookup c.transaction_id s.active ≡ some tx
    → IsSized received
    → received.len ≡ tx.total_chunks
    → IsBalanced s
    → IsBalanced (add_chunk env c received tx s).0
unfolding add_chunk
add_chunk-IsBalanced env c received tx s e sized covers inv =
    let stored = stored-IsBalanced c received tx s e sized covers inv in
    elim (Bool-cases (BitSet.is_full received)) [
      | inl full ↦
          rw (full, add_chunk)
            (finished-IsBalanced _ (finalize-IsBalanced env c.transaction_id _ stored))
      | inr partial ↦ rw (partial, add_chunk) stored
    ]

receive-IsBalanced :
    (env : Services) (c : Chunk) (tx : TxState) (s : Assembler)
    → lookup c.transaction_id s.active ≡ some tx
    → IsBalanced s
    → IsBalanced (receive env c tx s).0
unfolding receive
receive-IsBalanced env c tx s e inv =
    let sound : IsSound s.owlt_secs tx =
      AllValues-lookup (IsSound s.owlt_secs) c.transaction_id tx s.active inv.sound e in
    elim (Option-cases (BitSet.is_set c.chunk_index tx.received)) [
      | inl out ↦ rw (out, receive) inv
      | inr (true, held) ↦ rw (held, receive) (count_duplicate-IsBalanced c tx s inv)
      | inr (false, clear) ↦
          rw (clear, receive)
            (elim (Option-cases (BitSet.set c.chunk_index tx.received)) [
              | inl out ↦ rw (out, receive) inv
              | inr ((received, fresh), put) ↦
                  let same = set_same_size tx.received received c.chunk_index fresh put in
                  rw (put, receive)
                    (add_chunk-IsBalanced env c received tx s e
                      (ground (arith, same.0, same.1, sound.sized)) (same.1 ∙ sound.covers) inv)
            ])
    ]

on_parsed-IsBalanced :
    (env : Services) (c : Chunk) (s : Assembler) → IsBalanced s → IsBalanced (on_parsed env c s).0
unfolding on_parsed
on_parsed-IsBalanced env c s inv =
    let t = open_tx env c s in
    let opened = open_tx-IsBalanced env c s inv in
    elim (Option-cases (lookup c.transaction_id t.active)) [
      | inl e ↦ rw (e, on_parsed) opened
      | inr (tx, e) ↦ rw (e, on_parsed) (receive-IsBalanced env c tx t e opened)
    ]

Result-cases :
    (r : Result MFileError Chunk) → ((e : MFileError) × (r ≡ err e)) ⊎ ((c : Chunk) × (r ≡ ok c))
Result-cases (err e) = inl (e, refl)
Result-cases (ok c) = inr (c, refl)

on_chunk-IsBalanced :
    (env : Services) (raw : List ℕ) (s : Assembler)
    → IsBalanced s
    → IsBalanced (on_chunk env raw s).0
unfolding on_chunk
on_chunk-IsBalanced env raw s inv = elim (Result-cases (parse_chunk env.crc32 raw)) [
  | inl (e, refused) ↦ rw (refused, on_chunk) inv
  | inr (c, accepted) ↦ rw (accepted, on_chunk) (on_parsed-IsBalanced env c s inv)
]

pub abandon_all-IsBalanced :
    (env : Services) (ids : List ℕ) (s : Assembler)
    → IsBalanced s
    → IsBalanced (abandon_all env ids s).0
unfolding abandon_all
abandon_all-IsBalanced env [] s inv = inv
abandon_all-IsBalanced env (id ∷ ids) s inv =
    abandon_all-IsBalanced env ids (abandon env id s).0 (abandon-IsBalanced env id s inv)

pub data Reach (env : Services) : Assembler → Type 0 where
  start : (owlt_secs max_ram_mb : ℕ) → Reach env (new owlt_secs max_ram_mb)
  chunk : (raw : List ℕ) (s : Assembler) → Reach env s → Reach env (on_chunk env raw s).0
  polled : (now : Cuc) (s : Assembler) → Reach env s → Reach env (poll env now s).0

-- In every state that new, on_chunk and poll reach, whatever bytes arrive and whichever files can
-- be written, the memory total is the sum of the bytes that the open transactions count, the
-- transactions are in the order of their distinct identifiers, and each has a bit set of the size
-- of its number of chunks and the deadline of ten light times.
pub Reach-IsBalanced : (env : Services) (s : Assembler) → Reach env s → IsBalanced s
unfolding poll
Reach-IsBalanced env _ (start owlt_secs max_ram_mb) = new-IsBalanced owlt_secs max_ram_mb
Reach-IsBalanced env _ (chunk raw s r) = on_chunk-IsBalanced env raw s (Reach-IsBalanced env s r)
Reach-IsBalanced env _ (polled now s r) = abandon_all-IsBalanced env _ s (Reach-IsBalanced env s r)
