-- ===== src/MFile/Assembler/Account.antt =====
-- What every state of the reassembler has: the memory total is that of the open transactions, and
-- all of them carry the same deadline.
use build_with_opus.Prelude.{
  ℕ, ◌≡◌, refl, inl, inr, none, some, List, leb, ◌==◌, Bool-cases, Option-cases, arith,
}
use build_with_opus.Prelude.Table.{lookup}
use build_with_opus.Prelude.OrderedTable as Ordered
use build_with_opus.Prelude.OrderedTable.{IsOrdered, insert-IsOrdered}
use build_with_opus.Prelude.OrderedTable.Totals.{
  total, AllValues, total-insert, total-remove, remove-IsOrdered, AllValues-insert,
  AllValues-remove,
}
use build_with_opus.MFile.Header.{Chunk}
use build_with_opus.MFile.State.{
  FileName, Services, AssemblyOutcome, TxState, Assembler, new, assembled,
}
use build_with_opus.MFile.BitSet.Laws.{IsSized, new-IsSized, len-new}
use build_with_opus.MFile.Assembler.{
  oldest, release, write_then, persist, capacity_overflows, finalize_tx, finalize, abandon,
  enforce_ram_cap, timeout_of, new_tx, open_tx,
}

-- The deadline that the light time gives, and a bit set of the right size.
pub record IsSound (owlt_secs : ℕ) (tx : TxState) : Type 0 where
  pub deadline : tx.timeout_tai_coarse ≡ timeout_of owlt_secs
  pub sized : IsSized tx.received
  pub covers : tx.received.len ≡ tx.total_chunks

pub record IsBalanced (s : Assembler) : Type 0 where
  pub ordered : IsOrdered s.active
  pub account : s.total_ram_bytes ≡ total (λ tx. tx.in_flight_bytes) s.active
  pub sound : AllValues (IsSound s.owlt_secs) s.active

abbrev bytes_of : TxState → ℕ
bytes_of tx = tx.in_flight_bytes

pub new-IsBalanced : (owlt_secs max_ram_mb : ℕ) → IsBalanced (new owlt_secs max_ram_mb)
unfolding new AllValues
new-IsBalanced owlt_secs max_ram_mb = record { ordered = tt; account = refl; sound = tt }

pub release-IsBalanced :
    (id : ℕ) (tx : TxState) (s : Assembler)
    → lookup id s.active ≡ some tx
    → IsBalanced s
    → IsBalanced (release id tx s)
unfolding release
release-IsBalanced id tx s e inv = record {
  ordered = remove-IsOrdered id s.active inv.ordered;
  account = ground (arith, total-remove bytes_of id s.active inv.ordered, e, inv.account);
  sound = AllValues-remove (IsSound s.owlt_secs) id s.active inv.sound;
}

pub write_then-IsBalanced :
    (env : Services) (path : FileName) (contents : List ℕ) (outcome : AssemblyOutcome)
    (s : Assembler)
    → IsBalanced s
    → IsBalanced (write_then env path contents outcome s).0
unfolding write_then
write_then-IsBalanced env path contents outcome s inv =
    elim (Bool-cases (env.write_ok path contents)) [
      | inl e ↦ rw e (record { ordered = inv.ordered; account = inv.account; sound = inv.sound })
      | inr e ↦ rw e inv
    ]

persist-IsBalanced :
    (env : Services) (id : ℕ) (tx : TxState) (s : Assembler)
    → lookup id s.active ≡ some tx
    → IsBalanced s
    → IsBalanced (persist env id tx s).0
unfolding persist
persist-IsBalanced env id tx s e inv =
    let fine = release-IsBalanced id tx s e inv in
    elim (Bool-cases (env.crc32 (assembled tx) == tx.crc32_full_file)) [
      | inl h ↦ rw (h, persist) (write_then-IsBalanced env _ _ _ (release id tx s) fine)
      | inr h ↦ rw (h, persist) (write_then-IsBalanced env _ _ _ (release id tx s) fine)
    ]

finalize_tx-IsBalanced :
    (env : Services) (id : ℕ) (tx : TxState) (s : Assembler)
    → lookup id s.active ≡ some tx
    → IsBalanced s
    → IsBalanced (finalize_tx env id tx s).0
unfolding finalize_tx
finalize_tx-IsBalanced env id tx s e inv = elim (Bool-cases (capacity_overflows tx)) [
  | inl huge ↦ rw (huge, finalize_tx) (release-IsBalanced id tx s e inv)
  | inr fits ↦ rw (fits, finalize_tx) (persist-IsBalanced env id tx s e inv)
]

pub finalize-IsBalanced :
    (env : Services) (id : ℕ) (s : Assembler) → IsBalanced s → IsBalanced (finalize env id s).0
unfolding finalize
finalize-IsBalanced env id s inv = elim (Option-cases (lookup id s.active)) [
  | inl e ↦ rw (e, finalize) inv
  | inr (tx, e) ↦ rw (e, finalize) (finalize_tx-IsBalanced env id tx s e inv)
]

pub abandon-IsBalanced :
    (env : Services) (id : ℕ) (s : Assembler) → IsBalanced s → IsBalanced (abandon env id s).0
unfolding abandon
abandon-IsBalanced env id s inv = elim (Option-cases (lookup id s.active)) [
  | inl e ↦ rw (e, abandon) inv
  | inr (tx, e) ↦
      rw (e, abandon)
        (write_then-IsBalanced env _ _ _ (release id tx s) (release-IsBalanced id tx s e inv))
]

pub enforce_ram_cap-IsBalanced :
    (env : Services) (s : Assembler) → IsBalanced s → IsBalanced (enforce_ram_cap env s)
unfolding enforce_ram_cap
enforce_ram_cap-IsBalanced env s inv = elim (Bool-cases (leb s.total_ram_bytes s.max_ram_bytes)) [
  | inl e ↦ rw (e, enforce_ram_cap) inv
  | inr e ↦
      rw (e, enforce_ram_cap)
        (elim (Option-cases (oldest s.active)) [
          | inl none_left ↦ rw (none_left, enforce_ram_cap) inv
          | inr ((id, t), first) ↦ rw (first, enforce_ram_cap) (abandon-IsBalanced env id s inv)
        ])
]

opened-IsBalanced :
    (c : Chunk) (s : Assembler)
    → lookup c.transaction_id s.active ≡ none
    → IsBalanced s
    → IsBalanced
        (record s { active = Ordered.insert c.transaction_id (new_tx s.owlt_secs c) s.active })
unfolding new_tx
opened-IsBalanced c s e inv =
    let tx = new_tx s.owlt_secs c in
    record {
      ordered = insert-IsOrdered c.transaction_id tx s.active inv.ordered;
      account =
          ground
            (arith, total-insert bytes_of c.transaction_id tx s.active inv.ordered, e, inv.account);
      sound =
          AllValues-insert (IsSound s.owlt_secs) c.transaction_id tx s.active
            (record {
              deadline = refl;
              sized = new-IsSized c.total_chunks;
              covers = len-new c.total_chunks;
            })
            inv.sound;
    }

pub open_tx-IsBalanced :
    (env : Services) (c : Chunk) (s : Assembler) → IsBalanced s → IsBalanced (open_tx env c s)
unfolding open_tx
open_tx-IsBalanced env c s inv = elim (Option-cases (lookup c.transaction_id s.active)) [
  | inl e ↦ rw (e, open_tx) (enforce_ram_cap-IsBalanced env _ (opened-IsBalanced c s e inv))
  | inr (tx, e) ↦ rw (e, open_tx) inv
]
