-- ===== src/MFile/Assembler/Panic.antt =====
-- Which chunks make the reassembler panic.
use build_with_opus.Prelude.{
  ℕ, ◌+◌, ◌/◌, ◌≤◌, ◌≡◌, ◌↔◌, ◌⊎◌, refl, sym, ap, ◌∙◌, inl, inr, Bool, true, false, ◌&&◌, ◌||◌,
  Option, none, some, Result, ok, err, length, leb, leb→le, ltb, Bool-cases, Option-cases, arith,
}
use build_with_opus.Prelude.Table.{lookup}
use build_with_opus.Prelude.OrderedTable as Ordered
use build_with_opus.Prelude.OrderedTable.{lookup-insert}
use build_with_opus.Prelude.OrderedTable.Totals.{AllValues-lookup}
use build_with_opus.MFile.Header.{MFileError, Chunk}
use build_with_opus.MFile.State.{Services, AssemblyOutcome, TxState, Assembler, Reply, reply, panic}
use build_with_opus.MFile.BitSet
use build_with_opus.MFile.BitSet.{BitSet}
use build_with_opus.MFile.BitSet.Laws.{is_set-eq-none, set-eq-none}
use build_with_opus.MFile.Assembler.{
  open_tx, persist, answered, capacity_overflows, finalize_tx, finalize, store_chunk, add_chunk,
  finished, receive, on_parsed,
}
use build_with_opus.MFile.Assembler.Account.{IsBalanced, IsSound, open_tx-IsBalanced}

abbrev is_panic : Reply → Bool
is_panic (reply r) = false
is_panic panic = true

is_panic_iff : (r : Reply) → (r ≡ panic) ↔ (is_panic r ≡ true)
is_panic_iff (reply r) = (λ e. cc e, λ e. cc e)
is_panic_iff panic = (λ e. refl, λ e. refl)

answered-is_panic :
    (r : Assembler × Result MFileError AssemblyOutcome) → is_panic (finished (answered r)).1 ≡ false
answered-is_panic (s, ok outcome) = refl
answered-is_panic (s, err e) = refl

finalize_tx-is_panic :
    (env : Services) (id : ℕ) (tx : TxState) (s : Assembler)
    → is_panic (finished (finalize_tx env id tx s)).1 ≡ capacity_overflows tx
unfolding finalize_tx
finalize_tx-is_panic env id tx s = elim (Bool-cases (capacity_overflows tx)) [
  | inl huge ↦ rw (huge, finalize_tx) refl
  | inr fits ↦ rw (fits, finalize_tx) (answered-is_panic (persist env id tx s))
]

finalize-is_panic :
    (env : Services) (id : ℕ) (tx : TxState) (s : Assembler)
    → lookup id s.active ≡ some tx
    → is_panic (finished (finalize env id s)).1 ≡ capacity_overflows tx
unfolding finalize
finalize-is_panic env id tx s there = rw (there, finalize) (finalize_tx-is_panic env id tx s)

add_chunk-is_panic :
    (env : Services) (c : Chunk) (received : BitSet) (tx : TxState) (s : Assembler)
    → is_panic (add_chunk env c received tx s).1
      ≡ (BitSet.is_full received && capacity_overflows tx)
unfolding add_chunk store_chunk
add_chunk-is_panic env c received tx s = elim (Bool-cases (BitSet.is_full received)) [
  | inl full ↦
      let tx' = store_chunk c received tx in
      let t : Assembler = record s {
        active = Ordered.insert c.transaction_id tx' s.active;
        total_ram_bytes = s.total_ram_bytes + c.chunk_len;
      } in
      let there : lookup c.transaction_id t.active ≡ some tx' =
        ground (arith, lookup-insert c.transaction_id c.transaction_id tx' s.active) in
      rw (full, add_chunk) (finalize-is_panic env c.transaction_id tx' t there)
  | inr partial ↦ rw (partial, add_chunk) refl
]

abbrev is_last : Option Bool → Option (BitSet × Bool) → Bool
is_last (some false) (some (received, fresh)) = BitSet.is_full received
is_last _ _ = false

-- The index is new, and the bit set is full with it.
pub completes : ℕ → BitSet → Bool
completes i b = is_last (BitSet.is_set i b) (BitSet.set i b)

in_words :
    (b : BitSet) (i : ℕ) {x : Bool}
    → BitSet.is_set i b ≡ some x
    → leb (length b.words) (i / 64) ≡ false
in_words b i held = elim (Bool-cases (leb (length b.words) (i / 64))) [
  | inl out ↦
      let gone : BitSet.is_set i b ≡ none = (is_set-eq-none b i).1 (leb→le _ _ out) in
      absurd (cc (held, gone))
  | inr low ↦ low
]

receive-is_panic :
    (env : Services) (c : Chunk) (tx : TxState) (s : Assembler)
    → is_panic (receive env c tx s).1 ≡ (
        leb (length tx.received.words) (c.chunk_index / 64)
        || (completes c.chunk_index tx.received && capacity_overflows tx))
unfolding receive completes
receive-is_panic env c tx s =
    let i = c.chunk_index in
    let b = tx.received in
    elim (Option-cases (BitSet.is_set i b)) [
      | inl out ↦ rw (out, receive) (ground (arith, (is_set-eq-none b i).0 out))
      | inr (true, held) ↦ rw (held, receive) (rw (in_words b i held) refl)
      | inr (false, clear) ↦
          rw (clear, receive)
            (elim (Option-cases (BitSet.set i b)) [
              | inl out ↦ rw (out, receive) (ground (arith, (set-eq-none b i).0 out))
              | inr ((received, fresh), put) ↦
                  rw (put, receive)
                    (add_chunk-is_panic env c received tx s ∙ rw (in_words b i clear) refl)
            ])
    ]

either_iff :
    (m n : ℕ) (b : Bool) (size : ℕ)
    → ((leb m n || (b && ltb 9223372036854775807 size)) ≡ true)
      ↔ ((m ≤ n) ⊎ ((b ≡ true) × (9223372036854775808 ≤ size)))
either_iff m n b size = (
  λ e. elim (Bool-cases (leb m n)) [
    | inl k ↦ inl (leb→le m n k)
    | inr k ↦ inr (ground (arith, e, k), ground (arith, e, k))
  ],
  λ e. ground arith,
)

-- In a state that satisfies the invariant, a chunk of a transaction that is open once step 3 is
-- over makes on_chunk panic exactly in two cases: its index falls behind the last word of the bit
-- set, which is when the index divided by 64 is not below the number of chunks divided by 64 and
-- rounded up, or it is the last chunk that is missing and the announced size of the file is 2^63
-- bytes or more.
pub on_parsed_panics :
    (env : Services) (c : Chunk) (tx : TxState) (s : Assembler)
    → IsBalanced s
    → lookup c.transaction_id (open_tx env c s).active ≡ some tx
    → ((on_parsed env c s).1 ≡ panic) ↔ (
        ((tx.total_chunks + 63) / 64 ≤ c.chunk_index / 64)
        ⊎ ((completes c.chunk_index tx.received ≡ true)
            × (9223372036854775808 ≤ tx.total_size_bytes)))
unfolding on_parsed
on_parsed_panics env c tx s inv e =
    let t = open_tx env c s in
    let opened = open_tx-IsBalanced env c s inv in
    let sound : IsSound t.owlt_secs tx =
      AllValues-lookup (IsSound t.owlt_secs) c.transaction_id tx t.active opened.sound e in
    let size : length tx.received.words ≡ (tx.total_chunks + 63) / 64 =
      sound.sized ∙ ap (λ (n : ℕ). (n + 63) / 64) sound.covers in
    let panics = is_panic_iff (receive env c tx t).1 in
    let cases =
      either_iff (length tx.received.words) (c.chunk_index / 64)
        (completes c.chunk_index tx.received) tx.total_size_bytes in
    let same = receive-is_panic env c tx t in
    rw (e, on_parsed)
      (rw (← size) (λ p. cases.0 (sym same ∙ panics.0 p), λ h. panics.1 (same ∙ cases.1 h)))
