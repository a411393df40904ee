-- ===== src/MFile/Assembler/Transaction.antt =====
-- One transaction whose chunks are those of one file: what it holds after some of them came.
use build_with_opus.Prelude.{
  ℕ, zero, suc, ◌+◌, ◌≤◌, ◌<◌, ◌≡◌, ◌↔◌, refl, sym, ◌∙◌, Bool, true, false, ◌||◌, none, some, List,
  [], ◌∷◌, ◌++◌, length, ◌==◌, if◌then◌else◌, arith,
}
use build_with_opus.Prelude.Table.{Table, lookup}
use build_with_opus.Prelude.OrderedTable.{IsOrdered, insert-IsOrdered, lookup-insert}
use build_with_opus.MFile.Header.{Chunk}
use build_with_opus.MFile.State.{TxState, assembled}
use build_with_opus.MFile.BitSet
use build_with_opus.MFile.BitSet.{BitSet}
use build_with_opus.MFile.BitSet.Laws.{has, Puts, has-new, len-new}
use build_with_opus.MFile.BitSet.Counting.{
  IsWellFormed, new-IsWellFormed, Puts-IsWellFormed, is_full_iff,
}
use build_with_opus.MFile.Assembler.{new_tx, store_chunk}
use build_with_opus.MFile.Assembler.Pieces.{pieces, concat-values}

abbrev pub elem : ℕ → List ℕ → Bool
elem i [] = false
elem i (j ∷ js) = i == j || elem i js

-- The pieces from, from + 1, …, n of them, one after the other.
abbrev pub contents : (ℕ → List ℕ) → ℕ → ℕ → List ℕ
contents piece from zero = []
contents piece from (suc n) = piece from ++ contents piece (suc from) n

module _ (piece : ℕ → List ℕ) where
  pieces-eq-contents :
      (t : Table (List ℕ)) (from n : ℕ)
      → ((i : ℕ) → from ≤ i → i < from + n → lookup i t ≡ some (piece i))
      → pieces t from n ≡ contents piece from n
  pieces-eq-contents t from zero h = refl
  pieces-eq-contents t from (suc n) h = ground (
    arith,
    h from (omega arith) (omega arith),
    pieces-eq-contents t (suc from) n (λ i a b. h i (omega arith) (omega arith)),
  )

  abbrev pub chunk_of : (id size n crc i : ℕ) → Chunk
  chunk_of id size n crc i = record {
    transaction_id = id;
    total_size_bytes = size;
    total_chunks = n;
    crc32_full_file = crc;
    chunk_index = i;
    chunk_len = length (piece i);
    payload = piece i;
  }

  -- The transaction has the chunks of the list, each with the bytes that were sent, and no other.
  pub record Carries (n crc : ℕ) (came : List ℕ) (tx : TxState) : Type 0 where
    pub counted : IsWellFormed tx.received
    pub covers : tx.received.len ≡ n
    pub checksum : tx.crc32_full_file ≡ crc
    pub reserves : tx.total_size_bytes < 9223372036854775808
    pub ordered : IsOrdered tx.chunks
    pub held : (i : ℕ) → lookup i tx.chunks ≡ (if elem i came then some (piece i) else none)
    pub bits : (i : ℕ) → has tx.received.words i ≡ elem i came
    pub in_range : (i : ℕ) → elem i came ≡ true → i < n

  pub new_tx-Carries :
      (owlt_secs id size n crc i : ℕ)
      → size < 9223372036854775808
      → Carries n crc [] (new_tx owlt_secs (chunk_of id size n crc i))
  unfolding new_tx lookup
  new_tx-Carries owlt_secs id size n crc i small = record {
    counted = new-IsWellFormed n;
    covers = len-new n;
    checksum = refl;
    reserves = small;
    ordered = tt;
    held = λ j. refl;
    bits = λ j. has-new n j;
    in_range = λ j e. cc e;
  }

  pub store_chunk-Carries :
      (id size n crc i : ℕ) (came : List ℕ) (received : BitSet) (tx : TxState)
      → i < n
      → Puts tx.received i received
      → Carries n crc came tx
      → Carries n crc (i ∷ came) (store_chunk (chunk_of id size n crc i) received tx)
  unfolding store_chunk
  store_chunk-Carries id size n crc i came received tx h p c = record {
    counted = Puts-IsWellFormed tx.received i received (omega (arith, c.covers)) c.counted p;
    covers = p.same_len ∙ c.covers;
    checksum = c.checksum;
    reserves = c.reserves;
    ordered = insert-IsOrdered i (piece i) tx.chunks c.ordered;
    held = λ j. ground (arith, lookup-insert i j (piece i) tx.chunks, c.held j);
    bits = λ j. ground (arith, p.bits j, c.bits j);
    in_range = λ j e. ground (arith, c.in_range j);
  }

  -- A chunk that comes again adds nothing.
  pub again-Carries :
      (n crc i : ℕ) (came : List ℕ) (tx : TxState)
      → elem i came ≡ true
      → Carries n crc came tx
      → Carries n crc (i ∷ came) tx
  again-Carries n crc i came tx e c = record {
    counted = c.counted;
    covers = c.covers;
    checksum = c.checksum;
    reserves = c.reserves;
    ordered = c.ordered;
    held = λ j. ground (arith, c.held j);
    bits = λ j. ground (arith, c.bits j);
    in_range = λ j f. ground (arith, c.in_range j);
  }

  -- The bit set is full exactly if every chunk came.
  pub is_full-Carries :
      (n crc : ℕ) (came : List ℕ) (tx : TxState)
      → Carries n crc came tx
      → (BitSet.is_full tx.received ≡ true) ↔ ((i : ℕ) → i < n → elem i came ≡ true)
  is_full-Carries n crc came tx c =
      let full = is_full_iff tx.received c.counted in
      (
        λ e i h. sym (c.bits i) ∙ full.0 e i (omega (arith, c.covers)),
        λ all. full.1 (λ i h. c.bits i ∙ all i (omega (arith, c.covers))),
      )

  -- The payloads of a transaction to which every chunk came are the file.
  pub assembled-Carries :
      (n crc : ℕ) (came : List ℕ) (tx : TxState)
      → Carries n crc came tx
      → ((i : ℕ) → i < n → elem i came ≡ true)
      → assembled tx ≡ contents piece 0 n
  assembled-Carries n crc came tx c all =
      concat-values n 0 tx.chunks c.ordered (record {
        range = λ i p e. (omega arith, ground (arith, c.held i, c.in_range i));
        all = λ i a b. (piece i, ground (arith, c.held i, all i));
      })
      ∙ pieces-eq-contents tx.chunks 0 n (λ i a b. ground (arith, c.held i, all i))
