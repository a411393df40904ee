-- ===== src/MFile/Assembler/Delivery.antt =====
-- A file that is sent in chunks, in any order and with repetitions, from the first to the last.
use build_with_opus.Prelude.{
  ℕ, ◌≤◌, ◌<◌, ◌≡◌, refl, sym, ◌∙◌, Bool, true, false, ◌||◌, none, some, List, [], ◌∷◌, ok, length,
  ◌==◌, arith,
}
use mathlib.Core.Path.{subst}
use build_with_opus.Prelude.Table.{lookup, remove}
use build_with_opus.Prelude.OrderedTable as Ordered
use build_with_opus.Prelude.OrderedTable.{values, IsOrdered, lookup-insert}
use build_with_opus.MFile.Header.{Chunk, parse_chunk}
use build_with_opus.MFile.State.{
  FileName, complete_path, partial_path, Services, AssemblyOutcome, complete, abandoned, TxState,
  Assembler, Reply, reply, assembled,
}
use build_with_opus.MFile.Assembler.{
  release, write_then, persist, answered, capacity_overflows, finalize_tx, finalize,
  enforce_ram_cap, new_tx, open_tx, finished, on_parsed, on_chunk,
}
use build_with_opus.MFile.Assembler.Transaction.{elem, chunk_of, new_tx-Carries}
use build_with_opus.MFile.Assembler.Transfer.{
  sent, Phase, on_parsed-found, on_parsed-there, on_parsed-Phase,
}

-- The frames of a list of indices, one after the other.
pub deliver : Services → (ℕ → List ℕ) → List ℕ → Assembler → Assembler
deliver env frame [] s = s
deliver env frame (i ∷ later) s = deliver env frame later (on_chunk env (frame i) s).0

-- The chunks that came, the latest first.
abbrev pub came_after : List ℕ → List ℕ → List ℕ
came_after [] came = came
came_after (i ∷ later) came = came_after later (i ∷ came)

pub elem-came_after :
    (k : ℕ) (later came : List ℕ) → elem k (came_after later came) ≡ (elem k later || elem k came)
elem-came_after k [] came = refl
elem-came_after k (i ∷ later) came = ground (arith, elem-came_after k later (i ∷ came))

pub file_path : Bool → ℕ → FileName
file_path true id = complete_path id
file_path false id = partial_path id

pub file_outcome : Bool → ℕ → ℕ → AssemblyOutcome
file_outcome true id bytes = complete id (complete_path id) bytes
file_outcome false id bytes = abandoned id (partial_path id) 0

-- The disk, the table and the answer once a file is written under the name that its checksum decides.
pub record Written (fine : Bool) (id : ℕ) (file : List ℕ) (s : Assembler) (r : Assembler × Reply)
    : Type 0 where
  pub active : r.0.active ≡ remove id s.active
  pub disk : r.0.disk ≡ (file_path fine id, file) ∷ s.disk
  pub answer : r.1 ≡ reply (ok (some (file_outcome fine id (length file))))

persist-Written :
    (env : Services) (fine : Bool) (id : ℕ) (tx : TxState) (s : Assembler)
    → (env.crc32 (assembled tx) == tx.crc32_full_file) ≡ fine
    → env.write_ok (file_path fine id) (assembled tx) ≡ true
    → Written fine id (assembled tx) s (finished (answered (persist env id tx s)))
unfolding persist write_then release file_path file_outcome
persist-Written env true id tx s e w =
    rw (e, persist) (rw (w, write_then) (record { active = refl; disk = refl; answer = refl }))
persist-Written env false id tx s e w =
    rw (e, persist) (rw (w, write_then) (record { active = refl; disk = refl; answer = refl }))

pub finalize-Written :
    (env : Services) (fine : Bool) (id : ℕ) (tx : TxState) (s : Assembler)
    → lookup id s.active ≡ some tx
    → capacity_overflows tx ≡ false
    → (env.crc32 (assembled tx) == tx.crc32_full_file) ≡ fine
    → env.write_ok (file_path fine id) (assembled tx) ≡ true
    → Written fine id (assembled tx) s (finished (finalize env id s))
unfolding finalize finalize_tx
finalize-Written env fine id tx s there fits e w =
    rw (there, finalize) (rw (fits, finalize_tx) (persist-Written env fine id tx s e w))

module _ (env : Services) (piece : ℕ → List ℕ) (id size n crc : ℕ) where
  -- The transaction is open, or opening it is all that the next chunk does before it is received.
  pub record Ready (came : List ℕ) (disk : List (FileName × List ℕ)) (s : Assembler) : Type 0 where
    pub t : Assembler
    pub phase : Phase env piece id size n crc came disk t
    pub same :
        (i : ℕ)
        → on_parsed env (sent env piece id size n crc i) s
          ≡ on_parsed env (sent env piece id size n crc i) t

  open_tx-room :
      (c : Chunk) (s : Assembler)
      → lookup c.transaction_id s.active ≡ none
      → s.total_ram_bytes ≤ s.max_ram_bytes
      → open_tx env c s
        ≡ record s { active = Ordered.insert c.transaction_id (new_tx s.owlt_secs c) s.active }
  unfolding open_tx enforce_ram_cap
  open_tx-room c s e room = ground (arith, e)

  -- Before the first chunk, with room in memory.
  pub start-Ready :
      (s : Assembler)
      → size < 9223372036854775808
      → lookup id s.active ≡ none
      → s.total_ram_bytes ≤ s.max_ram_bytes
      → Ready [] s.disk s
  unfolding new_tx
  start-Ready s small free room =
      let chunk : ℕ → Chunk = sent env piece id size n crc in
      let tx = new_tx s.owlt_secs (chunk 0) in
      let t : Assembler = record s { active = Ordered.insert id tx s.active } in
      let there : lookup id t.active ≡ some tx = ground (arith, lookup-insert id id tx s.active) in
      record {
        t = t;
        phase = record {
          tx = tx;
          there = there;
          carries = new_tx-Carries piece s.owlt_secs id size n crc 0 small;
          same_disk = refl;
        };
        same = λ i.
            on_parsed-found env piece id size n crc (chunk i) tx s t
              (open_tx-room (chunk i) s free room) there
            ∙ sym (on_parsed-there env piece id size n crc (chunk i) tx t there);
      }

  Phase-Ready :
      (came : List ℕ) (disk : List (FileName × List ℕ)) (s : Assembler)
      → Phase env piece id size n crc came disk s
      → Ready came disk s
  Phase-Ready came disk s p = record { t = s; phase = p; same = λ i. refl }

  module _ (frame : ℕ → List ℕ)
      (parses : (i : ℕ)
        → i < n
        → parse_chunk env.crc32 (frame i) ≡ ok (chunk_of piece id size n crc i)) where
    pub on_chunk-frame :
        (i : ℕ) (s : Assembler)
        → i < n
        → on_chunk env (frame i) s ≡ on_parsed env (sent env piece id size n crc i) s
    unfolding on_chunk
    on_chunk-frame i s h = rw (parses i h, on_chunk) refl

    pub deliver-Ready :
        (later : List ℕ) (j : ℕ) (came : List ℕ) (disk : List (FileName × List ℕ)) (s : Assembler)
        → j < n
        → ((i : ℕ) → elem i later ≡ true → i < n)
        → elem j later ≡ false
        → elem j came ≡ false
        → Ready came disk s
        → Ready (came_after later came) disk (deliver env frame later s)
    unfolding deliver
    deliver-Ready [] j came disk s hj h miss miss' r = r
    deliver-Ready (i ∷ later) j came disk s hj h miss miss' r =
        let in_range : i < n = h i (ground arith) in
        let next : Phase env piece id size n crc (i ∷ came) disk
            (on_parsed env (sent env piece id size n crc i) r.t).0 =
          on_parsed-Phase env piece id size n crc i j came disk r.t in_range hj (ground arith)
            r.phase in
        let moved : Ready (i ∷ came) disk (on_chunk env (frame i) s).0 =
          subst (λ x. Ready (i ∷ came) disk x.0) (sym (on_chunk-frame i s in_range ∙ r.same i))
            (Phase-Ready _ disk _ next) in
        deliver-Ready later j (i ∷ came) disk (on_chunk env (frame i) s).0 hj
          (λ k e. h k (ground arith)) (ground arith) (ground arith) moved
