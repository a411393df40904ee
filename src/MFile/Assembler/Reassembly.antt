-- ===== src/MFile/Assembler/Reassembly.antt =====
-- The last chunk of a file that is sent in chunks.
use build_with_opus.Prelude.{
  ℕ, ◌+◌, ◌≤◌, ◌<◌, ◌≡◌, refl, sym, ap, ◌∙◌, true, false, none, some, List, [], ◌∷◌, ok, length,
  ◌==◌, arith,
}
use mathlib.Core.Path.{subst}
use build_with_opus.Prelude.Table.{lookup, lookup-remove}
use build_with_opus.Prelude.OrderedTable as Ordered
use build_with_opus.Prelude.OrderedTable.{lookup-insert}
use build_with_opus.MFile.Header.{parse_chunk}
use build_with_opus.MFile.State.{FileName, Services, TxState, Assembler, Reply, reply, assembled}
use build_with_opus.MFile.BitSet
use build_with_opus.MFile.BitSet.{BitSet}
use build_with_opus.MFile.Assembler.{
  finalize, store_chunk, add_chunk, finished, on_parsed, on_chunk,
}
use build_with_opus.MFile.Assembler.Transaction.{
  elem, contents, chunk_of, Carries, store_chunk-Carries, is_full-Carries, assembled-Carries,
}
use build_with_opus.MFile.Assembler.Transfer.{sent, on_parsed-there, receive_new}
use build_with_opus.MFile.Assembler.Delivery.{
  deliver, came_after, elem-came_after, file_path, file_outcome, Written, finalize-Written, Ready,
  start-Ready, on_chunk-frame, deliver-Ready,
}

module _ (env : Services) (piece : ℕ → List ℕ) (id size n crc : ℕ) where
  -- What the last chunk leaves behind on a disk and in a table.
  pub Finished : List (FileName × List ℕ) → Assembler × Reply → Type 0
  Finished disk r =
      let file = contents piece 0 n in
      let fine = env.crc32 file == crc in
      (r.1 ≡ reply (ok (some (file_outcome fine id (length file)))))
      × (r.0.disk ≡ (file_path fine id, file) ∷ disk)
      × (lookup id r.0.active ≡ none)

  add_chunk-Finished :
      (j : ℕ) (came : List ℕ) (disk : List (FileName × List ℕ)) (received : BitSet) (tx : TxState)
      (t : Assembler)
      → Carries piece n crc (j ∷ came) (store_chunk (sent env piece id size n crc j) received tx)
      → t.disk ≡ disk
      → ((i : ℕ) → i < n → elem i (j ∷ came) ≡ true)
      → let file = contents piece 0 n in
        env.write_ok (file_path (env.crc32 file == crc) id) file ≡ true
        → Finished disk (add_chunk env (sent env piece id size n crc j) received tx t)
  unfolding Finished add_chunk
  add_chunk-Finished j came disk received tx t c same all w =
      let chunk = sent env piece id size n crc j in
      let tx' = store_chunk chunk received tx in
      let full : BitSet.is_full received ≡ true =
        unfold store_chunk in (is_full-Carries piece n crc (j ∷ came) tx' c).1 all in
      let whole : assembled tx' ≡ contents piece 0 n =
        assembled-Carries piece n crc (j ∷ came) tx' c all in
      let t' : Assembler = record t {
        active = Ordered.insert id tx' t.active;
        total_ram_bytes = t.total_ram_bytes + chunk.chunk_len;
      } in
      let there : lookup id t'.active ≡ some tx' =
        ground (arith, lookup-insert id id tx' t.active) in
      let fine = env.crc32 (contents piece 0 n) == crc in
      let written : Written fine id (contents piece 0 n) t' (finished (finalize env id t')) =
        subst (λ file. Written fine id file t' (finished (finalize env id t'))) whole
          (finalize-Written env fine id tx' t' there (ground (arith, c.reserves))
            (ap (λ file. env.crc32 file == tx'.crc32_full_file) whole
              ∙ ap (λ k. env.crc32 (contents piece 0 n) == k) c.checksum)
            (ap (λ file. env.write_ok (file_path fine id) file) whole ∙ w)) in
      rw (full, add_chunk)
        (
          written.answer,
          written.disk ∙ ap (λ old. (file_path fine id, contents piece 0 n) ∷ old) same,
          ap (lookup id) written.active ∙ ground (arith, lookup-remove id id t'.active),
        )

  last-Finished :
      (j : ℕ) (came : List ℕ) (disk : List (FileName × List ℕ)) (s : Assembler)
      → j < n
      → elem j came ≡ false
      → ((i : ℕ) → i < n → elem i (j ∷ came) ≡ true)
      → Ready env piece id size n crc came disk s
      → let file = contents piece 0 n in
        env.write_ok (file_path (env.crc32 file == crc) id) file ≡ true
        → Finished disk (on_parsed env (sent env piece id size n crc j) s)
  last-Finished j came disk s h missing all r w =
      let chunk = sent env piece id size n crc j in
      let p = r.phase in
      let (received, added, puts) =
        receive_new env piece id size n crc j came p.tx r.t h p.carries missing in
      let carries = store_chunk-Carries piece id size n crc j came received p.tx h puts p.carries in
      subst (Finished disk)
        (sym (r.same j ∙ on_parsed-there env piece id size n crc chunk p.tx r.t p.there ∙ added))
        (add_chunk-Finished j came disk received p.tx r.t carries p.same_disk all w)

  module _ (frame : ℕ → List ℕ)
      (parses : (i : ℕ)
        → i < n
        → parse_chunk env.crc32 (frame i) ≡ ok (chunk_of piece id size n crc i)) where
    -- A file of n pieces is sent in frames that the parser reads as its chunks. Whatever the order
    -- in which they arrive and however often some of them are repeated, the frame with which the
    -- last missing piece comes completes the transaction: the pieces are written to the disk in the
    -- order of their indices, as the complete file if their checksum is the one that was announced
    -- and as the partial file otherwise, the answer says so, and the transaction is closed. The
    -- transaction was not open before the first frame, the memory total was not above its cap then,
    -- the announced size is below 2^63 bytes, and the disk takes the file.
    pub reassembly :
        (later : List ℕ) (j : ℕ) (s : Assembler)
        → j < n
        → ((i : ℕ) → elem i later ≡ true → i < n)
        → elem j later ≡ false
        → ((i : ℕ) → i < n → elem i (j ∷ later) ≡ true)
        → size < 9223372036854775808
        → lookup id s.active ≡ none
        → s.total_ram_bytes ≤ s.max_ram_bytes
        → env.write_ok (file_path (env.crc32 (contents piece 0 n) == crc) id) (contents piece 0 n)
          ≡ true
        → Finished s.disk (on_chunk env (frame j) (deliver env frame later s))
    reassembly later j s h in_range missing all small free room w =
        let before = start-Ready env piece id size n crc s small free room in
        let ready =
          deliver-Ready env piece id size n crc frame parses later j [] s.disk s h in_range missing
            refl before in
        subst (Finished s.disk)
          (sym
            (on_chunk-frame env piece id size n crc frame parses j (deliver env frame later s) h))
          (last-Finished j (came_after later []) s.disk (deliver env frame later s) h
            (elem-came_after j later [] ∙ ground arith)
            (λ i k. ground (arith, all i k, elem-came_after i later [])) ready w)
