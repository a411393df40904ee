-- ===== src/MFile/Assembler.antt =====
-- rust/ground_station/src/mfile/mod.rs: the operations of the reassembler.
pub mod Pieces
pub mod Account
pub mod Reach
pub mod Panic
pub mod Deadline
pub mod Transaction
pub mod Transfer
pub mod Delivery
pub mod Reassembly
use build_with_opus.Prelude.{
  ℕ, zero, suc, ◌+◌, ◌-◌, ◌*◌, min, Bool, true, false, ◌&&◌, Option, none, some, List, [], ◌∷◌,
  ◌++◌, Result, ok, err, length, leb, ltb, ◌==◌, if◌then◌else◌,
}
use build_with_opus.Prelude.Table.{Table, lookup, remove}
use build_with_opus.Prelude.OrderedTable as Ordered
use build_with_opus.Prelude.OrderedTable.{values}
use build_with_opus.Wire.Cuc.{Cuc}
use build_with_opus.MFile.BitSet
use build_with_opus.MFile.BitSet.{BitSet}
use build_with_opus.MFile.Header.{MFileError, too_short, io, Chunk, parse_chunk}
use build_with_opus.MFile.State.{
  mfile_timeout_owlt_mult, FileName, complete_path, partial_path, Services, AssemblyOutcome,
  complete, abandoned, TxState, Assembler, Reply, reply, panic, assembled,
}

-- The transaction leaves the table and its bytes the total.
pub release : ℕ → TxState → Assembler → Assembler
release id tx s = record s {
  active = remove id s.active;
  total_ram_bytes = s.total_ram_bytes - tx.in_flight_bytes;
}

-- `fs::write(path, data)?`, then the outcome.
pub write_then :
    Services
    → FileName
    → List ℕ
    → AssemblyOutcome
    → Assembler
    → Assembler × Result MFileError AssemblyOutcome
write_then env path contents outcome s =
    if env.write_ok path contents
    then (record s { disk = (path, contents) ∷ s.disk }, ok outcome)
    else (s, err io)

-- What `finalize` does with the file that it has put together.
persist : Services → ℕ → TxState → Assembler → Assembler × Result MFileError AssemblyOutcome
persist env id tx s =
    let contents = assembled tx in
    let t = release id tx s in
    if env.crc32 contents == tx.crc32_full_file
    then write_then env (complete_path id) contents
        (complete id (complete_path id) (length contents)) t
    else write_then env (partial_path id) contents (abandoned id (partial_path id) 0) t

-- `Vec::with_capacity` panics above `isize::MAX`; a usize has 64 bits, so that `try_from` keeps the
-- announced size. That there may be too little memory for less is left out.
abbrev pub capacity_overflows : TxState → Bool
capacity_overflows tx = ltb 9223372036854775807 tx.total_size_bytes

abbrev pub answered :
    Assembler × Result MFileError AssemblyOutcome
    → Assembler × Option (Result MFileError AssemblyOutcome)
answered (s, r) = (s, some r)

-- `none` is the panic.
finalize_tx :
    Services → ℕ → TxState → Assembler → Assembler × Option (Result MFileError AssemblyOutcome)
unfolding persist
finalize_tx env id tx s =
    if capacity_overflows tx then (release id tx s, none) else answered (persist env id tx s)

pub finalize : Services → ℕ → Assembler → Assembler × Option (Result MFileError AssemblyOutcome)
finalize env id s = elim (lookup id s.active) [
  | none ↦ (s, some (err too_short))
  | some tx ↦ finalize_tx env id tx s
]

-- The chunks that never came; the count of those received is at most the total.
abbrev pub gap_count : TxState → ℕ
gap_count tx = tx.total_chunks - tx.received.set_count

pub abandon : Services → ℕ → Assembler → Assembler × Result MFileError AssemblyOutcome
abandon env id s = elim (lookup id s.active) [
  | none ↦ (s, ok (abandoned id (partial_path id) 0))
  | some tx ↦
      write_then env (partial_path id) (assembled tx)
        (abandoned id (partial_path id) (gap_count tx)) (release id tx s)
]

-- `min_by_key` on the timeout: the first entry with the least one.
pub oldest : Table TxState → Option (ℕ × ℕ)
oldest [] = none
oldest ((id, tx) ∷ rest) = elim (oldest rest) [
  | none ↦ some (id, tx.timeout_tai_coarse)
  | some (j, t) ↦
      if leb tx.timeout_tai_coarse t then some (id, tx.timeout_tai_coarse) else some (j, t)
]

-- An error of `abandon` is only logged.
unfoldable pub enforce_ram_cap : Services → Assembler → Assembler
enforce_ram_cap env s =
    if leb s.total_ram_bytes s.max_ram_bytes
    then s
    else (elim (oldest s.active) [ none ↦ s | some (id, t) ↦ (abandon env id s).0 ])

-- `saturating_mul` on a u32
abbrev pub timeout_of : ℕ → ℕ
timeout_of owlt_secs = min (owlt_secs * mfile_timeout_owlt_mult) 4294967295

unfoldable pub new_tx : ℕ → Chunk → TxState
new_tx owlt_secs c = record {
  chunks = [];
  received = BitSet.new c.total_chunks;
  total_chunks = c.total_chunks;
  total_size_bytes = c.total_size_bytes;
  crc32_full_file = c.crc32_full_file;
  timeout_tai_coarse = timeout_of owlt_secs;
  in_flight_bytes = 0;
}

-- Step 3 of `on_chunk`.
unfoldable pub open_tx : Services → Chunk → Assembler → Assembler
open_tx env c s = elim (lookup c.transaction_id s.active) [
  | some tx ↦ s
  | none ↦
      enforce_ram_cap env
        (record s { active = Ordered.insert c.transaction_id (new_tx s.owlt_secs c) s.active })
]

pub same_bytes : List ℕ → List ℕ → Bool
same_bytes [] [] = true
same_bytes (a ∷ as') (b ∷ bs) = a == b && same_bytes as' bs
same_bytes _ _ = false

abbrev holds : List ℕ → Option (List ℕ) → Bool
holds payload none = false
holds payload (some chunk) = same_bytes chunk payload

-- Step 4: the counters for a chunk that was received before.
pub count_duplicate : Chunk → TxState → Assembler → Assembler
count_duplicate c tx s =
    if holds c.payload (lookup c.chunk_index tx.chunks)
    then record s { dup_ok_total = s.dup_ok_total + 1 }
    else record s { dup_mismatch_total = s.dup_mismatch_total + 1 }

-- Step 5: the transaction with the chunk in it, its bit set being `received`.
pub store_chunk : Chunk → BitSet → TxState → TxState
store_chunk c received tx = record tx {
  received = received;
  in_flight_bytes = tx.in_flight_bytes + c.chunk_len;
  chunks = Ordered.insert c.chunk_index c.payload tx.chunks;
}

abbrev finished : Assembler × Option (Result MFileError AssemblyOutcome) → Assembler × Reply
finished (s, none) = (s, panic)
finished (s, some (ok outcome)) = (s, reply (ok (some outcome)))
finished (s, some (err e)) = (s, reply (err e))

-- Steps 5 and 6.
pub add_chunk : Services → Chunk → BitSet → TxState → Assembler → Assembler × Reply
add_chunk env c received tx s =
    let tx' = store_chunk c received tx in
    let t = record s {
      active = Ordered.insert c.transaction_id tx' s.active;
      total_ram_bytes = s.total_ram_bytes + c.chunk_len;
    } in
    if BitSet.is_full received
    then finished (finalize env c.transaction_id t)
    else (t, reply (ok none))

-- Steps 4 to 6 on a transaction that is in the table.
pub receive : Services → Chunk → TxState → Assembler → Assembler × Reply
receive env c tx s = elim (BitSet.is_set c.chunk_index tx.received) [
  | none ↦ (s, panic)
  | some true ↦ (count_duplicate c tx s, reply (ok none))
  | some false ↦ elim (BitSet.set c.chunk_index tx.received) [
    | none ↦ (s, panic)
    | some (received, fresh) ↦ add_chunk env c received tx s
  ]
]

-- Steps 3 to 6; the transaction may have fallen to the cap on memory.
pub on_parsed : Services → Chunk → Assembler → Assembler × Reply
on_parsed env c s =
    let t = open_tx env c s in
    elim (lookup c.transaction_id t.active) [
      | none ↦ (t, reply (ok none))
      | some tx ↦ receive env c tx t
    ]

pub on_chunk : Services → List ℕ → Assembler → Assembler × Reply
on_chunk env raw s = elim (parse_chunk env.crc32 raw) [
  | err e ↦ (s, reply (err e))
  | ok c ↦ on_parsed env c s
]

timed_out : ℕ → Table TxState → List ℕ
timed_out now_coarse [] = []
timed_out now_coarse ((id, tx) ∷ rest) =
    let later = timed_out now_coarse rest in
    if ltb tx.timeout_tai_coarse now_coarse then id ∷ later else later

abbrev outcome_of : Result MFileError AssemblyOutcome → List AssemblyOutcome
outcome_of (ok outcome) = outcome ∷ []
outcome_of (err e) = []

-- The loop of `poll`: an outcome for each transaction whose file could be written.
pub abandon_all : Services → List ℕ → Assembler → Assembler × List AssemblyOutcome
abandon_all env [] s = (s, [])
abandon_all env (id ∷ ids) s =
    let (t, outcome) = abandon env id s in
    let (u, outcomes) = abandon_all env ids t in (u, outcome_of outcome ++ outcomes)

pub poll : Services → Cuc → Assembler → Assembler × List AssemblyOutcome
poll env now s = abandon_all env (timed_out now.coarse s.active) s
