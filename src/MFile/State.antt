-- ===== src/MFile/State.antt =====
-- rust/ground_station/src/mfile/mod.rs: the data of the reassembler.
use build_with_opus.Prelude.{ℕ, ◌*◌, Bool, Option, List, [], ◌∷◌, ◌++◌, Result}
use build_with_opus.Prelude.Table.{Table}
use build_with_opus.Prelude.OrderedTable.{values}
use build_with_opus.MFile.BitSet.{BitSet}
use build_with_opus.MFile.Header.{MFileError}

abbrev pub mfile_timeout_owlt_mult : ℕ
mfile_timeout_owlt_mult = 10

-- `output_dir.join("<id>.bin")` and `output_dir.join("<id>.partial")`
pub data FileName : Type 0 where
  complete_path : ℕ → FileName
  partial_path : ℕ → FileName

-- What the program takes from outside: the checksum of the `crc` crate, and whether `fs::write`
-- succeeds.
pub record Services : Type 0 where
  pub crc32 : List ℕ → ℕ
  pub write_ok : FileName → List ℕ → Bool

pub data AssemblyOutcome : Type 0 where
  complete : (transaction_id : ℕ) (path : FileName) (bytes : ℕ) → AssemblyOutcome
  abandoned : (transaction_id : ℕ) (partial : FileName) (gap_count : ℕ) → AssemblyOutcome

pub record TxState : Type 0 where
  pub chunks : Table (List ℕ)
  pub received : BitSet
  pub total_chunks : ℕ
  pub total_size_bytes : ℕ
  pub crc32_full_file : ℕ
  pub timeout_tai_coarse : ℕ
  pub in_flight_bytes : ℕ

-- `disk` is the log of the files that were written, the latest first.
pub record Assembler : Type 0 where
  pub owlt_secs : ℕ
  pub max_ram_bytes : ℕ
  pub active : Table TxState
  pub total_ram_bytes : ℕ
  pub dup_ok_total : ℕ
  pub dup_mismatch_total : ℕ
  pub disk : List (FileName × List ℕ)

-- What `on_chunk` answers; `panic` is an index out of bounds in the bit set, or a capacity
-- that is too large.
pub data Reply : Type 0 where
  reply : Result MFileError (Option AssemblyOutcome) → Reply
  panic : Reply

-- `owlt_secs` is the light time's seconds as a u32.
unfoldable pub new : ℕ → ℕ → Assembler
new owlt_secs max_ram_mb = record {
  owlt_secs = owlt_secs;
  max_ram_bytes = max_ram_mb * 1024 * 1024;
  active = [];
  total_ram_bytes = 0;
  dup_ok_total = 0;
  dup_mismatch_total = 0;
  disk = [];
}

unfoldable pub concat : List (List ℕ) → List ℕ
concat [] = []
concat (chunk ∷ rest) = chunk ++ concat rest

-- The payloads in the order of their indices.
abbrev pub assembled : TxState → List ℕ
assembled tx = concat (values tx.chunks)
