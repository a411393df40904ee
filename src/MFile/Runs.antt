-- ===== src/MFile/Runs.antt =====
-- The reassembler's theorems at concrete transfers.
use build_with_opus.Prelude.{
  ℕ, zero, suc, ◌+◌, ◌/◌, ◌≤◌, ◌<◌, ◌≡◌, ◌↔◌, ◌⊎◌, refl, true, List, [], ◌∷◌, ok, length, arith,
}
use build_with_opus.Prelude.Table.{lookup}
use build_with_opus.Prelude.OrderedTable as Ordered
use build_with_opus.Prelude.OrderedTable.Totals.{AllValues}
use build_with_opus.MFile.Header.{
  Chunk, parse_chunk, payload_of, read_u16_be, read_u32_be, read_u64_be, u16_at, u32_at, u64_at,
}
use build_with_opus.MFile.State.{Services, TxState, Assembler, panic, new}
use build_with_opus.MFile.BitSet
use build_with_opus.MFile.Assembler.{on_chunk, on_parsed, poll, open_tx, enforce_ram_cap, new_tx}
use build_with_opus.MFile.Assembler.Account.{IsBalanced, new-IsBalanced}
use build_with_opus.MFile.Assembler.Reach.{start, chunk, polled, Reach-IsBalanced}
use build_with_opus.MFile.Assembler.Panic.{completes, on_parsed_panics}
use build_with_opus.MFile.Assembler.Deadline.{poll_by_epoch}
use build_with_opus.MFile.Assembler.Transaction.{chunk_of}
use build_with_opus.MFile.Assembler.Delivery.{deliver}
use build_with_opus.MFile.Assembler.Reassembly.{Finished, reassembly}

-- A checksum that is the length, and a disk that takes every file.
abbrev services : Services
services = record { crc32 = λ file. length file; write_ok = λ path file. true }

-- Piece i of the file is the byte i.
abbrev piece : ℕ → List ℕ
piece i = i ∷ []

abbrev frame : ℕ → List ℕ
frame i =
    0 ∷ 0 ∷ 0 ∷ 7 ∷ 0 ∷ 0 ∷ 0 ∷ 0 ∷ 0 ∷ 0 ∷ 0 ∷ 2 ∷ 0 ∷ 0 ∷ 0 ∷ 2 ∷ 0 ∷ 0 ∷ 0 ∷ 2 ∷ 0 ∷ 0 ∷ 0 ∷ i
    ∷ 0 ∷ 1 ∷ 0 ∷ 0 ∷ 0 ∷ 1 ∷ 0 ∷ 0 ∷ 0 ∷ 1 ∷ i ∷ []

parses : (i : ℕ) → i < 2 → parse_chunk services.crc32 (frame i) ≡ ok (chunk_of piece 7 2 2 2 i)
unfolding parse_chunk payload_of read_u16_be read_u32_be read_u64_be u16_at u32_at u64_at
parses zero h = refl
parses (suc zero) h = refl
parses (suc (suc i)) h = absurd (omega arith)

-- The second piece comes twice before the first one.
reassembly_example :
    Finished services piece 7 2 2 2 []
      (on_chunk services (frame 0) (deliver services frame (1 ∷ 1 ∷ []) (new 4 1)))
unfolding new lookup
reassembly_example =
    reassembly services piece 7 2 2 2 frame parses (1 ∷ 1 ∷ []) 0 (new 4 1) (omega arith)
      (λ i e. ground arith) refl (λ i h. ground arith) (omega arith) refl (omega arith) refl

Reach-IsBalanced_example :
    IsBalanced
      (poll services (record { coarse = 50; fine = 0 }) (on_chunk services (frame 1) (new 4 1)).0).0
Reach-IsBalanced_example =
    Reach-IsBalanced services _
      (polled (record { coarse = 50; fine = 0 }) _ (chunk (frame 1) _ (start 4 1)))

abbrev empty_file : Chunk
empty_file = chunk_of piece 7 0 0 0 0

abbrev opened : TxState
opened = new_tx 4 empty_file

on_parsed_panics_example :
    ((on_parsed services empty_file (new 4 1)).1 ≡ panic)
    ↔ (((0 + 63) / 64 ≤ 0 / 64) ⊎ ((completes 0 (BitSet.new 0) ≡ true) × (9223372036854775808 ≤ 0)))
unfolding new open_tx enforce_ram_cap lookup Ordered.insert new_tx
on_parsed_panics_example =
    on_parsed_panics services empty_file opened (new 4 1) (new-IsBalanced 4 1) refl

-- One piece of two came, with a light time of 4 seconds.
abbrev waiting : Assembler
waiting = record {
  owlt_secs = 4;
  max_ram_bytes = 1048576;
  active =
      (
        7,
        record {
          chunks = (1, piece 1) ∷ [];
          received = record { words = 2 ∷ []; len = 2; set_count = 1 };
          total_chunks = 2;
          total_size_bytes = 2;
          crc32_full_file = 2;
          timeout_tai_coarse = 40;
          in_flight_bytes = 1;
        },
      )
      ∷ [];
  total_ram_bytes = 1;
  dup_ok_total = 0;
  dup_mismatch_total = 0;
  disk = [];
}

waiting-IsBalanced : IsBalanced waiting
unfolding AllValues
waiting-IsBalanced = record {
  ordered = (tt, tt);
  account = refl;
  sound = (record { deadline = refl; sized = refl; covers = refl }, tt);
}

poll_by_epoch_example :
    let r = poll services (record { coarse = 41; fine = 0 }) waiting in
    (r.0.active ≡ []) × (r.0.total_ram_bytes ≡ 0)
poll_by_epoch_example =
    poll_by_epoch services (record { coarse = 41; fine = 0 }) waiting waiting-IsBalanced
