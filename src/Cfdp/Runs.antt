-- ===== src/Cfdp/Runs.antt =====
-- The theorems on the CFDP receiver at concrete transactions.
use build_with_opus.Prelude.{
  ℕ, ◌+◌, ◌-◌, ◌≡◌, ◌<◌, refl, Bool, true, false, ◌&&◌, some, none, List, [], ◌∷◌, ◌++◌, ok, length,
  leb, ltb, if◌then◌else◌, arith,
}
use build_with_opus.Prelude.Words.{u32_to_be}
use build_with_opus.Prelude.Table.{lookup}
use build_with_opus.Cfdp.Pdu.{
  parse_file_data_pdu, header_of, decode_fixed_header, extract_transaction_id, transaction_id,
  split_at_nul, parse_metadata_pdu, parse_eof_pdu, FileMetadata, Eof,
}
use build_with_opus.Cfdp.Class1.{
  Files, completed, bin_path, metadata_path, Class1Receiver, new, new_state, on_pdu, on_file_data,
  finalize_transaction, poll,
}
use build_with_opus.Cfdp.Class1.Reach.{IsBounded}
use build_with_opus.Cfdp.Class1.Reach.States.{start, pdu, Reach-IsBounded}
use build_with_opus.Cfdp.Class1.Reach.Poll.{poll_since_epoch}
use build_with_opus.Cfdp.Class1.Reach.Unchecked.{completes_unchecked}
use build_with_opus.Cfdp.Class1.Delivery.{slice, byte_or_zero, Storage, Carries}
use build_with_opus.Cfdp.Class1.Delivery.Segments.{covers, total, deliver}
use build_with_opus.Cfdp.Class1.Delivery.Whole.{finalize_transaction-deliver}

-- A disk that keeps the bytes in the order of the writes, and the length as its checksum.
abbrev files : Files (List ℕ)
files = record {
  is_utf8 = λ bytes. true;
  write_at = λ id offset chunk disk. (chunk, true);
  file_crc32 = λ id disk. some (length disk);
  rename = λ id path disk. ([], true);
}

-- A file data PDU of entity 1, sequence number 2, at offset 0 with two bytes.
abbrev file_data : List ℕ
file_data = 0x10 ∷ 0 ∷ 0 ∷ 0 ∷ 1 ∷ 2 ∷ 3 ∷ 0 ∷ 0 ∷ 0 ∷ 0 ∷ 8 ∷ 9 ∷ []

Reach-IsBounded_example : IsBounded (on_pdu files file_data (new 4 [])).0.active
Reach-IsBounded_example = Reach-IsBounded files _ (pdu file_data _ (start 4 []))

completes_unchecked_example :
    (finalize_transaction files 5
      (on_file_data files 5 (0 ∷ 0 ∷ 0 ∷ 0 ∷ 8 ∷ 9 ∷ []) (new 4 [])).0).1
    ≡ ok (completed 5 (bin_path 5) 2)
unfolding new lookup parse_file_data_pdu
completes_unchecked_example =
    completes_unchecked files 5 (0 ∷ 0 ∷ 0 ∷ 0 ∷ 8 ∷ 9 ∷ []) (8 ∷ 9 ∷ []) 0 2 (new 4 []) refl
      (omega arith) refl refl refl refl

-- One transaction with a light time of 4 seconds.
abbrev waiting : Class1Receiver (List ℕ)
waiting = record { owlt_secs = 4; active = (5, new_state) ∷ []; next_tx_id = 1; disk = [] }

waiting-IsBounded : IsBounded waiting.active
unfolding lookup
waiting-IsBounded = record {
  few = omega arith;
  distinct = (refl, tt);
  untimed = λ id t e. ground arith;
}

poll_since_epoch_example :
    let r = poll (record { coarse = 41; fine = 0 }) waiting in (r.0.active ≡ []) × (length r.1 ≡ 1)
poll_since_epoch_example =
    poll_since_epoch (record { coarse = 41; fine = 0 }) waiting waiting-IsBounded

-- A disk of one file, whether it is there, its size and its bytes, with the size as the checksum.
abbrev one_file : Files (Bool × ℕ × (ℕ → ℕ))
one_file = record {
  is_utf8 = λ bytes. true;
  write_at = λ id offset chunk d. (
    (
      true,
      (if leb (offset + length chunk) d.1 then d.1 else offset + length chunk),
      λ i.
          if leb offset i && ltb i (offset + length chunk)
          then byte_or_zero chunk (i - offset)
          else d.2 i,
    ),
    true,
  );
  file_crc32 = λ id d. if d.0 then some (length (slice d.2 0 d.1)) else none;
  rename = λ id path d. (d, true);
}

-- Entity 1, sequence number 2.
abbrev second : ℕ
second = 4294967298

abbrev storage : Storage one_file second
storage = record {
  exists = λ d. d.0;
  size = λ d. d.1;
  byte = λ i d. d.2 i;
  crc32 = length;
  writes = λ offset chunk d. refl;
  exists-write_at = λ offset chunk d. refl;
  size-write_at = λ offset chunk d h. refl;
  byte-write_at = λ offset chunk d i. refl;
  sums = λ d. refl;
  renames = λ path d. refl;
}

-- A PDU of the transaction with this first byte and this data field.
abbrev pdu_of : ℕ → List ℕ → List ℕ
pdu_of kind field = kind ∷ 0 ∷ 0 ∷ 0 ∷ 1 ∷ 2 ∷ 3 ∷ field

directive-Carries : (field : List ℕ) → Carries second false field (pdu_of 0 field)
unfolding decode_fixed_header header_of extract_transaction_id transaction_id
directive-Carries field = record {
  header = header_of 0 0;
  decoded = ground arith;
  extracted = ground arith;
  kind = refl;
  field = refl;
}

file_data-Carries : (field : List ℕ) → Carries second true field (pdu_of 16 field)
unfolding decode_fixed_header header_of extract_transaction_id transaction_id
file_data-Carries field = record {
  header = header_of 16 0;
  decoded = ground arith;
  extracted = ground arith;
  kind = refl;
  field = refl;
}

-- The file 10, 11, 12, named a, in two segments that overlap, the second one first.
abbrev ten_on : ℕ → ℕ
ten_on i = 10 + i

abbrev segment_pdu : ℕ × ℕ → List ℕ
segment_pdu segment = pdu_of 16 (u32_to_be segment.0 ++ slice ten_on segment.0 segment.1)

abbrev segments : List (ℕ × ℕ)
segments = (0, 2) ∷ (1, 2) ∷ []

abbrev named : List ℕ
named = 0 ∷ 0 ∷ 0 ∷ 0 ∷ 3 ∷ 0 ∷ 97 ∷ 0 ∷ []

abbrev ended : List ℕ
ended = 0 ∷ 0 ∷ 0 ∷ 0 ∷ 3 ∷ 0 ∷ 0 ∷ 0 ∷ 3 ∷ []

abbrev meta : FileMetadata
meta = record { dest_path = 97 ∷ []; file_size = 3 }

abbrev eof : Eof
eof = record { cond_code = 0; crc32 = 3; file_size = 3 }

parse-named : parse_metadata_pdu (λ bytes. true) (7 ∷ named) ≡ ok meta
unfolding parse_metadata_pdu split_at_nul
parse-named = refl

parse-ended : parse_eof_pdu (4 ∷ ended) ≡ ok eof
unfolding parse_eof_pdu
parse-ended = refl

all_covered : (i : ℕ) → i < 3 → covers i segments ≡ true
unfolding covers
all_covered i h = ground (arith, h)

abbrev idle_receiver : Class1Receiver (Bool × ℕ × (ℕ → ℕ))
idle_receiver = new 4 (false, 0, λ i. 0)

finalize_transaction-deliver_example :
    let announced = (on_pdu one_file (pdu_of 0 (7 ∷ named)) idle_receiver).0 in
    let arrived = deliver one_file second storage segment_pdu segments announced in
    let finished =
      finalize_transaction one_file second (on_pdu one_file (pdu_of 0 (4 ∷ ended)) arrived).0 in
    (slice arrived.disk.2 0 arrived.disk.1 ≡ 10 ∷ 11 ∷ 12 ∷ [])
    × (finished.1 ≡ ok (completed second (metadata_path (97 ∷ [])) 4))
    × (lookup second finished.0.active ≡ none)
unfolding slice total new lookup
finalize_transaction-deliver_example =
    finalize_transaction-deliver one_file second storage ten_on 3 meta segment_pdu
      (λ segment. file_data-Carries (u32_to_be segment.0 ++ slice ten_on segment.0 segment.1))
      segments named (pdu_of 0 (7 ∷ named)) ended (pdu_of 0 (4 ∷ ended)) eof idle_receiver
      (directive-Carries (7 ∷ named)) parse-named (directive-Carries (4 ∷ ended)) parse-ended refl
      (omega arith) all_covered (omega arith) (omega arith) refl (omega arith) refl
