-- ===== src/Wire/Packet/RoundTrip.antt =====
-- Packets and the buffers that they are read from.
use build_with_opus.Prelude.{
  ℕ, ◌+◌, ◌≤◌, ◌≡◌, sym, ap, ◌∙◌, List, ◌++◌, ok, length, length-append, drop, take-append-drop,
  drop-drop, drop-append, All-drop, arith,
}
use build_with_opus.Prelude.Words.{IsByte, IsBytes}
use build_with_opus.Wire.Primary
use build_with_opus.Wire.Primary.RoundTrip as P
use build_with_opus.Wire.Secondary
use build_with_opus.Wire.Secondary.RoundTrip as S
use build_with_opus.Wire.Packet.{SpacePacket, parse, total_len, bytes_of}

-- What holds of a packet that came from a buffer.
pub record IsValid (p : SpacePacket) : Type 0 where
  pub primary_valid : Primary.IsValid p.primary
  pub secondary_valid : Secondary.IsValid p.secondary
  pub declared : p.primary.data_length.raw + 7 ≡ total_len p

pub length-bytes_of : (p : SpacePacket) → length (bytes_of p) ≡ total_len p
unfolding total_len
length-bytes_of p = omega (
  arith,
  length-append (Primary.encode p.primary) (Secondary.encode p.secondary ++ p.user_data),
  length-append (Secondary.encode p.secondary) p.user_data,
  P.length-encode p.primary,
  S.length-encode p.secondary,
)

drop-bytes_of_primary :
    (p : SpacePacket) → drop 6 (bytes_of p) ≡ Secondary.encode p.secondary ++ p.user_data
drop-bytes_of_primary p =
    rw (P.length-encode p.primary) at
      (drop-append (Primary.encode p.primary) (Secondary.encode p.secondary ++ p.user_data))

drop-bytes_of : (p : SpacePacket) → drop 16 (bytes_of p) ≡ p.user_data
drop-bytes_of p =
    sym (drop-drop 10 6 (bytes_of p))
    ∙ ap (drop 10) (drop-bytes_of_primary p)
    ∙ (rw (S.length-encode p.secondary) at (drop-append (Secondary.encode p.secondary) p.user_data))

-- The parser reads back every packet whose fields are in range and whose length field is right.
pub parse-bytes_of : (p : SpacePacket) → IsValid p → parse (bytes_of p) ≡ ok p
unfolding parse total_len
parse-bytes_of p v = ground (
  arith,
  length-bytes_of p,
  v.declared,
  P.decode-encode p.primary (Secondary.encode p.secondary ++ p.user_data) v.primary_valid,
  drop-bytes_of_primary p,
  S.decode-encode p.secondary p.user_data v.secondary_valid,
  drop-bytes_of p,
)

pub parsed_parts :
    (buf : List ℕ) (p : SpacePacket)
    → parse buf ≡ ok p
    → (Primary.decode buf ≡ ok p.primary)
      × (Secondary.decode (drop 6 buf) ≡ ok p.secondary)
      × (p.user_data ≡ drop 16 buf)
      × (p.primary.data_length.raw + 7 ≡ length buf)
      × (16 ≤ length buf)
unfolding parse
parsed_parts buf p e = ground arith

-- A byte buffer that the parser accepts is the encoding of the packet that it answers, byte for
-- byte, and that packet is valid: its fields are in range and its length field is right.
pub parse-eq-ok :
    (buf : List ℕ) (p : SpacePacket)
    → IsBytes buf
    → parse buf ≡ ok p
    → (bytes_of p ≡ buf) × IsValid p
parse-eq-ok buf p b e =
    let (prim, sec, user, declared, long) = parsed_parts buf p e in
    let (front, primary_valid) = P.decode-eq-ok buf p.primary b prim in
    let (middle, secondary_valid) =
      S.decode-eq-ok (drop 6 buf) p.secondary (All-drop IsByte 6 buf b) sec in
    let whole : bytes_of p ≡ buf =
      rw (← front, ← middle, user, ← drop-drop 10 6 buf, take-append-drop)
        (take-append-drop 6 buf) in
    (
      whole,
      record {
        primary_valid = primary_valid;
        secondary_valid = secondary_valid;
        declared = declared ∙ ap length (sym whole) ∙ length-bytes_of p;
      },
    )
