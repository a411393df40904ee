-- ===== src/Wire/Primary/RoundTrip.antt =====
-- What the primary header's encoder and decoder are to one another.
use build_with_opus.Prelude.{
  ◌+◌, ◌*◌, ◌/◌, ◌%◌, ℕ, ◌≡◌, refl, List, [], ◌∷◌, ◌++◌, ok, length, take, arith,
}
use build_with_opus.Prelude.Words.{IsBytes}
use build_with_opus.Wire.PacketType
use build_with_opus.Wire.PacketType.{PacketType, tm, tc}
use build_with_opus.Wire.Primary.{
  PrimaryHeader, IsValid, encode, decode, pkt_id, pkt_seq, decode_head,
}
use build_with_opus.Wire.Primary.Fields.{
  pkt_id_sum, pkt_seq_sum, decoded_fields, decode_head-fields,
}

pub length-encode : (h : PrimaryHeader) → length (encode h) ≡ 6
unfolding encode
length-encode h = refl

pub encode-IsBytes : (h : PrimaryHeader) → IsBytes (encode h)
unfolding encode
encode-IsBytes h = omega arith

-- Decoding what was encoded gives back the header, whatever bytes follow it.
pub decode-encode :
    (h : PrimaryHeader) (rest : List ℕ) → IsValid h → decode (encode h ++ rest) ≡ ok h
unfolding encode decode PacketType.as_bit
decode-encode h rest v = ground (
  arith,
  pkt_id_sum h.packet_type h.apid.raw,
  pkt_seq_sum h.sequence_count.raw,
  decode_head-fields (pkt_id h.packet_type h.apid.raw / 256 % 256)
      (pkt_id h.packet_type h.apid.raw % 256) (pkt_seq h.sequence_count.raw / 256 % 256)
      (pkt_seq h.sequence_count.raw % 256) (h.data_length.raw / 256 % 256)
      (h.data_length.raw % 256),
)

-- What a successful decode says of the six bytes.
accepted_fields :
    (b0 b1 b2 b3 b4 b5 : ℕ) (h : PrimaryHeader)
    → decoded_fields b0 b1 b2 b3 b4 b5 ≡ ok h
    → (b0 / 32 * 2 + b0 / 8 % 2 ≡ 1)
      × (b2 / 64 ≡ 3)
      × (h.apid.raw ≡ b0 % 8 * 256 + b1)
      × (PacketType.as_bit h.packet_type ≡ b0 / 16 % 2)
      × (h.sequence_count.raw ≡ b2 % 64 * 256 + b3)
      × (h.data_length.raw ≡ b4 * 256 + b5)
unfolding PacketType.as_bit
accepted_fields b0 b1 b2 b3 b4 b5 h e = ground arith

accepted_head :
    (b0 b1 b2 b3 b4 b5 : ℕ) (h : PrimaryHeader)
    → IsBytes (b0 ∷ b1 ∷ b2 ∷ b3 ∷ b4 ∷ b5 ∷ [])
    → decode_head b0 b1 b2 b3 b4 b5 ≡ ok h
    → (b0 ∷ b1 ∷ b2 ∷ b3 ∷ b4 ∷ b5 ∷ [] ≡ encode h) × IsValid h
unfolding encode
accepted_head b0 b1 b2 b3 b4 b5 h b e =
    let f =
      accepted_fields b0 b1 b2 b3 b4 b5 h
        (rw (decode_head-fields b0 b1 b2 b3 b4 b5 b.0 b.1.0 b.1.1.0 b.1.1.1.0) at e) in
    ground (arith, f, pkt_id_sum h.packet_type h.apid.raw, pkt_seq_sum h.sequence_count.raw)

-- A buffer that is accepted begins with the encoding of the header that it decodes to, and every
-- field of that header is in range.
pub decode-eq-ok :
    (buf : List ℕ) (h : PrimaryHeader)
    → IsBytes buf
    → decode buf ≡ ok h
    → (take 6 buf ≡ encode h) × IsValid h
unfolding decode
decode-eq-ok (b0 ∷ b1 ∷ b2 ∷ b3 ∷ b4 ∷ b5 ∷ rest) h b e =
    accepted_head b0 b1 b2 b3 b4 b5 h (omega arith) e
decode-eq-ok _ h b e = cc
