-- ===== src/Wire/Secondary/RoundTrip.antt =====
-- What the secondary header's encoder and decoder are to one another.
use build_with_opus.Prelude.{ℕ, ◌≡◌, refl, List, ◌∷◌, ◌++◌, ok, length, take, arith}
use build_with_opus.Prelude.Words.{IsBytes}
use build_with_opus.Wire.Cuc
use build_with_opus.Wire.FuncCode
use build_with_opus.Wire.InstanceId
use build_with_opus.Wire.Secondary.{SecondaryHeader, IsValid, encode, decode}

pub length-encode : (h : SecondaryHeader) → length (encode h) ≡ 10
unfolding encode Cuc.encode_be
length-encode h = refl

pub encode-IsBytes : (h : SecondaryHeader) → IsValid h → IsBytes (encode h)
unfolding encode Cuc.encode_be
encode-IsBytes h v = omega arith

pub decode-encode :
    (h : SecondaryHeader) (rest : List ℕ) → IsValid h → decode (encode h ++ rest) ≡ ok h
unfolding encode decode Cuc.encode_be Cuc.decode_be FuncCode.new InstanceId.new
decode-encode h rest v = ground arith

-- A buffer that is accepted begins with the encoding of the header that it decodes to, and every
-- field of that header is in range.
pub decode-eq-ok :
    (buf : List ℕ) (h : SecondaryHeader)
    → IsBytes buf
    → decode buf ≡ ok h
    → (take 10 buf ≡ encode h) × IsValid h
unfolding encode decode Cuc.encode_be Cuc.decode_be FuncCode.new InstanceId.new
decode-eq-ok (b0 ∷ b1 ∷ b2 ∷ b3 ∷ b4 ∷ b5 ∷ b6 ∷ b7 ∷ b8 ∷ b9 ∷ rest) h b e = ground arith
decode-eq-ok _ h b e = cc
