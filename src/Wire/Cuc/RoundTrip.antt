-- ===== src/Wire/Cuc/RoundTrip.antt =====
-- What the time code's encoder and decoder are to one another.
use build_with_opus.Prelude.{ℕ, ◌≡◌, refl, List, ◌∷◌, ◌++◌, ok, length, take, arith}
use build_with_opus.Prelude.Words.{IsBytes}
use build_with_opus.Wire.Cuc.{Cuc, IsValid, encode_be, decode_be}

pub length-encode_be : (t : Cuc) → length (encode_be t) ≡ 7
unfolding encode_be
length-encode_be t = refl

pub encode_be-IsBytes : (t : Cuc) → IsBytes (encode_be t)
unfolding encode_be
encode_be-IsBytes t = omega arith

pub decode_be-encode_be :
    (t : Cuc) (rest : List ℕ) → IsValid t → decode_be (encode_be t ++ rest) ≡ ok t
unfolding encode_be decode_be
decode_be-encode_be t rest v = ground arith

pub decode_be-eq-ok :
    (buf : List ℕ) (t : Cuc)
    → IsBytes buf
    → decode_be buf ≡ ok t
    → (take 7 buf ≡ encode_be t) × IsValid t
unfolding encode_be decode_be
decode_be-eq-ok (p ∷ c0 ∷ c1 ∷ c2 ∷ c3 ∷ f0 ∷ f1 ∷ rest) t b e = ground arith
decode_be-eq-ok _ t b e = cc
