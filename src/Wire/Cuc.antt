-- ===== src/Wire/Cuc.antt =====
-- rust/ccsds_wire/src/cuc.rs: the 7-byte CUC time code.
pub mod RoundTrip
use build_with_opus.Prelude.{ℕ, ◌<◌, List, [], ◌∷◌, ◌++◌, ok, err, length, ◌>>◌, guard, ◌==◌}
use build_with_opus.Prelude.Words.{u16_from_be, u16_to_be, u32_from_be, u32_to_be}
use build_with_opus.Wire.Error.{Decoded, buffer_too_short, invalid_p_field}

pub record Cuc : Type 0 where
  pub coarse : ℕ  -- u32
  pub fine : ℕ  -- u16

abbrev pub p_field : ℕ
p_field = 0x2F

abbrev pub encoded_len : ℕ
encoded_len = 7

unfoldable pub encode_be : Cuc → List ℕ
encode_be t = p_field ∷ u32_to_be t.coarse ++ u16_to_be t.fine

-- Bytes behind the seventh are not read.
unfoldable pub decode_be : List ℕ → Decoded Cuc
decode_be (p ∷ c0 ∷ c1 ∷ c2 ∷ c3 ∷ f0 ∷ f1 ∷ rest) = do
  guard (p == p_field) (invalid_p_field p)
  ok (record { coarse = u32_from_be c0 c1 c2 c3; fine = u16_from_be f0 f1 })
decode_be buf = err (buffer_too_short encoded_len (length buf))

abbrev pub IsValid : Cuc → Type 0
IsValid t = (t.coarse < 4294967296) × (t.fine < 65536)
