-- ===== src/Wire/Secondary.antt =====
-- rust/ccsds_wire/src/secondary.rs: the 10-byte secondary header.
pub mod RoundTrip
use build_with_opus.Prelude.{
  ℕ, bit_and, Bool, not, List, [], ◌∷◌, ◌++◌, ok, err, length, ◌>>=◌, ◌==◌,
}
use build_with_opus.Prelude.Words.{u16_from_be, u16_to_be}
use build_with_opus.Wire.Error.{Decoded, buffer_too_short}
use build_with_opus.Wire.Cuc
use build_with_opus.Wire.Cuc.{Cuc}
use build_with_opus.Wire.FuncCode
use build_with_opus.Wire.FuncCode.{FuncCode}
use build_with_opus.Wire.InstanceId
use build_with_opus.Wire.InstanceId.{InstanceId}

pub record SecondaryHeader : Type 0 where
  pub time : Cuc
  pub func_code : FuncCode
  pub instance_id : InstanceId

-- What the sealed field types establish.
pub record IsValid (h : SecondaryHeader) : Type 0 where
  pub time_valid : Cuc.IsValid h.time
  pub func_code_valid : FuncCode.IsValid h.func_code
  pub instance_id_valid : InstanceId.IsValid h.instance_id

abbrev pub len : ℕ
len = 10

-- The lowest bit of the function code marks a time that is not to be trusted.
time_suspect : SecondaryHeader → Bool
time_suspect h = not (bit_and h.func_code.raw 0x0001 == 0)

unfoldable pub encode : SecondaryHeader → List ℕ
encode h = Cuc.encode_be h.time ++ (u16_to_be h.func_code.raw ++ h.instance_id.raw ∷ [])

-- Bytes behind the tenth are not read.
unfoldable pub decode : List ℕ → Decoded SecondaryHeader
decode (b0 ∷ b1 ∷ b2 ∷ b3 ∷ b4 ∷ b5 ∷ b6 ∷ b7 ∷ b8 ∷ b9 ∷ rest) = do
  time ← Cuc.decode_be (b0 ∷ b1 ∷ b2 ∷ b3 ∷ b4 ∷ b5 ∷ b6 ∷ [])
  func_code ← FuncCode.new (u16_from_be b7 b8)
  instance_id ← InstanceId.new b9
  ok (record { time = time; func_code = func_code; instance_id = instance_id })
decode buf = err (buffer_too_short len (length buf))
