-- ===== src/Prelude/Words.antt =====
-- Bytes and big-endian words.
use Prim.Native.Nat.{ℕ, ◌+◌, ◌*◌, ◌/◌, ◌%◌, ◌^◌, ◌<◌}
use mathlib.Core.List.{List, [], ◌∷◌}
use build_with_opus.Prelude.Lists.{All}

abbrev pub IsByte : ℕ → Type 0
IsByte b = b < 256

abbrev pub IsBytes : List ℕ → Type 0
IsBytes = All IsByte

infixl 75 ◌<<<◌ ◌>>>◌
abbrev pub ◌<<<◌ : ℕ → ℕ → ℕ
x <<< k = x * 2 ^ k

abbrev pub ◌>>>◌ : ℕ → ℕ → ℕ
x >>> k = x / 2 ^ k

-- `u16::from_be_bytes` and `u16::to_be_bytes`
abbrev pub u16_from_be : ℕ → ℕ → ℕ
u16_from_be b0 b1 = b0 * 256 + b1

abbrev pub u16_to_be : ℕ → List ℕ
u16_to_be v = v / 256 % 256 ∷ v % 256 ∷ []

-- `u32::from_be_bytes` and `u32::to_be_bytes`
abbrev pub u32_from_be : ℕ → ℕ → ℕ → ℕ → ℕ
u32_from_be b0 b1 b2 b3 = ((b0 * 256 + b1) * 256 + b2) * 256 + b3

abbrev pub u32_to_be : ℕ → List ℕ
u32_to_be v = v / 16777216 % 256 ∷ v / 65536 % 256 ∷ v / 256 % 256 ∷ v % 256 ∷ []

-- `u32::to_le_bytes`, `u32::from_le_bytes` and `u16::to_le_bytes`
abbrev pub u32_to_le : ℕ → List ℕ
u32_to_le v = v % 256 ∷ v / 256 % 256 ∷ v / 65536 % 256 ∷ v / 16777216 % 256 ∷ []

abbrev pub u32_from_le : ℕ → ℕ → ℕ → ℕ → ℕ
u32_from_le b0 b1 b2 b3 = u32_from_be b3 b2 b1 b0

abbrev pub u16_to_le : ℕ → List ℕ
u16_to_le v = v % 256 ∷ v / 256 % 256 ∷ []
