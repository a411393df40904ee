-- ===== src/MFile/BitSet.antt =====
-- rust/ground_station/src/mfile/mod.rs: the bit array that records which chunks were received.
pub mod Laws
pub mod Counting
use build_with_opus.Prelude.{
  ℕ, zero, suc, ◌+◌, ◌/◌, ◌%◌, ◌^◌, bit_and, bit_or, Bool, true, false, not, Option, none, some,
  List, [], ◌∷◌, replicate, get_elem?, ◌==◌, if◌then◌else◌,
}

pub record BitSet : Type 0 where
  pub words : List ℕ  -- u64 each
  pub len : ℕ
  pub set_count : ℕ

-- `len.div_ceil(64)` words
unfoldable pub new : ℕ → BitSet
new len = record { words = replicate ((len + 63) / 64) 0; len = len; set_count = 0 }

pub update_word : List ℕ → ℕ → ℕ → List ℕ
update_word [] i w = []
update_word (v ∷ vs) zero w = w ∷ vs
update_word (v ∷ vs) (suc i) w = v ∷ update_word vs i w

-- `1u64 << (idx % 64)`
abbrev pub mask : ℕ → ℕ
mask idx = 2 ^ (idx % 64)

-- `none` is the panic of an index out of bounds. The flag says whether the bit is new.
pub set : ℕ → BitSet → Option (BitSet × Bool)
set idx b = elim (get_elem? b.words (idx / 64)) [
  | none ↦ none
  | some w ↦
      if bit_and w (mask idx) == 0
      then some (
        record b {
          words = update_word b.words (idx / 64) (bit_or w (mask idx));
          set_count = b.set_count + 1;
        },
        true,
      )
      else some (b, false)
]

pub is_set : ℕ → BitSet → Option Bool
is_set idx b = elim (get_elem? b.words (idx / 64)) [
  | none ↦ none
  | some w ↦ some (not (bit_and w (mask idx) == 0))
]

pub is_full : BitSet → Bool
is_full b = b.set_count == b.len
