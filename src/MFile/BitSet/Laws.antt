-- ===== src/MFile/BitSet/Laws.antt =====
-- Setting a bit changes that bit and no other.
use build_with_opus.Prelude.{
  ℕ, zero, suc, ◌+◌, ◌/◌, ◌%◌, ◌^◌, ◌≤◌, ◌<◌, ◌≡◌, ◌↔◌, refl, ap, Bool, false, not, ◌||◌, Option,
  none, some, List, [], ◌∷◌, replicate, length, length-replicate, get_elem?, ◌==◌, if◌then◌else◌,
  arith, bit_and, bit_or, ◌∙◌, inl, inr, ◌⊎◌, Bool-cases, Option-cases,
}
use native.Mathlib.Nat.{one-le-pow}
use build_with_opus.Prelude.Bits.{single_bit, set_clear_bit, two_pow-suc, div-div}
use build_with_opus.MFile.BitSet.{BitSet, new, update_word, mask, set, is_set}

-- Bit q after bit p, which was clear, has been added.
pub add_bit :
    (p q w : ℕ)
    → w / 2 ^ p % 2 ≡ 0
    → (w + 2 ^ p) / 2 ^ q % 2 ≡ (if p == q then 1 else w / 2 ^ q % 2)
add_bit zero zero w h = ground arith
add_bit zero (suc q) w h =
    let even : (w + 1) / 2 ≡ w / 2 = omega arith in
    ground (arith, div-div (w + 1) q, div-div w q, ap (λ (t : ℕ). t / 2 ^ q) even)
add_bit (suc p) zero w h = ground (arith, two_pow-suc p)
add_bit (suc p) (suc q) w h =
    let half : (w + 2 ^ suc p) / 2 ≡ w / 2 + 2 ^ p = omega (arith, two_pow-suc p) in
    ground (
      arith,
      div-div (w + 2 ^ suc p) q,
      div-div w q,
      div-div w p,
      ap (λ (t : ℕ). t / 2 ^ q) half,
      add_bit p q (w / 2),
    )

-- The bit at an index, and false beyond the words.
bit_of : ℕ → Option ℕ → Bool
bit_of idx none = false
bit_of idx (some w) = w / 2 ^ (idx % 64) % 2 == 1

pub has : List ℕ → ℕ → Bool
has words idx = bit_of idx (get_elem? words (idx / 64))

get_elem?-update_word :
    (ws : List ℕ) (i j w : ℕ)
    → i < length ws
    → get_elem? (update_word ws i w) j ≡ (if i == j then some w else get_elem? ws j)
unfolding update_word
get_elem?-update_word [] i j w h = elim h [ ]
get_elem?-update_word (v ∷ vs) zero zero w h = refl
get_elem?-update_word (v ∷ vs) zero (suc j) w h = ground arith
get_elem?-update_word (v ∷ vs) (suc i) zero w h = ground arith
get_elem?-update_word (v ∷ vs) (suc i) (suc j) w h = ground (arith, get_elem?-update_word vs i j w)

-- The words are as many as the length needs.
abbrev pub IsSized : BitSet → Type 0
IsSized b = length b.words ≡ (b.len + 63) / 64

pub new-IsSized : (n : ℕ) → IsSized (new n)
unfolding new
new-IsSized n = length-replicate ((n + 63) / 64) 0

found : (ws : List ℕ) (i : ℕ) → i < length ws → (w : ℕ) × (get_elem? ws i ≡ some w)
found [] i h = elim h [ ]
found (w ∷ ws) zero h = (w, refl)
found (w ∷ ws) (suc i) h = found ws i (omega arith)

word_in_range : (b : BitSet) (i : ℕ) → IsSized b → i < b.len → i / 64 < length b.words
word_in_range b i s h = omega arith

-- The test of an index that is in range answers its bit.
pub is_set-eq-has : (b : BitSet) (i : ℕ) → IsSized b → i < b.len → is_set i b ≡ some (has b.words i)
unfolding is_set has bit_of
is_set-eq-has b i s h =
    let (w, e) = found b.words (i / 64) (word_in_range b i s h) in
    rw e (ground (arith, single_bit (i % 64) w, pos (i % 64)))
  where
    pos : (k : ℕ) → 1 ≤ 2 ^ k
    pos k = one-le-pow k 2 (omega arith)

length-update_word : (ws : List ℕ) (i w : ℕ) → length (update_word ws i w) ≡ length ws
unfolding update_word
length-update_word [] i w = refl
length-update_word (v ∷ vs) zero w = refl
length-update_word (v ∷ vs) (suc i) w = ap suc (length-update_word vs i w)

-- The set with the bit i put in where it is clear.
with_bit : ℕ → ℕ → BitSet → BitSet
with_bit i w b = record b {
  words = update_word b.words (i / 64) (bit_or w (mask i));
  set_count = b.set_count + 1;
}

has-with_bit :
    (b : BitSet) (i w j : ℕ)
    → get_elem? b.words (i / 64) ≡ some w
    → i / 64 < length b.words
    → w / 2 ^ (i % 64) % 2 ≡ 0
    → has (with_bit i w b).words j ≡ ((i == j) || has b.words j)
unfolding has bit_of with_bit
has-with_bit b i w j e fits clear = ground (
  arith,
  get_elem?-update_word b.words (i / 64) (j / 64) (bit_or w (mask i)) fits,
  set_clear_bit (i % 64) w clear,
  add_bit (i % 64) (j % 64) w clear,
)

-- What one `set` in range leaves: the bit is in, the others are as before, and the flag and the
-- count say whether it is new.
pub record Puts (b : BitSet) (i : ℕ) (c : BitSet) : Type 0 where
  pub bits : (j : ℕ) → has c.words j ≡ ((i == j) || has b.words j)
  pub same_len : c.len ≡ b.len
  pub same_words : length c.words ≡ length b.words
  pub counted : c.set_count ≡ b.set_count + (if has b.words i then 0 else 1)

has-found :
    (b : BitSet) (i w : ℕ)
    → get_elem? b.words (i / 64) ≡ some w
    → has b.words i ≡ (w / 2 ^ (i % 64) % 2 == 1)
unfolding has bit_of
has-found b i w e = rw e

test_bit : (i w : ℕ) → (bit_and w (mask i) == 0) ≡ not (w / 2 ^ (i % 64) % 2 == 1)
test_bit i w = ground (arith, single_bit (i % 64) w, one-le-pow (i % 64) 2)

-- `set` of an index in range never panics, answers whether the bit is new, and puts it in.
pub set_lem :
    (b : BitSet) (i : ℕ)
    → IsSized b
    → i < b.len
    → (c : BitSet) × (set i b ≡ some (c, not (has b.words i))) × Puts b i c
unfolding set
set_lem b i s h =
    let (w, e) = found b.words (i / 64) (word_in_range b i s h) in
    elim (Bool-cases (w / 2 ^ (i % 64) % 2 == 1)) [
      | inl present ↦
          let old = has-found b i w e ∙ present in
          (
            b,
            ground (arith, e, old, test_bit i w, present),
            record {
              bits = λ j. ground (arith, old);
              same_len = refl;
              same_words = refl;
              counted = rw old (omega arith);
            },
          )
      | inr missing ↦
          let new_bit = has-found b i w e ∙ missing in
          let clear : w / 2 ^ (i % 64) % 2 ≡ 0 = ground (arith, missing) in
          (
            with_bit i w b,
            unfold with_bit in ground (arith, e, new_bit, test_bit i w, missing),
            record {
              bits = λ j. has-with_bit b i w j e (word_in_range b i s h) clear;
              same_len = unfold with_bit in refl;
              same_words =
                  unfold with_bit in length-update_word b.words (i / 64) (bit_or w (mask i));
              counted = unfold with_bit in rw new_bit;
            },
          )
    ]

get_elem?-replicate :
    (n i : ℕ)
    → (get_elem? {A = ℕ} (replicate n 0) i ≡ none) ⊎ (get_elem? {A = ℕ} (replicate n 0) i ≡ some 0)
get_elem?-replicate zero i = inl refl
get_elem?-replicate (suc n) zero = inr refl
get_elem?-replicate (suc n) (suc i) = get_elem?-replicate n i

pub has-new : (n i : ℕ) → has (new n).words i ≡ false
unfolding has bit_of new
has-new n i = elim (get_elem?-replicate ((n + 63) / 64) (i / 64)) [
  | inl e ↦ rw e
  | inr e ↦ rw e (ground arith)
]

pub len-new : (n : ℕ) → (new n).len ≡ n
unfolding new
len-new n = refl

-- A `set` that does not panic, of an index in range or not, leaves the length and the size.
pub set_same_size :
    (b c : BitSet) (i : ℕ) (fresh : Bool)
    → set i b ≡ some (c, fresh)
    → (length c.words ≡ length b.words) × (c.len ≡ b.len)
unfolding set
set_same_size b c i fresh e = elim (Option-cases (get_elem? b.words (i / 64))) [
  | inl out ↦ absurd (ground (arith, e, out))
  | inr (w, at) ↦ ground (arith, e, at, length-update_word b.words (i / 64) (bit_or w (mask i)))
]

get_elem?-eq-none : (ws : List ℕ) (i : ℕ) → (get_elem? ws i ≡ none) ↔ (length ws ≤ i)
get_elem?-eq-none [] i = (λ e. omega arith, λ h. refl)
get_elem?-eq-none (w ∷ ws) zero = ground arith
get_elem?-eq-none (w ∷ ws) (suc i) = ground (arith, get_elem?-eq-none ws i)

pub is_set-eq-none : (b : BitSet) (i : ℕ) → (is_set i b ≡ none) ↔ (length b.words ≤ i / 64)
unfolding is_set
is_set-eq-none b i = ground (arith, get_elem?-eq-none b.words (i / 64))

pub set-eq-none : (b : BitSet) (i : ℕ) → (set i b ≡ none) ↔ (length b.words ≤ i / 64)
unfolding set
set-eq-none b i = ground (arith, get_elem?-eq-none b.words (i / 64))
