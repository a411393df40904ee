-- ===== src/Prelude/Bits.antt =====
-- The bit operations as arithmetic: low masks, disjoint unions, single bits, at every width.
use Prim.Native.Nat.{min, max, digits, bitwise, bit_and-bitwise, bit_or-bitwise}
use Prim.Native.Nat.{ℕ, zero, suc, ◌+◌, ◌-◌, ◌*◌, ◌/◌, ◌%◌, ◌^◌, ◌≤◌, ◌<◌, bit_and, bit_or}
use mathlib.Core.Path.{◌≡◌, refl, ap, ◌∙◌}
use mathlib.Core.Bool.{Bool, true, ◌&&◌}
use build_with_opus.Prelude.Tests.{◌==◌}
use native.Mathlib.Omega.{arith}
use native.Mathlib.Nat.{zero-add, suc-add, le_refl, pow-suc, one-le-pow, div-div-eq-div-mul}

-- The native operations recurse on digits with fuel, and fuel that is left over changes nothing.
module _ (tail_of : ℕ → ℕ) (op : ℕ → ℕ → ℕ) where
  one_more : (n a b : ℕ) → a ≤ n → digits tail_of op (suc n) a b ≡ digits tail_of op n a b
  one_more zero zero b h = refl
  one_more (suc n) zero b h = refl
  one_more zero (suc a) b h = absurd (omega arith)
  one_more (suc n) (suc a) b h = rw (one_more n (suc a / 2) (b / 2) (omega arith))

  left_over : (k n a b : ℕ) → a ≤ n → digits tail_of op (k + n) a b ≡ digits tail_of op n a b
  left_over zero n a b h = rw zero-add
  left_over (suc k) n a b h = rw suc-add (one_more (k + n) a b (omega arith) ∙ left_over k n a b h)

  -- The lowest digit apart from the others.
  split_digit :
      (a b : ℕ)
      → bitwise tail_of op (suc a) b
        ≡ bitwise tail_of op (suc a / 2) (b / 2) * 2 + op (suc a % 2) (b % 2)
  split_digit a b =
      let half = suc a / 2 in
      let fuel : a ≡ a - half + half = omega arith in
      let fewer =
        ap (λ (n : ℕ). digits tail_of op n half (b / 2)) fuel
        ∙ left_over (a - half) half half (b / 2) (omega arith) in
      omega (arith, fewer)

pub bit_and_halves : (a b : ℕ) → bit_and a b ≡ bit_and (a / 2) (b / 2) * 2 + min (a % 2) (b % 2)
bit_and_halves zero b = simp bit_and-bitwise (omega arith)
bit_and_halves (suc a) b = simp bit_and-bitwise (split_digit (λ y. 0) min a b)

pub bit_or_halves : (a b : ℕ) → bit_or a b ≡ bit_or (a / 2) (b / 2) * 2 + max (a % 2) (b % 2)
bit_or_halves zero b = simp bit_or-bitwise (omega arith)
bit_or_halves (suc a) b = simp bit_or-bitwise (split_digit (λ y. y) max a b)

zero_bounded : (n a : ℕ) → a ≤ n → (bit_and a 0 ≡ 0) × (bit_or a 0 ≡ a)
zero_bounded n zero h = (refl, refl)
zero_bounded zero (suc a) h = absurd (omega arith)
zero_bounded (suc n) (suc a) h =
    let (both, either) = zero_bounded n (suc a / 2) (omega arith) in
    (omega (arith, bit_and_halves (suc a) 0, both), omega (arith, bit_or_halves (suc a) 0, either))

pub bit_and-zero : (a : ℕ) → bit_and a 0 ≡ 0
bit_and-zero a = (zero_bounded a a (le_refl a)).0

pub bit_or-zero : (a : ℕ) → bit_or a 0 ≡ a
bit_or-zero a = (zero_bounded a a (le_refl a)).1

pub two_pow-suc : (k : ℕ) → 2 ^ suc k ≡ 2 * 2 ^ k
two_pow-suc k = omega (arith, pow-suc 2 k)

mask_keeps : (k hi lo : ℕ) → lo < 2 ^ k → bit_and (hi * 2 ^ k + lo) (2 ^ k - 1) ≡ lo
mask_keeps zero hi lo h = ground (arith, bit_and-zero (hi * 1 + lo))
mask_keeps (suc k) hi lo h = ground (
  arith,
  bit_and_halves (hi * 2 ^ suc k + lo) (2 ^ suc k - 1),
  ap (λ (t : ℕ). hi * t) (two_pow-suc k),
  two_pow-suc k,
  one-le-pow k 2,
  mask_keeps k hi (lo / 2),
)

-- `x & (2^k - 1)` is the remainder.
pub low_mask : (k a : ℕ) → bit_and a (2 ^ k - 1) ≡ a % 2 ^ k
low_mask k a = ground (arith, one-le-pow k 2, mask_keeps k (a / 2 ^ k) (a % 2 ^ k))

-- `(hi << k) | lo` is the sum when `lo` fits `k` bits.
pub disjoint_or : (k hi lo : ℕ) → lo < 2 ^ k → bit_or (hi * 2 ^ k) lo ≡ hi * 2 ^ k + lo
disjoint_or zero hi lo h = ground (arith, bit_or-zero hi)
disjoint_or (suc k) hi lo h = ground (
  arith,
  bit_or_halves (hi * 2 ^ suc k) lo,
  ap (λ (t : ℕ). hi * t) (two_pow-suc k),
  two_pow-suc k,
  disjoint_or k hi (lo / 2),
)

-- Two functions that agree on every value below `n`, checked by evaluation.
module _ (f g : ℕ → ℕ) where
  unfoldable pub agree_below : ℕ → Bool
  agree_below zero = true
  agree_below (suc n) = f n == g n && agree_below n

  pub agree_below→eq : (n : ℕ) → agree_below n ≡ true → (i : ℕ) → i < n → f i ≡ g i
  unfolding agree_below
  agree_below→eq zero e i h = absurd (omega arith)
  agree_below→eq (suc n) e i h = ground (arith, agree_below→eq n (ground arith) i)

pub div-div : (w i : ℕ) → w / 2 ^ suc i ≡ w / 2 / 2 ^ i
div-div w i = rw (div-div-eq-div-mul, two_pow-suc)

-- `w & (1 << i)` keeps bit i alone.
pub single_bit : (i w : ℕ) → bit_and w (2 ^ i) ≡ w / 2 ^ i % 2 * 2 ^ i
single_bit zero w = ground (arith, bit_and_halves w 1, bit_and-zero (w / 2))
single_bit (suc i) w = ground (
  arith,
  bit_and_halves w (2 ^ suc i),
  two_pow-suc i,
  single_bit i (w / 2),
  div-div w i,
  ap (λ (t : ℕ). w / 2 ^ suc i % 2 * t) (two_pow-suc i),
)

-- `w | (1 << i)` sets a bit that is clear.
pub set_clear_bit : (i w : ℕ) → w / 2 ^ i % 2 ≡ 0 → bit_or w (2 ^ i) ≡ w + 2 ^ i
set_clear_bit zero w h = ground (arith, bit_or_halves w 1, bit_or-zero (w / 2))
set_clear_bit (suc i) w h =
    ground (arith, bit_or_halves w (2 ^ suc i), two_pow-suc i, set_clear_bit i (w / 2), div-div w i)
