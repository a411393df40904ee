-- ===== src/MFile/BitSet/Counting.antt =====
-- The count of a bit set is the number of its bits, so that a full count means that all are in.
use build_with_opus.Prelude.{
  ℕ, zero, suc, ◌+◌, ◌/◌, ◌≤◌, ◌<◌, ◌≡◌, ◌↔◌, refl, sym, ap, ◌∙◌, inl, inr, Bool, true, false, ◌||◌,
  ◌==◌, ==_iff, if◌then◌else◌, Bool-cases, arith,
}
use build_with_opus.MFile.BitSet.{BitSet, new, is_full}
use build_with_opus.MFile.BitSet.Laws.{has, has-new, IsSized, new-IsSized, Puts}

pub count_below : (ℕ → Bool) → ℕ → ℕ
count_below f zero = 0
count_below f (suc n) = (if f n then 1 else 0) + count_below f n

count_below-le : (f : ℕ → Bool) (n : ℕ) → count_below f n ≤ n
unfolding count_below
count_below-le f zero = omega arith
count_below-le f (suc n) = ground (arith, count_below-le f n)

-- A count that reaches the bound misses no index.
full_count : (f : ℕ → Bool) (n i : ℕ) → count_below f n ≡ n → i < n → f i ≡ true
unfolding count_below
full_count f zero i e h = absurd (omega arith)
full_count f (suc n) i e h = ground (arith, count_below-le f n, full_count f n i)

all_count : (f : ℕ → Bool) (n : ℕ) → ((i : ℕ) → i < n → f i ≡ true) → count_below f n ≡ n
unfolding count_below
all_count f zero h = refl
all_count f (suc n) h = ground (arith, h n (omega arith), all_count f n (λ i l. h i (omega arith)))

module _ (f g : ℕ → Bool) (i : ℕ) (put : (j : ℕ) → g j ≡ ((i == j) || f j)) where
  count_above : (n : ℕ) → n ≤ i → count_below g n ≡ count_below f n
  unfolding count_below
  count_above zero h = refl
  count_above (suc n) h = ground (arith, put n, count_above n (omega arith))

  count_put : (n : ℕ) → i < n → count_below g n ≡ count_below f n + (if f i then 0 else 1)
  unfolding count_below
  count_put zero h = absurd (omega arith)
  count_put (suc n) h = elim (Bool-cases (i == n)) [
    | inl e ↦
        let same : i ≡ n = (==_iff i n).0 e in
        ground (arith, put n, count_above n (omega arith), ap f same)
    | inr e ↦ ground (arith, put n, count_put n (ground arith))
  ]

-- The words are as many as the length needs, and the count is the number of bits.
pub record IsWellFormed (b : BitSet) : Type 0 where
  pub sized : IsSized b
  pub exact : b.set_count ≡ count_below (has b.words) b.len

none_count : (f : ℕ → Bool) (n : ℕ) → ((i : ℕ) → f i ≡ false) → count_below f n ≡ 0
unfolding count_below
none_count f zero h = refl
none_count f (suc n) h = ground (arith, h n, none_count f n h)

pub new-IsWellFormed : (n : ℕ) → IsWellFormed (new n)
unfolding new
new-IsWellFormed n = record { sized = new-IsSized n; exact = sym (none_count _ n (has-new n)) }

pub Puts-IsWellFormed :
    (b : BitSet) (i : ℕ) (c : BitSet) → i < b.len → IsWellFormed b → Puts b i c → IsWellFormed c
Puts-IsWellFormed b i c h wf p = record {
  sized = p.same_words ∙ wf.sized ∙ ap (λ (n : ℕ). (n + 63) / 64) (sym p.same_len);
  exact = ground (
    arith,
    p.counted,
    wf.exact,
    count_put (has b.words) (has c.words) i p.bits b.len h,
    p.same_len,
  );
}

-- The completion test answers true exactly when every bit below the length is in.
pub is_full_iff :
    (b : BitSet)
    → IsWellFormed b
    → (is_full b ≡ true) ↔ ((i : ℕ) → i < b.len → has b.words i ≡ true)
unfolding is_full
is_full_iff b wf = (
  λ e i h. full_count (has b.words) b.len i (sym wf.exact ∙ (==_iff b.set_count b.len).0 e) h,
  λ all. (==_iff b.set_count b.len).1 (wf.exact ∙ all_count (has b.words) b.len all),
)
