-- ===== src/MFile/Assembler/Pieces.antt =====
-- A table that holds the indices of a range, and no others, holds them in order.
use mathlib.Core.Path.{subst}
use build_with_opus.Prelude.{
  ℕ, zero, suc, ◌+◌, ◌≤◌, ◌<◌, ◌≡◌, refl, Option, none, some, List, [], ◌∷◌, ◌++◌, arith,
}
use build_with_opus.Prelude.Table.{Table, lookup}
use build_with_opus.Prelude.OrderedTable.Totals.{lookup-Above}
use build_with_opus.Prelude.OrderedTable.{values, Above, IsOrdered}
use build_with_opus.MFile.State.{concat}

abbrev pub or_empty : Option (List ℕ) → List ℕ
or_empty none = []
or_empty (some p) = p

-- The chunks with the indices from, from + 1, …, n of them, one after the other.
abbrev pub pieces : Table (List ℕ) → ℕ → ℕ → List ℕ
pieces t from zero = []
pieces t from (suc n) = or_empty (lookup from t) ++ pieces t (suc from) n

-- What a first entry below the range does not change.
pieces-cons :
    (k : ℕ) (v : List ℕ) (t : Table (List ℕ)) (from n : ℕ)
    → k < from
    → pieces ((k, v) ∷ t) from n ≡ pieces t from n
unfolding lookup
pieces-cons k v t from zero h = refl
pieces-cons k v t from (suc n) h = ground (arith, pieces-cons k v t (suc from) n)

-- Every index from `from` on, n of them, is in the table, and no other.
pub record Covers (t : Table (List ℕ)) (from n : ℕ) : Type 0 where
  pub range : (i : ℕ) (p : List ℕ) → lookup i t ≡ some p → (from ≤ i) × (i < from + n)
  pub all : (i : ℕ) → from ≤ i → i < from + n → (p : List ℕ) × (lookup i t ≡ some p)

first_key :
    (k : ℕ) (v : List ℕ) (t : Table (List ℕ)) (from n : ℕ)
    → Above k t
    → Covers ((k, v) ∷ t) from (suc n)
    → k ≡ from
unfolding lookup
first_key k v t from n o c =
    let (p, found) = c.all from (omega arith) (omega arith) in
    ground (arith, c.range k v, found, lookup-Above from k t)

Covers-rest :
    (from : ℕ) (v : List ℕ) (t : Table (List ℕ)) (n : ℕ)
    → Above from t
    → Covers ((from, v) ∷ t) from (suc n)
    → Covers t (suc from) n
unfolding lookup
Covers-rest from v t n o c = record {
  range = λ i p e. ground (arith, c.range i p, lookup-Above from from t, lookup-Above i from t);
  all =
      λ i h1 h2. let (p, found) = c.all i (omega arith) (omega arith) in (p, ground (arith, found));
}

pub concat-values :
    (n from : ℕ) (t : Table (List ℕ))
    → IsOrdered t
    → Covers t from n
    → concat (values t) ≡ pieces t from n
unfolding concat lookup
concat-values zero from [] o c = refl
concat-values zero from ((k, v) ∷ t) o c =
    absurd (let h = c.range k v (ground arith) in omega arith)
concat-values (suc n) from [] o c =
    absurd (let h = c.all from (omega arith) (omega arith) in cc (h.1))
concat-values (suc n) from ((k, v) ∷ t) o c =
    let same = first_key k v t from n o.0 c in
    let rest : Covers t (suc from) n =
      Covers-rest from v t n (subst (λ j. Above j t) same o.0)
        (subst (λ j. Covers ((j, v) ∷ t) from (suc n)) same c) in
    ground (
      arith,
      same,
      pieces-cons k v t (suc from) n (omega arith),
      concat-values n (suc from) t o.1 rest,
    )
