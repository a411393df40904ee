-- ===== src/Prelude/OrderedTable/Totals.antt =====
-- What an insertion and a removal do to the sum over a table and to what holds of all its values.
use Prim.Native.Nat.{ℕ, ◌+◌, ◌≤◌}
use mathlib.Core.Path.{◌≡◌, refl, subst}
use mathlib.Core.Logic.{inl, inr}
use mathlib.Core.Option.{Option, none, some}
use mathlib.Core.List.{[], ◌∷◌}
use native.Mathlib.Omega.{arith}
use build_with_opus.Prelude.Tests.{◌==◌, ltb, Bool-cases}
use build_with_opus.Prelude.Table.{Table, lookup, remove}
use build_with_opus.Prelude.OrderedTable.{insert, Above, IsOrdered}

module _ {ℓ} {V : Type ℓ} where
  abbrev pub total : (V → ℕ) → Table V → ℕ
  total f [] = 0
  total f ((k, v) ∷ t) = f v + total f t

  abbrev pub at : (V → ℕ) → Option V → ℕ
  at f none = 0
  at f (some v) = f v

  unfoldable pub AllValues {κ} : (V → Type κ) → Table V → Type κ
  AllValues P [] = Unit {κ}
  AllValues P ((k, v) ∷ t) = P v × AllValues P t

  -- A key below all others is not in the table.
  pub lookup-Above : (i k : ℕ) (t : Table V) → i ≤ k → Above k t → lookup i t ≡ none
  unfolding lookup
  lookup-Above i k [] h a = refl
  lookup-Above i k ((j, v) ∷ t) h a = ground (arith, lookup-Above i k t h a.1)

  pub remove-Above : (i k : ℕ) (t : Table V) → i ≤ k → Above k t → remove i t ≡ t
  unfolding remove
  remove-Above i k [] h a = refl
  remove-Above i k ((j, v) ∷ t) h a = ground (arith, remove-Above i k t h a.1)

  pub total-insert :
      (f : V → ℕ) (k : ℕ) (v : V) (t : Table V)
      → IsOrdered t
      → total f (insert k v t) + at f (lookup k t) ≡ total f t + f v
  unfolding insert lookup
  total-insert f k v [] o = omega arith
  total-insert f k v ((j, w) ∷ t) o = ground (arith, total-insert f k v t o.1, lookup-Above k j t)

  pub total-remove :
      (f : V → ℕ) (k : ℕ) (t : Table V)
      → IsOrdered t
      → total f (remove k t) + at f (lookup k t) ≡ total f t
  unfolding remove lookup
  total-remove f k [] o = omega arith
  total-remove f k ((j, w) ∷ t) o = ground (arith, total-remove f k t o.1, remove-Above k j t)

  Above-remove : (i k : ℕ) (t : Table V) → Above i t → Above i (remove k t)
  unfolding remove
  Above-remove i k [] a = a
  Above-remove i k ((j, w) ∷ t) a = elim (Bool-cases (j == k)) [
    | inl e ↦ rw e (Above-remove i k t a.1)
    | inr e ↦ rw e (a.0, Above-remove i k t a.1)
  ]

  pub remove-IsOrdered : (k : ℕ) (t : Table V) → IsOrdered t → IsOrdered (remove k t)
  unfolding remove
  remove-IsOrdered k [] o = o
  remove-IsOrdered k ((j, w) ∷ t) o = elim (Bool-cases (j == k)) [
    | inl e ↦ rw e (remove-IsOrdered k t o.1)
    | inr e ↦ rw e (Above-remove j k t o.0, remove-IsOrdered k t o.1)
  ]

module _ {ℓ κ} {V : Type ℓ} (P : V → Type κ) where
  pub AllValues-insert :
      (k : ℕ) (v : V) (t : Table V) → P v → AllValues P t → AllValues P (insert k v t)
  unfolding insert AllValues
  AllValues-insert k v [] p a = (p, a)
  AllValues-insert k v ((j, w) ∷ t) p a = elim (Bool-cases (ltb k j)) [
    | inl e ↦ rw e (p, a)
    | inr e ↦ rw e (elim (Bool-cases (j == k)) [
      | inl f ↦ rw f (p, a.1)
      | inr f ↦ rw f (a.0, AllValues-insert k v t p a.1)
    ])
  ]

  pub AllValues-remove : (k : ℕ) (t : Table V) → AllValues P t → AllValues P (remove k t)
  unfolding remove AllValues
  AllValues-remove k [] a = a
  AllValues-remove k ((j, w) ∷ t) a = elim (Bool-cases (j == k)) [
    | inl e ↦ rw e (AllValues-remove k t a.1)
    | inr e ↦ rw e (a.0, AllValues-remove k t a.1)
  ]

  pub AllValues-lookup : (k : ℕ) (v : V) (t : Table V) → AllValues P t → lookup k t ≡ some v → P v
  unfolding lookup AllValues
  AllValues-lookup k v [] a e = absurd (cc e)
  AllValues-lookup k v ((j, w) ∷ t) a e = elim (Bool-cases (j == k)) [
    | inl f ↦ subst P (ground (arith, f, e)) a.0
    | inr f ↦ AllValues-lookup k v t a.1 (ground (arith, f, e))
  ]
