-- ===== src/Prelude/Table/Distinct.antt =====
-- Tables that hold each key once.
use Prim.Native.Nat.{ℕ, suc, ◌-◌, ◌≤◌}
use mathlib.Core.Path.{◌≡◌, refl}
use mathlib.Core.Logic.{inl, inr}
use mathlib.Core.Option.{none, some}
use mathlib.Core.List.{[], ◌∷◌}
use native.Mathlib.Omega.{arith}
use build_with_opus.Prelude.Tests.{◌==◌, Bool-cases}
use build_with_opus.Prelude.Lists.{length}
use build_with_opus.Prelude.Table.{Table, lookup, insert, remove, lookup-insert, lookup-remove}

module _ {ℓ} {V : Type ℓ} where
  abbrev pub IsDistinct : Table V → Type ℓ
  IsDistinct [] = Unit {ℓ}
  IsDistinct ((k, v) ∷ t) = (lookup k t ≡ none) × IsDistinct t

  pub remove_absent : (k : ℕ) (t : Table V) → lookup k t ≡ none → remove k t ≡ t
  unfolding lookup remove
  remove_absent k [] h = refl
  remove_absent k ((j, v) ∷ t) h = ground (arith, remove_absent k t)

  pub length-insert_absent :
      (k : ℕ) (v : V) (t : Table V) → lookup k t ≡ none → length (insert k v t) ≡ suc (length t)
  unfolding lookup insert
  length-insert_absent k v [] h = refl
  length-insert_absent k v ((j, w) ∷ t) h = ground (arith, length-insert_absent k v t)

  pub length-insert_present :
      (k : ℕ) (v w : V) (t : Table V) → lookup k t ≡ some w → length (insert k v t) ≡ length t
  unfolding lookup insert
  length-insert_present k v w [] h = absurd (cc h)
  length-insert_present k v w ((j, u) ∷ t) h = ground (arith, length-insert_present k v w t)

  pub insert-IsDistinct : (k : ℕ) (v : V) (t : Table V) → IsDistinct t → IsDistinct (insert k v t)
  unfolding insert
  insert-IsDistinct k v [] d = (unfold lookup in refl, tt)
  insert-IsDistinct k v ((j, w) ∷ t) d = elim (Bool-cases (j == k)) [
    | inl e ↦ rw e (ground (arith, e, d.0), d.1)
    | inr e ↦ rw e (ground (arith, lookup-insert k j v t, d.0, e), insert-IsDistinct k v t d.1)
  ]

  pub remove-IsDistinct : (k : ℕ) (t : Table V) → IsDistinct t → IsDistinct (remove k t)
  unfolding remove
  remove-IsDistinct k [] d = d
  remove-IsDistinct k ((j, w) ∷ t) d = elim (Bool-cases (j == k)) [
    | inl e ↦ rw e (remove-IsDistinct k t d.1)
    | inr e ↦ rw e (ground (arith, lookup-remove k j t, d.0, e), remove-IsDistinct k t d.1)
  ]

  pub length-remove : (k : ℕ) (t : Table V) (n : ℕ) → length t ≤ n → length (remove k t) ≤ n
  unfolding remove
  length-remove k [] n h = h
  length-remove k ((j, w) ∷ t) n h = ground (arith, length-remove k t n, length-remove k t (n - 1))
