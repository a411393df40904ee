-- ===== src/Prelude/OrderedTable.antt =====
-- `BTreeMap` with number keys: an association list whose insertion keeps the keys in order.
pub mod Totals
use Prim.Native.Nat.{ℕ, ◌<◌}
use mathlib.Core.Path.{◌≡◌, refl, subst}
use mathlib.Core.Logic.{inl, inr}
use mathlib.Core.Option.{Option, none, some}
use mathlib.Core.List.{List, [], ◌∷◌}
use native.Mathlib.Omega.{arith}
use build_with_opus.Prelude.Tests.{◌==◌, ltb, if◌then◌else◌, Bool-cases, ltb→lt, ==_iff}
use build_with_opus.Prelude.Table.{Table, lookup}

module _ {ℓ} {V : Type ℓ} where
  unfoldable pub insert : ℕ → V → Table V → Table V
  insert k v [] = (k, v) ∷ []
  insert k v ((j, w) ∷ t) =
      let later = (j, w) ∷ insert k v t in
      if ltb k j then (k, v) ∷ (j, w) ∷ t else if j == k then (k, v) ∷ t else later

  -- The values, in the order of their keys.
  abbrev pub values : Table V → List V
  values [] = []
  values ((k, v) ∷ t) = v ∷ values t

  abbrev pub keys : Table V → List ℕ
  keys [] = []
  keys ((k, v) ∷ t) = k ∷ keys t

  -- Every key is above `k`.
  abbrev pub Above : ℕ → Table V → Type 0
  Above k [] = Unit {0}
  Above k ((j, v) ∷ t) = (k < j) × Above k t

  abbrev pub IsOrdered : Table V → Type 0
  IsOrdered [] = Unit {0}
  IsOrdered ((k, v) ∷ t) = Above k t × IsOrdered t

  pub lookup-insert :
      (k j : ℕ) (v : V) (t : Table V)
      → lookup j (insert k v t) ≡ (if k == j then some v else lookup j t)
  unfolding lookup insert
  lookup-insert k j v [] = refl
  lookup-insert k j v ((i, w) ∷ t) = ground (arith, lookup-insert k j v t)

  Above-trans : (i j : ℕ) (t : Table V) → i < j → Above j t → Above i t
  Above-trans i j [] h a = tt
  Above-trans i j ((k, v) ∷ t) h a = (omega arith, Above-trans i j t h a.1)

  Above-insert : (i k : ℕ) (v : V) (t : Table V) → i < k → Above i t → Above i (insert k v t)
  unfolding insert
  Above-insert i k v [] h a = (h, tt)
  Above-insert i k v ((j, w) ∷ t) h a = elim (Bool-cases (ltb k j)) [
    | inl e ↦ rw e (h, a)
    | inr e ↦ rw e (elim (Bool-cases (j == k)) [
      | inl f ↦ rw f (h, a.1)
      | inr f ↦ rw f (a.0, Above-insert i k v t h a.1)
    ])
  ]

  pub insert-IsOrdered : (k : ℕ) (v : V) (t : Table V) → IsOrdered t → IsOrdered (insert k v t)
  unfolding insert
  insert-IsOrdered k v [] o = (tt, tt)
  insert-IsOrdered k v ((j, w) ∷ t) o = elim (Bool-cases (ltb k j)) [
    | inl e ↦ let below : k < j = ltb→lt k j e in rw e ((below, Above-trans k j t below o.0), o)
    | inr e ↦ rw e (elim (Bool-cases (j == k)) [
      | inl f ↦ rw f (subst (λ x. Above x t) ((==_iff j k).0 f) o.0, o.1)
      | inr f ↦
          let above : j < k = ground arith in
          rw f (Above-insert j k v t above o.0, insert-IsOrdered k v t o.1)
    ])
  ]
