-- ===== src/Station/Interleaving/Omits.antt =====
-- Lists of which some entries are left out.
use mathlib.Core.Path.{subst}
use build_with_opus.Prelude.{ℕ, suc, ◌+◌, ◌≤◌, ◌≡◌, refl, ap, List, [], ◌∷◌, ◌++◌, length, arith}

-- The first list is the second with n entries left out.
pub data Omits {A : Type 0} : ℕ → List A → List A → Type 0 where
  done : Omits 0 [] []
  keep : {n : ℕ} {xs ys : List A} (x : A) → Omits n xs ys → Omits n (x ∷ xs) (x ∷ ys)
  skip : {n : ℕ} {xs ys : List A} (y : A) → Omits n xs ys → Omits (suc n) xs (y ∷ ys)

module _ {A : Type 0} where
  pub Omits-refl : (xs : List A) → Omits 0 xs xs
  Omits-refl [] = done
  Omits-refl (x ∷ xs) = keep x (Omits-refl xs)

  pub Omits-eq : {xs ys : List A} → xs ≡ ys → Omits 0 xs ys
  Omits-eq {xs = xs} e = subst (Omits 0 xs) e (Omits-refl xs)

  pub Omits-prefix :
      {n : ℕ} {xs ys : List A} (zs : List A) → Omits n xs ys → Omits n (zs ++ xs) (zs ++ ys)
  Omits-prefix [] o = o
  Omits-prefix (z ∷ zs) o = keep z (Omits-prefix zs o)

  pub Omits-suffix :
      {n : ℕ} {xs ys : List A} (zs : List A) → Omits n xs ys → Omits n (xs ++ zs) (ys ++ zs)
  Omits-suffix zs done = Omits-refl zs
  Omits-suffix zs (keep x o) = keep x (Omits-suffix zs o)
  Omits-suffix zs (skip y o) = skip y (Omits-suffix zs o)

  pub Omits-count : {m n : ℕ} {xs ys : List A} → m ≡ n → Omits m xs ys → Omits n xs ys
  Omits-count {xs = xs} {ys = ys} e o = subst (λ k. Omits k xs ys) e o

  pub Omits-into : {n : ℕ} {xs ys zs : List A} → ys ≡ zs → Omits n xs ys → Omits n xs zs
  Omits-into {n = n} {xs = xs} e o = subst (λ l. Omits n xs l) e o

  pub Omits-trans :
      {m n : ℕ} {xs ys zs : List A} → Omits m xs ys → Omits n ys zs → Omits (m + n) xs zs
  Omits-trans o (skip {n = n} z p) = Omits-count (omega arith) (skip z (Omits-trans o p))
  Omits-trans done done = done
  Omits-trans (keep x o) (keep y p) = keep y (Omits-trans o p)
  Omits-trans (skip {n = k} y o) (keep z p) =
      Omits-count (omega arith) (skip z (Omits-trans {m = k} o p))

  -- Nothing left out is the list itself.
  pub Omits-none : {xs ys : List A} → Omits 0 xs ys → xs ≡ ys
  Omits-none done = refl
  Omits-none (keep x o) = ap (λ l. x ∷ l) (Omits-none o)

  pub Omits-first :
      (x : List A) (xs : List A) → length x ≤ 1 → (n : ℕ) × (n ≤ 1) × Omits n xs (x ++ xs)
  Omits-first [] xs h = (0, omega arith, Omits-refl xs)
  Omits-first (x ∷ []) xs h = (1, omega arith, skip x (Omits-refl xs))
  Omits-first (x ∷ y ∷ rest) xs h = absurd (omega (arith, h))
