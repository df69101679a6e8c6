-- ===== src/Prelude/Ascending.antt =====
-- Lists in strictly ascending order of a key type.
use mathlib.Core.List.{List, [], ◌∷◌, ◌++◌}
use awesome_dsa.Prelude.Order.{Order, ◌≺◌}

-- every element satisfies `P`
abbrev pub Each {ℓ μ} : {A : Type ℓ} → (A → Type μ) → List A → Type μ
Each P [] = Unit
Each P (x ∷ xs) = P x × Each P xs

pub Each-imp {ℓ μ ν} :
    {A : Type ℓ} {P : A → Type μ} {Q : A → Type ν}
    → ((a : A) → P a → Q a)
    → (xs : List A) → Each P xs
    → Each Q xs
Each-imp f [] e = tt
Each-imp f (x ∷ xs) e = (f x e.0, Each-imp f xs e.1)

pub Each-append {ℓ μ} :
    {A : Type ℓ} (P : A → Type μ) (xs ys : List A) → Each P xs → Each P ys → Each P (xs ++ ys)
Each-append P [] ys a b = b
Each-append P (x ∷ xs) ys a b = (a.0, Each-append P xs ys a.1 b)

module _ {ℓ} {K : Type ℓ} ⦃o : Order K⦄ where
  abbrev pub Ascending : List K → Type 0
  Ascending [] = Unit
  Ascending (x ∷ xs) = Each (λ y. x ≺ y) xs × Ascending xs

  -- Two ascending lists with a key between them.
  pub Ascending-append :
      (k : K) (xs ys : List K)
      → Ascending xs
      → Ascending ys
      → Each (λ x. x ≺ k) xs
      → Each (λ y. k ≺ y) ys
      → Ascending (xs ++ k ∷ ys)
  Ascending-append k [] ys a b below above = (above, b)
  Ascending-append k (x ∷ xs) ys a b below above = (
    Each-append (λ y. x ≺ y) xs (k ∷ ys) a.0
        (below.0, Each-imp (λ y. o.less_trans x k y below.0) ys above),
    Ascending-append k xs ys a.1 b below.1 above,
  )
