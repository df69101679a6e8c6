-- ===== src/Prelude/Tally.antt =====
-- Multisets by their weights. Two lists hold the same items, each as often, when they weigh the
-- same under every assignment of weights: weight 1 at one value and 0 elsewhere counts that value.
use Prim.Native.Nat.{ℕ, ◌+◌}
use mathlib.Core.Path.{◌≡◌, refl}
use mathlib.Core.Bool.{Bool, true, false}
use mathlib.Core.List.{List, [], ◌∷◌, ◌++◌}
use native.Mathlib.Omega.{arith}
use awesome_dsa.Prelude.Lists.{length}
use awesome_dsa.Prelude.Ascending.{Each}

abbrev pub tally {ℓ} : {A : Type ℓ} → (A → ℕ) → List A → ℕ
tally f [] = 0
tally f (x ∷ xs) = f x + tally f xs

abbrev pub SameItems {ℓ} : {A : Type ℓ} → List A → List A → Type ℓ
SameItems {A = A} xs ys = (f : A → ℕ) → tally f xs ≡ tally f ys

abbrev pub one_if : Bool → ℕ
one_if true = 1
one_if false = 0

one_if_zero : (b : Bool) → one_if b ≡ 0 → b ≡ false
one_if_zero true e = absurd (omega arith)
one_if_zero false e = refl

module _ {ℓ} {A : Type ℓ} where
  pub tally-append : (f : A → ℕ) (xs ys : List A) → tally f (xs ++ ys) ≡ tally f xs + tally f ys
  tally-append f [] ys = omega arith
  tally-append f (x ∷ xs) ys = omega (arith, tally-append f xs ys)

  pub tally-one : (xs : List A) → tally (λ _. 1) xs ≡ length xs
  tally-one [] = omega arith
  tally-one (x ∷ xs) = omega (arith, tally-one xs)

  -- A test that no item passes weighs nothing, and only such a test.
  pub tally_none :
      (test : A → Bool) (xs : List A)
      → Each (λ x. test x ≡ false) xs
      → tally (λ x. one_if (test x)) xs ≡ 0
  tally_none test [] e = refl
  tally_none test (x ∷ xs) e = rw e.0 (omega (arith, tally_none test xs e.1))

  pub Each-of_tally :
      (test : A → Bool) (xs : List A)
      → tally (λ x. one_if (test x)) xs ≡ 0
      → Each (λ x. test x ≡ false) xs
  Each-of_tally test [] e = tt
  Each-of_tally test (x ∷ xs) e =
      (one_if_zero (test x) (omega arith), Each-of_tally test xs (omega arith))
