-- ===== src/Prelude/Cells.antt =====
-- Reads and writes of a vector by index, which fault outside it, and what they do to a list that is
-- written as what stands before the place, the place and what stands after it.
use Prim.Native.Nat.{ℕ}
use mathlib.Core.Path.{◌≡◌, refl, ap, ◌∙◌}
use mathlib.Core.Bool.{true}
use mathlib.Core.Option.{none, some}
use mathlib.Core.List.{List, [], ◌∷◌, ◌++◌}
use native.Mathlib.Omega.{arith}
use awesome_dsa.Prelude.Tests.{ltb, lt→ltb, if◌then◌else◌}
use awesome_dsa.Prelude.Lists.{length, length-append, get_elem?, set}
use awesome_dsa.Prelude.Outcome.{Outcome, returns, faults}

module _ {ℓ} {A : Type ℓ} where
  unfoldable pub read : List A → ℕ → Outcome A
  read xs i = elim (get_elem? xs i) [ none ↦ faults | some x ↦ returns x ]

  unfoldable pub write : List A → ℕ → A → Outcome (List A)
  write xs i x = if ltb i (length xs) then returns (set xs i x) else faults

module _ {ℓ} {A : Type ℓ} where
  get_elem?-append : (l : List A) (x : A) (r : List A) → get_elem? (l ++ x ∷ r) (length l) ≡ some x
  get_elem?-append [] x r = refl
  get_elem?-append (y ∷ l) x r = get_elem?-append l x r

  set-append : (l : List A) (x y : A) (r : List A) → set (l ++ x ∷ r) (length l) y ≡ l ++ y ∷ r
  set-append [] x y r = refl
  set-append (z ∷ l) x y r = ap (◌∷◌ z) (set-append l x y r)

  pub read-append :
      (l : List A) (x : A) (r : List A) (i : ℕ) → i ≡ length l → read (l ++ x ∷ r) i ≡ returns x
  unfolding read
  read-append l x r i e = ap (read (l ++ x ∷ r)) e ∙ rw (read, get_elem?-append l x r) refl

  pub write-append :
      (l : List A) (x y : A) (r : List A) (i : ℕ)
      → i ≡ length l
      → write (l ++ x ∷ r) i y ≡ returns (l ++ y ∷ r)
  unfolding write
  write-append l x y r i e =
      let within : ltb (length l) (length (l ++ x ∷ r)) ≡ true =
        lt→ltb _ _ (omega (arith, length-append l (x ∷ r))) in
      ap (λ j. write (l ++ x ∷ r) j y) e ∙ rw (write, within, set-append l x y r) refl
