-- ===== src/Queues/ArrayStack.antt =====
-- Class ArrayStack: a vector, its last element on top.
use awesome_dsa.Prelude.{
  ℕ, ◌+◌, Bool, true, false, List, [], ◌∷◌, ◌++◌, length, length-append, arith, ◌≡◌, refl,
}
use awesome_dsa.Prelude.Outcome.{Outcome, returns, throws, underflow_error}

module _ {ℓ} {T : Type ℓ} where
  -- `std::vector::pop_back` and `back` of a vector that is not empty
  abbrev pub drop_last : T → List T → List T
  drop_last x [] = []
  drop_last x (y ∷ ys) = x ∷ drop_last y ys

  abbrev pub last : T → List T → T
  last x [] = x
  last x (y ∷ ys) = last y ys

  unfoldable pub empty : List T → Bool
  empty [] = true
  empty (x ∷ xs) = false

  unfoldable pub size : List T → ℕ
  size s = length s

  unfoldable pub push : T → List T → List T
  push value s = s ++ value ∷ []

  unfoldable pub pop : List T → Outcome (List T)
  pop [] = throws underflow_error
  pop (x ∷ xs) = returns (drop_last x xs)

  unfoldable pub top : List T → Outcome T
  top [] = throws underflow_error
  top (x ∷ xs) = returns (last x xs)

  last-snoc : (x : T) (xs : List T) (v : T) → last x (xs ++ v ∷ []) ≡ v
  last-snoc x [] v = refl
  last-snoc x (y ∷ ys) v = last-snoc y ys v

  drop_last-snoc : (x : T) (xs : List T) (v : T) → drop_last x (xs ++ v ∷ []) ≡ x ∷ xs
  drop_last-snoc x [] v = refl
  drop_last-snoc x (y ∷ ys) v = rw (drop_last-snoc y ys v)

  -- After `push` the value is on top and the size is one more, and `pop` takes exactly it off; on an
  -- empty stack `pop` and `top` throw.
  pub pop-push :
      (v : T) (s : List T)
      → (top (push v s) ≡ returns v)
        × (pop (push v s) ≡ returns s)
        × (size (push v s) ≡ size s + 1)
        × (empty (push v s) ≡ false)
        × (pop [] ≡ throws underflow_error)
        × (top [] ≡ throws underflow_error)
  unfolding push pop top size empty
  pop-push v [] = (refl, refl, refl, refl, refl, refl)
  pop-push v (x ∷ xs) = (
    rw (last-snoc x xs v),
    rw (drop_last-snoc x xs v),
    omega (arith, length-append xs (v ∷ [])),
    refl,
    refl,
    refl,
  )
