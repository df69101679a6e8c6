-- ===== src/Concurrent/TreiberStack/Linear.antt =====
-- Each run of the threads of a Treiber stack is a run of a stack, step by step.
use awesome_dsa.Prelude.{ℕ, Option, none, some, List, [], ◌∷◌, ◌≡◌}
use awesome_dsa.Concurrent.TreiberStack.{
  Node, Local, idle, pushing, popping, swapping, Stack, Event, pushed, popped,
}
use awesome_dsa.Concurrent.TreiberStack.Places.{Role, IsNull}
use awesome_dsa.Concurrent.TreiberStack.Pushes.{Holds}

-- The events `es`, in this order, turn a stack of the values `xs` into one of `ys`: a value that is
-- pushed comes on top, `pop` gives the value on top, and nothing where there is none.
abbrev pub Legal {ℓ} : {V : Type ℓ} → List V → List (Event V) → List V → Type ℓ
Legal xs [] ys = xs ≡ ys
Legal xs (pushed v ∷ es) ys = Legal (v ∷ xs) es ys
Legal xs (popped none ∷ es) ys = (xs ≡ []) × Legal xs es ys
Legal {V = V} xs (popped (some v) ∷ es) ys = (rest : List V) × (xs ≡ v ∷ rest) × Legal rest es ys

module _ {ℓ} {V : Type ℓ} where
  -- After the events `es` from a stack of `xs`, the shared stack holds what they make of it.
  abbrev After : List V → List (Event V) → Stack V → Type ℓ
  After xs es s =
      (role : ℕ → Role) × (bs : List ℕ) × (ys : List V) × Legal xs es ys × Holds role bs ys s

  -- The values from `h` on, in the heap.
  abbrev pub Values : (ℕ → Option (Node V)) → Option ℕ → List V → Type ℓ
  Values heap h [] = IsNull h
  Values heap h (x ∷ xs) =
      (a : ℕ) × (n : Option ℕ) × (h ≡ some a)
      × (heap a ≡ some (record { value = x; next = n }))
      × Values heap n xs

  -- A thread inside `pop` refers to a node that is there.
  abbrev pub IsSafe : (ℕ → Option (Node V)) → Local → Type ℓ
  IsSafe heap idle = Unit
  IsSafe heap (pushing a) = (k : Node V) × (heap a ≡ some k)
  IsSafe heap (popping o) = (k : Node V) × (heap o ≡ some k)
  IsSafe heap (swapping o n) = (k : Node V) × (heap o ≡ some k)
