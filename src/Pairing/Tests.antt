-- ===== src/Pairing/Tests.antt =====
-- PairingHeap run on numbers, and its theorems at concrete inputs.
use awesome_dsa.Prelude.{ℕ, ◌≤◌, true, false, some, List, [], ◌∷◌, ◌++◌, ◌≡◌, refl, arith}
use awesome_dsa.Prelude.Tally.{SameItems}
use awesome_dsa.Prelude.Priority.{nat_less, InOrder}
use awesome_dsa.Pairing.{PairingHeap, new_heap, push, pop, meld, empty, drain}
use awesome_dsa.Pairing.Class.{
  contents, IsValid, new_heap-IsValid, push_lem, Popped, pop_lem, meld_lem, drain_lem,
}

h1 : PairingHeap ℕ
h1 = push 50 (push 30 (push 10 new_heap))

h2 : PairingHeap ℕ
h2 = push 70 (push 25 (push 5 new_heap))

h1-IsValid : IsValid h1
unfolding h1
h1-IsValid =
    (push_lem 50 (push 30 (push 10 new_heap))
      (push_lem 30 (push 10 new_heap) (push_lem 10 new_heap new_heap-IsValid).0).0).0

h2-IsValid : IsValid h2
unfolding h2
h2-IsValid =
    (push_lem 70 (push 25 (push 5 new_heap))
      (push_lem 25 (push 5 new_heap) (push_lem 5 new_heap new_heap-IsValid).0).0).0

melded_runs : drain 6 (meld false h1 h2).0 ≡ some (5 ∷ 10 ∷ 25 ∷ 30 ∷ 50 ∷ 70 ∷ [])
unfolding h1 h2 push new_heap meld drain
melded_runs = refl

push_example : IsValid (push 7 h1) × SameItems (contents (push 7 h1)) (7 ∷ contents h1)
push_example = push_lem 7 h1 h1-IsValid

pop_example : Popped h1 (pop h1)
pop_example = pop_lem h1 h1-IsValid

meld_example :
    IsValid (meld false h1 h2).0
    × SameItems (contents (meld false h1 h2).0) (contents h1 ++ contents h2)
    × (empty (meld false h1 h2).1 ≡ true)
    × (meld true h1 h1 ≡ (h1, h1))
meld_example = meld_lem h1 h2 h1-IsValid h2-IsValid

size_le : h1.size ≤ 9
unfolding h1 push new_heap
size_le = omega arith

drain_example : (out : List ℕ) × (drain 9 h1 ≡ some out) × InOrder out × SameItems out (contents h1)
drain_example = drain_lem 9 h1 h1-IsValid size_le
