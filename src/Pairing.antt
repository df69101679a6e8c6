-- ===== src/Pairing.antt =====
-- implementations/cpp/pairing_heap.cpp, class PairingHeap. A node with its first child and its next
-- sibling, each null or a node that nothing else points to, is a tree.
pub mod Laws
pub mod Items
pub mod Class
mod Tests
use mathlib.Core.Option
use awesome_dsa.Prelude.{
  Option, none, some, zero, suc, ℕ, ◌+◌, ◌-◌, Bool, true, false, ◌||◌, List, [], ◌∷◌, ◌==◌,
  if◌then◌else◌,
}
use awesome_dsa.Prelude.Outcome.{Outcome, returns, throws, faults, underflow_error}
use awesome_dsa.Prelude.Priority.{Priority}

-- `struct Node`: value, child, sibling.
pub data Node {ℓ} (T : Type ℓ) : Type ℓ where
  null : Node T
  node : T → Node T → Node T → Node T

pub record PairingHeap {ℓ} (T : Type ℓ) : Type ℓ where
  pub root : Node T
  pub size : ℕ

module _ {ℓ} {T : Type ℓ} ⦃p : Priority T⦄ where
  -- The node that loses becomes the leftmost child of the other, which keeps its own sibling.
  unfoldable pub meld_nodes : Node T → Node T → Node T
  meld_nodes null b = b
  meld_nodes (node av ac an) null = node av ac an
  meld_nodes (node av ac an) (node bv bc bn) =
      if p.comp bv av then node bv (node av ac bc) bn else node av (node bv bc ac) an

  -- Pass 1: the vector `pairs`, for the siblings from `curr` on.
  unfoldable pub pair_siblings : Node T → List (Node T)
  unfolding meld_nodes
  pair_siblings null = []
  pair_siblings (node av ac null) = node av ac null ∷ []
  pair_siblings (node av ac (node bv bc next)) =
      meld_nodes (node av ac null) (node bv bc null) ∷ pair_siblings next

  -- Pass 2: from the last pair back to the first.
  unfoldable pub accumulate : List (Node T) → Node T
  unfolding meld_nodes
  accumulate [] = null
  accumulate (a ∷ []) = a
  accumulate (a ∷ b ∷ rest) = meld_nodes a (accumulate (b ∷ rest))

  unfoldable pub two_pass_merge : Node T → Node T
  unfolding pair_siblings accumulate
  two_pass_merge null = null
  two_pass_merge (node v c null) = node v c null
  two_pass_merge (node v c (node w d s)) = accumulate (pair_siblings (node v c (node w d s)))

  unfoldable pub new_heap : PairingHeap T
  new_heap = record { root = null; size = 0 }

  unfoldable pub empty : PairingHeap T → Bool
  empty h = h.size == 0

  unfoldable pub top : PairingHeap T → Outcome T
  top h = elim h.root [ null ↦ throws underflow_error | node v c s ↦ returns v ]

  unfoldable pub push : T → PairingHeap T → PairingHeap T
  unfolding meld_nodes
  push val h = record { root = meld_nodes h.root (node val null null); size = h.size + 1 }

  -- `--size_` runs only on a heap with a root.
  unfoldable pub pop : PairingHeap T → Outcome (T × PairingHeap T)
  unfolding two_pass_merge
  pop h = elim h.root [
    | null ↦ throws underflow_error
    | node v c s ↦ returns (v, record { root = two_pass_merge c; size = h.size - 1 })
  ]

  -- Whether `other` is this very heap, this heap and `other`; the result is what the two hold after
  -- the call.
  unfoldable pub meld : Bool → PairingHeap T → PairingHeap T → PairingHeap T × PairingHeap T
  unfolding meld_nodes empty
  meld same h other = if same || empty other then (h, other) else (
    record { root = meld_nodes h.root other.root; size = h.size + other.size },
    record { root = null; size = 0 },
  )

  -- `while (!heap.empty()) sorted.push_back(heap.pop());` with fuel; `none` means that it ran out.
  unfoldable pub drain : ℕ → PairingHeap T → Option (List T)
  unfolding pop empty
  drain zero h = if empty h then some [] else none
  drain (suc fuel) h = if empty h then some [] else elim (pop h) [
    | throws e ↦ none
    | faults ↦ none
    | returns (v, h') ↦ Option.map (◌∷◌ v) (drain fuel h')
  ]
