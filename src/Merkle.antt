-- ===== src/Merkle.antt =====
-- implementations/cpp/merkle_trees.cpp: class SHA256 in the child Sha256, class MerkleTree here. A
-- string is the list of its bytes.
pub mod Sha256
pub mod Levels
pub mod Proofs
pub mod Binding
pub mod Duplicates
mod Tests
use awesome_dsa.Prelude.{
  ℕ, zero, suc, ◌+◌, ◌-◌, ◌*◌, ◌/◌, ◌%◌, Bool, true, false, ◌&&◌, Option, none, some, List, [], ◌∷◌,
  ◌++◌, map, length, get_elem?, set, ◌==◌, ltb, if◌then◌else◌,
}
use awesome_dsa.Prelude.Outcome.{Outcome, returns, throws, faults, ◌>>=◌}
use awesome_dsa.Merkle.Sha256.{hash}

abbrev pub Bytes : Type 0
Bytes = List ℕ

abbrev pub Digest : Type 0
Digest = List ℕ

pub record MerkleProofStep : Type 0 where
  pub sibling_hash : Digest
  pub is_left : Bool

pub record MerkleTree : Type 0 where
  pub raw_leaves : List Bytes
  pub levels : List (List Digest)

-- The bytes that are hashed for a leaf and for an inner node.
abbrev pub leaf_payload : Bytes → Bytes
leaf_payload content = 0 ∷ content

abbrev pub node_payload : Digest → Digest → Bytes
node_payload left right = 1 ∷ left ++ right

unfoldable pub hash_leaf : Bytes → Digest
hash_leaf content = hash (leaf_payload content)

unfoldable pub hash_node : Digest → Digest → Digest
hash_node left right = hash (node_payload left right)

-- The loop that makes `next_level`.
unfoldable pub next_level : List Digest → List Digest
next_level [] = []
next_level (x ∷ []) = hash_node x x ∷ []
next_level (x ∷ y ∷ level) = hash_node x y ∷ next_level level

-- The levels that the `while` loop of `build` adds above `current_level`, with fuel.
unfoldable pub upper_levels : ℕ → List Digest → List (List Digest)
upper_levels zero current = []
upper_levels (suc n) current =
    let rest = next_level current ∷ upper_levels n (next_level current) in
    if ltb 1 (length current) then rest else []

unfoldable pub build : List Bytes → MerkleTree
build [] = record { raw_leaves = []; levels = (hash [] ∷ []) ∷ [] }
build (leaf ∷ leaves) =
    let current = map hash_leaf (leaf ∷ leaves) in
    record { raw_leaves = leaf ∷ leaves; levels = current ∷ upper_levels (length current) current }

-- `levels_.back()[0]`
unfoldable pub root_of : List (List Digest) → Outcome Digest
root_of [] = faults
root_of ([] ∷ []) = faults
root_of ((x ∷ level) ∷ []) = returns x
root_of (l ∷ m ∷ levels) = root_of (m ∷ levels)

unfoldable pub get_root : MerkleTree → Outcome Digest
unfolding root_of
get_root t = root_of t.levels

-- The step of the proof for the place `idx` of a level.
unfoldable pub proof_step : List Digest → ℕ → Option MerkleProofStep
proof_step level idx =
    if idx % 2 == 1
    then elim (get_elem? level (idx - 1)) [
      | none ↦ none
      | some x ↦ some (record { sibling_hash = x; is_left = true })
    ]
    else if ltb (idx + 1) (length level)
    then elim (get_elem? level (idx + 1)) [
      | none ↦ none
      | some x ↦ some (record { sibling_hash = x; is_left = false })
    ]
    else elim (get_elem? level idx) [
      | none ↦ none
      | some x ↦ some (record { sibling_hash = x; is_left = false })
    ]

-- The loop of `generate_inclusion_proof`, from a level on.
unfoldable pub proof_from : ℕ → List (List Digest) → Outcome (List MerkleProofStep)
unfolding proof_step
proof_from idx [] = returns []
proof_from idx (l ∷ []) = returns []
proof_from idx (l ∷ m ∷ levels) = elim (proof_step l idx) [
  | none ↦ faults
  | some step ↦ proof_from (idx / 2) (m ∷ levels) >>= (λ proof. returns (step ∷ proof))
]

-- A failed assertion faults.
unfoldable pub generate_inclusion_proof : ℕ → MerkleTree → Outcome (List MerkleProofStep)
unfolding proof_from
generate_inclusion_proof leaf_index t =
    if ltb leaf_index (length t.raw_leaves) then proof_from leaf_index t.levels else faults

-- One round of the loop of `verify_inclusion_proof`.
unfoldable pub follow : Digest → MerkleProofStep → Digest
follow current step =
    if step.is_left
    then hash_node step.sibling_hash current
    else hash_node current step.sibling_hash

unfoldable pub follow_all : Digest → List MerkleProofStep → Digest
unfolding follow
follow_all current [] = current
follow_all current (step ∷ proof) = follow_all (follow current step) proof

-- `==` on digests
unfoldable pub same_digest : Digest → Digest → Bool
same_digest [] [] = true
same_digest [] (b ∷ e) = false
same_digest (a ∷ d) [] = false
same_digest (a ∷ d) (b ∷ e) = a == b && same_digest d e

unfoldable pub verify_inclusion_proof : Digest → Bytes → List MerkleProofStep → Bool
unfolding follow_all same_digest
verify_inclusion_proof root leaf_data proof =
    same_digest (follow_all (hash_leaf leaf_data) proof) root

-- The value that `update_leaf` gives the parent of the places `left_child` and `right_child`.
unfoldable pub parent_at : List Digest → ℕ → ℕ → Option Digest
parent_at level left_child right_child = elim (get_elem? level left_child) [
  | none ↦ none
  | some left ↦
      if ltb right_child (length level)
      then elim (get_elem? level right_child) [
        | none ↦ none
        | some right ↦ some (hash_node left right)
      ]
      else some (hash_node left left)
]

unfoldable pub parent_hash : List Digest → ℕ → Option Digest
unfolding parent_at
parent_hash level parent_idx = parent_at level (parent_idx * 2) (parent_idx * 2 + 1)

-- The loop of `update_leaf`, from a level on whose place `idx` has its new value.
unfoldable pub update_from : ℕ → List (List Digest) → Outcome (List (List Digest))
unfolding parent_hash
update_from idx [] = returns []
update_from idx (l ∷ []) = returns (l ∷ [])
update_from idx (l ∷ m ∷ levels) = elim (parent_hash l (idx / 2)) [
  | none ↦ faults
  | some h ↦ update_from (idx / 2) (set m (idx / 2) h ∷ levels) >>= (λ above. returns (l ∷ above))
]

unfoldable pub update_leaf : ℕ → Bytes → MerkleTree → Outcome (Digest × MerkleTree)
unfolding update_from root_of
update_leaf leaf_index new_data t =
    if ltb leaf_index (length t.raw_leaves)
    then elim t.levels [
      | [] ↦ faults
      | l ∷ levels ↦
          update_from leaf_index (set l leaf_index (hash_leaf new_data) ∷ levels) >>= λ updated.
          root_of updated >>= λ root.
          returns
            (root, record { raw_leaves = set t.raw_leaves leaf_index new_data; levels = updated })
    ]
    else faults
