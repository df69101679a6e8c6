-- ===== src/Merkle/Binding.antt =====
-- A root fixes the leaf that a proof of given directions leads from, unless SHA-256 is broken.
use awesome_dsa.Prelude.{ℕ, List, [], ◌∷◌, length, ◌≡◌, ◌≢◌}
use awesome_dsa.Merkle.Sha256.{hash}
use awesome_dsa.Merkle.{Bytes, MerkleProofStep}

-- two byte strings with the same hash
abbrev pub Collision : Type 0
Collision = (p : Bytes) × (q : Bytes) × (p ≢ q) × (hash p ≡ hash q)

-- The siblings are digests, and the two proofs turn the same way at each step.
abbrev pub SameSides : List MerkleProofStep → List MerkleProofStep → Type 0
SameSides [] [] = Unit
SameSides [] (t ∷ q) = ◌≡◌ {A = ℕ} 0 1
SameSides (s ∷ p) [] = ◌≡◌ {A = ℕ} 0 1
SameSides (s ∷ p) (t ∷ q) =
    (s.is_left ≡ t.is_left)
    × (length s.sibling_hash ≡ 32)
    × (length t.sibling_hash ≡ 32)
    × SameSides p q
