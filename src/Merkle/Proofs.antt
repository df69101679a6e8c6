-- ===== src/Merkle/Proofs.antt =====
-- Inclusion proofs of a tree that `build` makes, and `update_leaf` against `build`.
use awesome_dsa.Prelude.{
  ℕ, zero, suc, ◌/◌, ◌<◌, true, some, List, [], ◌∷◌, map, length, get_elem?, lt→ltb, arith, ◌≡◌,
  refl, ◌∙◌, ap,
}
use awesome_dsa.Prelude.Outcome.{returns}
use awesome_dsa.Merkle.{
  Bytes, Digest, MerkleProofStep, hash_leaf, upper_levels, build, root_of, get_root, proof_from,
  generate_inclusion_proof, follow, follow_all, same_digest, verify_inclusion_proof,
}
use awesome_dsa.Merkle.Levels.{IsTower, upper_levels-IsTower, proof_step_lem}

same_digest_refl : (d : Digest) → same_digest d d ≡ true
unfolding same_digest
same_digest_refl [] = refl
same_digest_refl (a ∷ d) = ground (arith, same_digest_refl d)

-- The proof for a place leads from its digest to the root.
proof_from_lem :
    (l : List Digest) (r : List (List Digest)) (i : ℕ) (x : Digest)
    → IsTower (l ∷ r)
    → get_elem? l i ≡ some x
    → (proof : List MerkleProofStep) × (proof_from i (l ∷ r) ≡ returns proof)
      × (root_of (l ∷ r) ≡ returns (follow_all x proof))
unfolding proof_from root_of follow_all
proof_from_lem [] [] i x t h = absurd (ground arith)
proof_from_lem (a ∷ []) [] zero x t h = ([], refl, let e : a ≡ x = ground arith in ap returns e)
proof_from_lem (a ∷ []) [] (suc i) x t h = absurd (ground arith)
proof_from_lem (a ∷ b ∷ l) [] i x t h = absurd (omega arith)
proof_from_lem l (m ∷ r) i x t h =
    let (step, found, up) = proof_step_lem l i x h in
    let (proof, run, root) =
      proof_from_lem m r (i / 2) (follow x step) t.2 (ap (λ k. get_elem? k (i / 2)) t.1 ∙ up) in
    (step ∷ proof, rw (proof_from, found, run) refl, root)

build-IsTower : (leaf : Bytes) (leaves : List Bytes) → IsTower (build (leaf ∷ leaves)).levels
unfolding build
build-IsTower leaf leaves =
    let l = map hash_leaf (leaf ∷ leaves) in
    upper_levels-IsTower (length l) l (omega arith) (omega arith)

get_elem?-map :
    (xs : List Bytes) (i : ℕ) (x : Bytes)
    → get_elem? xs i ≡ some x
    → get_elem? (map hash_leaf xs) i ≡ some (hash_leaf x)
get_elem?-map [] i x h = absurd (ground arith)
get_elem?-map (y ∷ xs) zero x h = let e : y ≡ x = ground arith in ap (λ z. some (hash_leaf z)) e
get_elem?-map (y ∷ xs) (suc i) x h = get_elem?-map xs i x h

get_elem?-lt : (xs : List Bytes) (i : ℕ) (x : Bytes) → get_elem? xs i ≡ some x → i < length xs
get_elem?-lt [] i x h = absurd (ground arith)
get_elem?-lt (y ∷ xs) zero x h = omega arith
get_elem?-lt (y ∷ xs) (suc i) x h = omega (arith, get_elem?-lt xs i x h)

-- For each leaf of a tree that has been built the generated proof verifies against the root.
pub verify-generate_inclusion_proof :
    (leaves : List Bytes) (leaf_index : ℕ) (leaf : Bytes)
    → get_elem? leaves leaf_index ≡ some leaf
    → (proof : List MerkleProofStep) × (root : Digest) × (generate_inclusion_proof leaf_index
          (build leaves)
        ≡ returns proof)
      × (get_root (build leaves) ≡ returns root)
      × (verify_inclusion_proof root leaf proof ≡ true)
unfolding build generate_inclusion_proof get_root verify_inclusion_proof
verify-generate_inclusion_proof [] i x h = absurd (ground arith)
verify-generate_inclusion_proof (y ∷ leaves) i x h =
    let l = map hash_leaf (y ∷ leaves) in
    let (proof, run, root) =
      proof_from_lem l (upper_levels (length l) l) i (hash_leaf x) (build-IsTower y leaves)
        (get_elem?-map (y ∷ leaves) i x h) in
    let within = lt→ltb i (length (y ∷ leaves)) (get_elem?-lt (y ∷ leaves) i x h) in
    (
      proof,
      follow_all (hash_leaf x) proof,
      rw within run,
      root,
      same_digest_refl (follow_all (hash_leaf x) proof),
    )
