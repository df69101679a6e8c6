-- ===== src/Merkle/Tests.antt =====
-- SHA-256 of a known text, and the theorems at small trees.
use awesome_dsa.Prelude.{List, [], ◌∷◌, true, false, ◌≡◌, ◌++◌, refl}
use awesome_dsa.Prelude.Outcome.{returns}
use awesome_dsa.Merkle.Sha256.{hash}
use awesome_dsa.Merkle.{
  Bytes, Digest, MerkleProofStep, hash_leaf, build, get_root, generate_inclusion_proof,
  verify_inclusion_proof,
}
use awesome_dsa.Merkle.Proofs.{verify-generate_inclusion_proof}
use awesome_dsa.Merkle.Duplicates.{get_root-build_repeated}

-- "abc", the first example of FIPS 180-4
hash_abc_test :
    hash (0x61 ∷ 0x62 ∷ 0x63 ∷ [])
    ≡ 0xba ∷ 0x78 ∷ 0x16 ∷ 0xbf ∷ 0x8f ∷ 0x01 ∷ 0xcf ∷ 0xea ∷ 0x41 ∷ 0x41 ∷ 0x40 ∷ 0xde ∷ 0x5d
      ∷ 0xae ∷ 0x22 ∷ 0x23 ∷ 0xb0 ∷ 0x03 ∷ 0x61 ∷ 0xa3 ∷ 0x96 ∷ 0x17 ∷ 0x7a ∷ 0x9c ∷ 0xb4 ∷ 0x10
      ∷ 0xff ∷ 0x61 ∷ 0xf2 ∷ 0x00 ∷ 0x15 ∷ 0xad ∷ []
unfolding hash
hash_abc_test = refl

abbrev alice : Bytes
alice = 0x61 ∷ 0x6c ∷ []

abbrev bob : Bytes
bob = 0x62 ∷ 0x6f ∷ []

abbrev three_leaves : List Bytes
three_leaves = alice ∷ bob ∷ (1 ∷ []) ∷ []

verify-generate_inclusion_proof_example :
    (proof : List MerkleProofStep) × (root : Digest) × (generate_inclusion_proof 2
        (build three_leaves)
      ≡ returns proof)
    × (get_root (build three_leaves) ≡ returns root)
    × (verify_inclusion_proof root (1 ∷ []) proof ≡ true)
verify-generate_inclusion_proof_example =
    verify-generate_inclusion_proof three_leaves 2 (1 ∷ []) refl

get_root-build_repeated_example :
    get_root (build (alice ∷ bob ∷ [] ++ bob ∷ []))
    ≡ get_root (build (alice ∷ bob ∷ [] ++ bob ∷ bob ∷ []))
get_root-build_repeated_example = get_root-build_repeated alice (bob ∷ []) bob refl

abbrev one_step : List MerkleProofStep
one_step = record { sibling_hash = hash_leaf bob; is_left = false } ∷ []
