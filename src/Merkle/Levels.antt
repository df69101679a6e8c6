-- ===== src/Merkle/Levels.antt =====
-- The levels of a tree: each is made from the one below, up to a level with one digest.
use mathlib.Core.Path.{subst}
use awesome_dsa.Prelude.{
  ℕ, zero, suc, ◌+◌, ◌-◌, ◌*◌, ◌/◌, ◌%◌, ◌≤◌, ◌<◌, true, false, Option, some, List, [], ◌∷◌, length,
  get_elem?, set, ltb, arith, ◌≡◌, refl, sym, ◌∙◌, ap, Bool-cases, inl, inr,
}
use awesome_dsa.Prelude.Outcome.{Never}
use awesome_dsa.Merkle.{
  Digest, MerkleProofStep, hash_node, next_level, upper_levels, proof_step, follow, parent_at,
  parent_hash,
}

-- Each level but the last has more than one digest and the next is made from it; the last has one.
abbrev pub IsTower : List (List Digest) → Type 0
IsTower [] = Never
IsTower (l ∷ []) = length l ≡ 1
IsTower (l ∷ m ∷ levels) = (1 < length l) × (m ≡ next_level l) × IsTower (m ∷ levels)

pub length-next_level : (l : List Digest) → length (next_level l) ≡ (length l + 1) / 2
unfolding next_level
length-next_level [] = refl
length-next_level (x ∷ []) = refl
length-next_level (x ∷ y ∷ l) = omega (arith, length-next_level l)

pub upper_levels-IsTower :
    (n : ℕ) (l : List Digest) → length l ≤ n → 0 < length l → IsTower (l ∷ upper_levels n l)
unfolding upper_levels
upper_levels-IsTower zero l h p = absurd (omega arith)
upper_levels-IsTower (suc n) l h p = elim (Bool-cases (ltb 1 (length l))) [
  | inl more ↦
      rw (upper_levels, more)
        (
          ground arith,
          refl,
          upper_levels-IsTower n (next_level l) (ground (arith, length-next_level l))
              (ground (arith, length-next_level l)),
        )
  | inr last ↦ rw (upper_levels, last) (ground arith)
]

-- The levels above a level are determined by it.
pub IsTower-unique :
    (l : List Digest) (r s : List (List Digest)) → IsTower (l ∷ r) → IsTower (l ∷ s) → r ≡ s
IsTower-unique l [] [] h k = refl
IsTower-unique l [] (m ∷ s) h k = absurd (omega arith)
IsTower-unique l (m ∷ r) [] h k = absurd (omega arith)
IsTower-unique l (m ∷ r) (m' ∷ s) h k =
    let e : m' ≡ m = k.1 ∙ sym h.1 in
    let k' : IsTower (m ∷ s) = subst (λ x. IsTower (x ∷ s)) e k.2 in
    cc (e, IsTower-unique m r s h.2 k')

proof_step_shift :
    (a b : Digest) (l : List Digest) (i : ℕ) → proof_step (a ∷ b ∷ l) (suc (suc i)) ≡ proof_step l i
unfolding proof_step
proof_step_shift a b l zero = ground arith
proof_step_shift a b l (suc i) =
    let parity : suc (suc (suc i)) % 2 ≡ suc i % 2 = omega arith in
    let before : suc (suc (suc i)) - 1 ≡ suc (suc i) = omega arith in
    let after : suc (suc (suc i)) + 1 ≡ suc (suc (suc (suc i))) = omega arith in
    let before' : suc i - 1 ≡ i = omega arith in
    let after' : suc i + 1 ≡ suc (suc i) = omega arith in
    rw (parity, before, after, before', after') (ground arith)

first_hash :
    (a b x : Digest)
    → ◌≡◌ {A = Option Digest} (some a) (some x)
    → ◌≡◌ {A = Option Digest} (some (hash_node a b)) (some (hash_node x b))
first_hash a b x h = let e : a ≡ x = ground arith in ap (λ y. some (hash_node y b)) e

second_hash :
    (a b x : Digest)
    → ◌≡◌ {A = Option Digest} (some b) (some x)
    → ◌≡◌ {A = Option Digest} (some (hash_node a b)) (some (hash_node a x))
second_hash a b x h = let e : b ≡ x = ground arith in ap (λ y. some (hash_node a y)) e

-- The proof's step for a place leads from its digest to that of its parent.
pub proof_step_lem :
    (l : List Digest) (i : ℕ) (x : Digest)
    → get_elem? l i ≡ some x
    → (step : MerkleProofStep) × (proof_step l i ≡ some step)
      × (get_elem? (next_level l) (i / 2) ≡ some (follow x step))
unfolding proof_step next_level follow
proof_step_lem [] i x h = absurd (ground arith)
proof_step_lem (a ∷ []) zero x h =
    (record { sibling_hash = a; is_left = false }, ground arith, first_hash a a x h)
proof_step_lem (a ∷ []) (suc i) x h = absurd (ground arith)
proof_step_lem (a ∷ b ∷ l) zero x h =
    (record { sibling_hash = b; is_left = false }, ground arith, first_hash a b x h)
proof_step_lem (a ∷ b ∷ l) (suc zero) x h =
    (record { sibling_hash = a; is_left = true }, refl, second_hash a b x h)
proof_step_lem (a ∷ b ∷ l) (suc (suc i)) x h =
    let (step, found, up) = proof_step_lem l i x h in
    (
      step,
      proof_step_shift a b l i ∙ found,
      let half : suc (suc i) / 2 ≡ suc (i / 2) = omega arith in rw half up,
    )

parent_at_shift :
    (a b : Digest) (l : List Digest) (i j : ℕ)
    → parent_at (a ∷ b ∷ l) (suc (suc i)) (suc (suc j)) ≡ parent_at l i j
unfolding parent_at
parent_at_shift a b l i j = ground arith

parent_hash_shift :
    (a b : Digest) (l : List Digest) (k : ℕ) → parent_hash (a ∷ b ∷ l) (suc k) ≡ parent_hash l k
unfolding parent_hash
parent_hash_shift a b l k =
    let left : suc k * 2 ≡ suc (suc (k * 2)) = omega arith in
    let right : suc (suc (k * 2)) + 1 ≡ suc (suc (k * 2 + 1)) = omega arith in
    ap (λ j. parent_at (a ∷ b ∷ l) j (j + 1)) left
    ∙ ap (λ j. parent_at (a ∷ b ∷ l) (suc (suc (k * 2))) j) right
    ∙ parent_at_shift a b l (k * 2) (k * 2 + 1)

-- Where a place of a level has been changed, the parent's new digest makes the next level right.
pub parent_hash_lem :
    (l : List Digest) (i : ℕ) (v : Digest)
    → i < length l
    → (h : Digest) × (parent_hash (set l i v) (i / 2) ≡ some h)
      × (set (next_level l) (i / 2) h ≡ next_level (set l i v))
unfolding parent_hash next_level
parent_hash_lem [] i v lt = elim lt [ ]
parent_hash_lem (a ∷ []) zero v lt = (hash_node v v, refl, refl)
parent_hash_lem (a ∷ []) (suc i) v lt = absurd (omega arith)
parent_hash_lem (a ∷ b ∷ l) zero v lt = (hash_node v b, ground arith, refl)
parent_hash_lem (a ∷ b ∷ l) (suc zero) v lt = (hash_node a v, ground arith, refl)
parent_hash_lem (a ∷ b ∷ l) (suc (suc i)) v lt =
    let (h, found, up) = parent_hash_lem l i v (omega arith) in
    let half : suc (suc i) / 2 ≡ suc (i / 2) = omega arith in
    (
      h,
      rw half (parent_hash_shift a b (set l i v) (i / 2) ∙ found),
      rw half (ap (◌∷◌ (hash_node a b)) up),
    )
