-- ===== src/Traversals/Nary.antt =====
-- N-ary trees, whose children may be null.
pub mod ByLevels
use awesome_dsa.Prelude.{ℕ, zero, suc, Option, none, some, List, [], ◌∷◌, ◌++◌}

mutual
  pub data NaryNode {ℓ} (V : Type ℓ) : Type ℓ where
    null : NaryNode V
    node : V → Children V → NaryNode V

  pub data Children {ℓ} (V : Type ℓ) : Type ℓ where
    end : Children V
    child : NaryNode V → Children V → Children V

unfoldable mutual
  pub nary_preorder_rec {ℓ} : {V : Type ℓ} → NaryNode V → List V → List V
  nary_preorder_rec null out = out
  nary_preorder_rec (node v children) out = preorder_children children (out ++ v ∷ [])

  pub preorder_children {ℓ} : {V : Type ℓ} → Children V → List V → List V
  preorder_children end out = out
  preorder_children (child t children) out = preorder_children children (nary_preorder_rec t out)

unfoldable mutual
  pub nary_postorder_rec {ℓ} : {V : Type ℓ} → NaryNode V → List V → List V
  nary_postorder_rec null out = out
  nary_postorder_rec (node v children) out = postorder_children children out ++ v ∷ []

  pub postorder_children {ℓ} : {V : Type ℓ} → Children V → List V → List V
  postorder_children end out = out
  postorder_children (child t children) out = postorder_children children (nary_postorder_rec t out)

module _ {ℓ} {V : Type ℓ} where
  -- `for (child) if (child) q.push(child);`
  unfoldable pub enqueue_children : Children V → List (NaryNode V) → List (NaryNode V)
  enqueue_children end q = q
  enqueue_children (child null children) q = enqueue_children children q
  enqueue_children (child (node v below) children) q =
      enqueue_children children (q ++ node v below ∷ [])

  -- The loop of `nary_level_order`.
  unfoldable pub nary_loop : ℕ → List (NaryNode V) → List V → Option (List V)
  unfolding enqueue_children
  nary_loop zero [] out = some out
  nary_loop zero (t ∷ q) out = none
  nary_loop (suc n) [] out = some out
  nary_loop (suc n) (null ∷ q) out = none
  nary_loop (suc n) (node v children ∷ q) out =
      nary_loop n (enqueue_children children q) (out ++ v ∷ [])

  unfoldable pub nary_level_order : ℕ → NaryNode V → Option (List V)
  unfolding nary_loop
  nary_level_order n null = some []
  nary_level_order n (node v children) = nary_loop n (node v children ∷ []) []
