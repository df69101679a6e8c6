-- ===== src/Bst.antt =====
-- implementations/cpp/binary_search_tree.cpp, class BinarySearchTree. Its `int` keys are only
-- compared, so the model takes any key type with the comparisons `<`, `>` and `==`.
pub mod Sorted
pub mod Search
pub mod Neighbours
pub mod Count
pub mod Class
mod Tests
use awesome_dsa.Prelude.{
  ℕ, ◌+◌, ◌-◌, Bool, true, false, Option, none, some, List, [], ◌∷◌, ◌++◌, ◌==◌, if◌then◌else◌,
}
use awesome_dsa.Prelude.Order.{Order}

-- `struct Node`, null being `leaf`.
pub data Node {ℓ} (K : Type ℓ) : Type ℓ where
  leaf : Node K
  node : Node K → K → Node K → Node K

pub record BinarySearchTree {ℓ} (K : Type ℓ) : Type ℓ where
  pub root : Node K
  pub size : ℕ

module _ {ℓ} {K : Type ℓ} where
  unfoldable pub new_tree : BinarySearchTree K
  new_tree = record { root = leaf; size = 0 }

  unfoldable pub empty : BinarySearchTree K → Bool
  empty t = t.size == 0

  unfoldable pub inorder_recursive : Node K → List K → List K
  inorder_recursive leaf out = out
  inorder_recursive (node l k r) out = inorder_recursive r (inorder_recursive l out ++ k ∷ [])

  unfoldable pub inorder : BinarySearchTree K → List K
  unfolding inorder_recursive
  inorder t = inorder_recursive t.root []

  -- The key of the node where the walk along the left children, or the right ones, ends.
  unfoldable pub leftmost : Node K → Option K
  leftmost leaf = none
  leftmost (node leaf k r) = some k
  leftmost (node (node a x b) k r) = leftmost (node a x b)

  unfoldable pub rightmost : Node K → Option K
  rightmost leaf = none
  rightmost (node l k leaf) = some k
  rightmost (node l k (node a x b)) = rightmost (node a x b)

  unfoldable pub min_value : BinarySearchTree K → Option K
  unfolding leftmost
  min_value t = leftmost t.root

  unfoldable pub max_value : BinarySearchTree K → Option K
  unfolding rightmost
  max_value t = rightmost t.root

module _ {ℓ} {K : Type ℓ} ⦃o : Order K⦄ where
  -- The loop of `insert` from the node `cur`; a new node takes the place of the null that the walk
  -- meets, the root's included. The flag is the result.
  unfoldable pub insert_from : Node K → K → Node K × Bool
  insert_from leaf key = (node leaf key leaf, true)
  insert_from (node l k r) key =
      let left = insert_from l key in
      let right = insert_from r key in
      if o.equal key k
      then (node l k r, false)
      else if o.less key k
      then (node left.0 k r, left.1)
      else (node l k right.0, right.1)

  unfoldable pub insert : BinarySearchTree K → K → Bool × BinarySearchTree K
  unfolding insert_from
  insert t key =
      let (root, added) = insert_from t.root key in
      (added, record { root = root; size = if added then t.size + 1 else t.size })

  -- The loop of `contains`.
  unfoldable pub contains_from : Node K → K → Bool
  contains_from leaf key = false
  contains_from (node l k r) key =
      let left = contains_from l key in
      let right = contains_from r key in
      if o.equal key k then true else if o.less key k then left else right

  unfoldable pub contains : BinarySearchTree K → K → Bool
  unfolding contains_from
  contains t key = contains_from t.root key

  -- The case of `remove_node` at the node found; `again` removes a key from the right subtree. The
  -- loop for `succ` ends at a node, since the right subtree is not null.
  unfoldable pub remove_found : Node K → Node K → (K → Node K × Bool) → Node K × Bool
  unfolding leftmost
  remove_found leaf r again = (r, true)
  remove_found (node ll lk lr) leaf again = (node ll lk lr, true)
  remove_found (node ll lk lr) (node rl rk rr) again = elim (leftmost (node rl rk rr)) [
    | none ↦ (node ll lk lr, true)
    | some s ↦ let rest = again s in (node (node ll lk lr) s rest.0, rest.1)
  ]

  -- The flag is what the call leaves in `removed`.
  unfoldable pub remove_node : Node K → K → Bool → Node K × Bool
  unfolding remove_found
  remove_node leaf key removed = (leaf, removed)
  remove_node (node l k r) key removed =
      let left = remove_node l key removed in
      let right = remove_node r key removed in
      if o.less key k
      then (node left.0 k r, left.1)
      else if o.less k key
      then (node l k right.0, right.1)
      else remove_found l r (λ s. remove_node r s true)

  unfoldable pub remove : BinarySearchTree K → K → Bool × BinarySearchTree K
  unfolding remove_node
  remove t key =
      let (root, removed) = remove_node t.root key false in
      (removed, record { root = root; size = if removed then t.size - 1 else t.size })

  -- The loops of `successor` and `predecessor`: the last node where the walk turned left, or right.
  unfoldable pub successor_from : Node K → K → Option K → Option K
  successor_from leaf key succ = succ
  successor_from (node l k r) key succ =
      let left = successor_from l key (some k) in
      let right = successor_from r key succ in if o.less key k then left else right

  unfoldable pub predecessor_from : Node K → K → Option K → Option K
  predecessor_from leaf key before = before
  predecessor_from (node l k r) key before =
      let right = predecessor_from r key (some k) in
      let left = predecessor_from l key before in if o.less k key then right else left

  unfoldable pub successor : BinarySearchTree K → K → Option K
  unfolding successor_from
  successor t key = successor_from t.root key none

  unfoldable pub predecessor : BinarySearchTree K → K → Option K
  unfolding predecessor_from
  predecessor t key = predecessor_from t.root key none
