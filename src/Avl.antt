-- ===== src/Avl.antt =====
-- implementations/cpp/avl_tree.cpp, class AVLTree: the private static functions on nodes and the
-- public methods. A `Node*` that owns its two subtrees is a tree, null is `leaf`.
pub mod Rotations
pub mod Lookup
pub mod Inorder
pub mod Class
mod Tests
pub mod Height
pub mod Size
pub mod Balance
pub mod Removal
pub mod Erase
use awesome_dsa.Prelude.{
  ℕ, ◌+◌, ◌-◌, Bool, true, false, not, ◌&&◌, ◌||◌, Option, none, some, List, [], ◌∷◌, ◌++◌, ◌==◌,
  max, if◌then◌else◌,
}
use awesome_dsa.Prelude.Int.{ℤ, pos, negsuc, sub_ℕ, ltb_ℤ}
use awesome_dsa.Prelude.Order.{Order}

-- `struct Node`. The stored height is an `int` that is never negative.
pub data Node {ℓ κ} (K : Type ℓ) (V : Type κ) : Type (ℓ ⊔ κ) where
  leaf : Node K V
  node : Node K V → K → V → ℕ → Node K V → Node K V

pub record AvlTree {ℓ κ} (K : Type ℓ) (V : Type κ) : Type (ℓ ⊔ κ) where
  pub root : Node K V
  pub size : ℕ

module _ {ℓ κ} {K : Type ℓ} {V : Type κ} where
  abbrev pub get_height : Node K V → ℕ
  get_height leaf = 0
  get_height (node l k v h r) = h

  unfoldable pub get_balance_factor : Node K V → ℤ
  get_balance_factor leaf = pos 0
  get_balance_factor (node l k v h r) = sub_ℕ (get_height l) (get_height r)

  unfoldable pub update_height : Node K V → Node K V
  update_height leaf = leaf
  update_height (node l k v h r) = node l k v (1 + max (get_height l) (get_height r)) r

  -- A rotation reads the child that rises; on a null child the code's behaviour is undefined, and
  -- `rebalance` makes no such call.
  unfoldable pub rotate_right : Node K V → Node K V
  unfolding update_height
  rotate_right (node (node a xk xv xh b) yk yv yh c) =
      update_height (node a xk xv xh (update_height (node b yk yv yh c)))
  rotate_right n = n

  unfoldable pub rotate_left : Node K V → Node K V
  unfolding update_height
  rotate_left (node a xk xv xh (node b yk yv yh c)) =
      update_height (node (update_height (node a xk xv xh b)) yk yv yh c)
  rotate_left n = n

  -- `if (get_balance_factor(n->left) < 0) n->left = rotate_left(n->left);`
  unfoldable pub fix_left : Node K V → Node K V
  unfolding rotate_left get_balance_factor
  fix_left leaf = leaf
  fix_left (node l k v h r) =
      if ltb_ℤ (get_balance_factor l) (pos 0) then node (rotate_left l) k v h r else node l k v h r

  -- `if (get_balance_factor(n->right) > 0) n->right = rotate_right(n->right);`
  unfoldable pub fix_right : Node K V → Node K V
  unfolding rotate_right get_balance_factor
  fix_right leaf = leaf
  fix_right (node l k v h r) =
      if ltb_ℤ (pos 0) (get_balance_factor r) then node l k v h (rotate_right r) else node l k v h r

  unfoldable pub rebalance : Node K V → Node K V
  unfolding update_height get_balance_factor fix_left fix_right
  rebalance n =
      let m = update_height n in
      let bf = get_balance_factor m in
      if ltb_ℤ (pos 1) bf
      then rotate_right (fix_left m)
      else if ltb_ℤ bf (negsuc 0)
      then rotate_left (fix_right m)
      else m

  -- The loop of `find_min` follows the left children; the pair is the key and value of the node
  -- that it returns, null for a null argument.
  unfoldable pub find_min : Node K V → Option (K × V)
  find_min leaf = none
  find_min (node leaf k v h r) = some (k, v)
  find_min (node (node a xk xv xh b) k v h r) = find_min (node a xk xv xh b)

  unfoldable pub inorder_internal : Node K V → List K → List K
  inorder_internal leaf out = out
  inorder_internal (node l k v h r) out = inorder_internal r (inorder_internal l out ++ k ∷ [])

  unfoldable pub verify_avl_invariants : Node K V → Bool
  unfolding get_balance_factor
  verify_avl_invariants leaf = true
  verify_avl_invariants (node l k v h r) =
      let bf = get_balance_factor (node l k v h r) in
      if ltb_ℤ bf (negsuc 0) || ltb_ℤ (pos 1) bf
      then false
      else if not (h == 1 + max (get_height l) (get_height r))
      then false
      else verify_avl_invariants l && verify_avl_invariants r

module _ {ℓ κ} {K : Type ℓ} {V : Type κ} ⦃o : Order K⦄ where
  -- The second part of the result is what the call leaves in `inserted`.
  unfoldable pub insert_internal : Node K V → K → V → Bool → Node K V × Bool
  unfolding rebalance
  insert_internal leaf key val inserted = (node leaf key val 1 leaf, true)
  insert_internal (node l k v h r) key val inserted =
      let left = insert_internal l key val inserted in
      let right = insert_internal r key val inserted in
      if o.less key k
      then (rebalance (node left.0 k v h r), left.1)
      else if o.less k key
      then (rebalance (node l k v h right.0), right.1)
      else (node l k val h r, false)

  -- The case of `erase_internal` at the node found, with one child at most, or with two: the node
  -- takes its successor's key and value, and `again` erases the successor from the right subtree.
  -- `find_min` of a subtree that is not null is not null.
  unfoldable pub erase_found : Node K V → ℕ → Node K V → (K → Node K V × Bool) → Node K V × Bool
  unfolding rebalance find_min
  erase_found leaf h r again = (r, true)
  erase_found (node ll lk lv lh lr) h leaf again = (node ll lk lv lh lr, true)
  erase_found (node ll lk lv lh lr) h (node rl rk rv rh rr) again =
      elim (find_min (node rl rk rv rh rr)) [
        | none ↦ (node ll lk lv lh lr, true)
        | some s ↦
            let rest = again s.0 in
            (rebalance (node (node ll lk lv lh lr) s.0 s.1 h rest.0), rest.1)
      ]

  unfoldable pub erase_internal : Node K V → K → Bool → Node K V × Bool
  unfolding erase_found
  erase_internal leaf key erased = (leaf, false)
  erase_internal (node l k v h r) key erased =
      let left = erase_internal l key erased in
      let right = erase_internal r key erased in
      if o.less key k
      then (rebalance (node left.0 k v h r), left.1)
      else if o.less k key
      then (rebalance (node l k v h right.0), right.1)
      else erase_found l h r (λ q. erase_internal r q true)

  -- The loop of `find`, from the node `curr`.
  unfoldable pub find_from : Node K V → K → Option V
  find_from leaf key = none
  find_from (node l k v h r) key =
      let left = find_from l key in
      let right = find_from r key in
      if o.less key k then left else if o.less k key then right else some v

  unfoldable pub insert : AvlTree K V → K → V → AvlTree K V
  unfolding insert_internal
  insert t key val =
      let (root, inserted) = insert_internal t.root key val false in
      record { root = root; size = if inserted then t.size + 1 else t.size }

  unfoldable pub erase : AvlTree K V → K → Bool × AvlTree K V
  unfolding erase_internal
  erase t key =
      let (root, erased) = erase_internal t.root key false in
      (erased, record { root = root; size = if erased then t.size - 1 else t.size })

  unfoldable pub find : AvlTree K V → K → Option V
  unfolding find_from
  find t key = find_from t.root key

  unfoldable pub contains : AvlTree K V → K → Bool
  unfolding find
  contains t key = elim (find t key) [ none ↦ false | some _ ↦ true ]

module _ {ℓ κ} {K : Type ℓ} {V : Type κ} where
  -- `AVLTree()`
  unfoldable pub new_tree : AvlTree K V
  new_tree = record { root = leaf; size = 0 }

  unfoldable pub empty : AvlTree K V → Bool
  empty t = t.size == 0

  unfoldable pub height : AvlTree K V → ℕ
  height t = get_height t.root

  unfoldable pub inorder_keys : AvlTree K V → List K
  unfolding inorder_internal
  inorder_keys t = inorder_internal t.root []

  unfoldable pub is_valid_avl : AvlTree K V → Bool
  unfolding verify_avl_invariants
  is_valid_avl t = verify_avl_invariants t.root

  -- `AVLTree(AVLTree&& other)`: the new tree, and what is left in `other`.
  unfoldable pub move : AvlTree K V → AvlTree K V × AvlTree K V
  move other = (record { root = other.root; size = other.size }, record { root = leaf; size = 0 })
