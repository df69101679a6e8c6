-- ===== src/Traversals.antt =====
-- implementations/cpp/tree_traversals.cpp: the traversals of a binary tree, recursive and with
-- explicit stacks. A stack is a list with its top first. A loop has fuel, and `none` means that it ran
-- out or read through a null pointer.
pub mod Iterative
pub mod Forest
pub mod ByLevels
pub mod Nary
mod Tests
use awesome_dsa.Prelude.{
  ℕ, zero, suc, Option, none, some, List, [], ◌∷◌, ◌++◌, ◌+◌, length, if◌then◌else◌,
}
use awesome_dsa.Prelude.Int.{ℤ, pos, negsuc, ◌+ℤ◌, ltb_ℤ}

-- `struct TreeNode`: val, left, right.
-- `std::max`
abbrev pub max_ℤ : ℤ → ℤ → ℤ
max_ℤ a b = if ltb_ℤ a b then b else a

pub data TreeNode {ℓ} (V : Type ℓ) : Type ℓ where
  null : TreeNode V
  node : V → TreeNode V → TreeNode V → TreeNode V

module _ {ℓ} {V : Type ℓ} where
  unfoldable pub preorder_recursive : TreeNode V → List V → List V
  preorder_recursive null out = out
  preorder_recursive (node v l r) out = preorder_recursive r (preorder_recursive l (out ++ v ∷ []))

  unfoldable pub inorder_recursive : TreeNode V → List V → List V
  inorder_recursive null out = out
  inorder_recursive (node v l r) out = inorder_recursive r (inorder_recursive l out ++ v ∷ [])

  unfoldable pub postorder_recursive : TreeNode V → List V → List V
  postorder_recursive null out = out
  postorder_recursive (node v l r) out = postorder_recursive r (postorder_recursive l out) ++ v ∷ []

  -- `if (p) st.push(p);`
  unfoldable pub push_child : TreeNode V → List (TreeNode V) → List (TreeNode V)
  push_child null st = st
  push_child (node v l r) st = node v l r ∷ st

  -- The loop of `preorder_iterative`.
  unfoldable pub preorder_loop : ℕ → List (TreeNode V) → List V → Option (List V)
  unfolding push_child
  preorder_loop zero [] out = some out
  preorder_loop zero (t ∷ st) out = none
  preorder_loop (suc n) [] out = some out
  preorder_loop (suc n) (null ∷ st) out = none
  preorder_loop (suc n) (node v l r ∷ st) out =
      preorder_loop n (push_child l (push_child r st)) (out ++ v ∷ [])

  unfoldable pub preorder_iterative : ℕ → TreeNode V → Option (List V)
  unfolding preorder_loop
  preorder_iterative n null = some []
  preorder_iterative n (node v l r) = preorder_loop n (node v l r ∷ []) []

  -- The inner loop of `inorder_iterative`: the stack after it.
  unfoldable pub push_left : TreeNode V → List (TreeNode V) → List (TreeNode V)
  push_left null st = st
  push_left (node v l r) st = push_left l (node v l r ∷ st)

  -- The outer loop, with `curr` and the stack.
  unfoldable pub inorder_loop : ℕ → TreeNode V → List (TreeNode V) → List V → Option (List V)
  unfolding push_left
  inorder_loop zero null [] out = some out
  inorder_loop zero null (t ∷ st) out = none
  inorder_loop zero (node v l r) st out = none
  inorder_loop (suc n) null [] out = some out
  inorder_loop (suc n) null (null ∷ st) out = none
  inorder_loop (suc n) null (node v l r ∷ st) out = inorder_loop n r st (out ++ v ∷ [])
  inorder_loop (suc n) (node w a b) st out = elim (push_left (node w a b) st) [
    | [] ↦ none
    | null ∷ rest ↦ none
    | node v l r ∷ rest ↦ inorder_loop n r rest (out ++ v ∷ [])
  ]

  unfoldable pub inorder_iterative : ℕ → TreeNode V → Option (List V)
  unfolding inorder_loop
  inorder_iterative n root = inorder_loop n root [] []

  -- The first loop of `postorder_iterative`: what it leaves on the second stack.
  unfoldable pub fill_second :
      ℕ → List (TreeNode V) → List (TreeNode V) → Option (List (TreeNode V))
  unfolding push_child
  fill_second zero [] st2 = some st2
  fill_second zero (t ∷ st1) st2 = none
  fill_second (suc n) [] st2 = some st2
  fill_second (suc n) (null ∷ st1) st2 = none
  fill_second (suc n) (node v l r ∷ st1) st2 =
      fill_second n (push_child r (push_child l st1)) (node v l r ∷ st2)

  -- The second loop.
  unfoldable pub pop_second : List (TreeNode V) → List V → Option (List V)
  pop_second [] out = some out
  pop_second (null ∷ st2) out = none
  pop_second (node v l r ∷ st2) out = pop_second st2 (out ++ v ∷ [])

  unfoldable pub postorder_iterative : ℕ → TreeNode V → Option (List V)
  unfolding fill_second pop_second
  postorder_iterative n null = some []
  postorder_iterative n (node v l r) = elim (fill_second n (node v l r ∷ []) []) [
    | none ↦ none
    | some st2 ↦ pop_second st2 []
  ]

  -- `if (p) q.push(p);`
  unfoldable pub enqueue_child : TreeNode V → List (TreeNode V) → List (TreeNode V)
  enqueue_child null q = q
  enqueue_child (node v l r) q = q ++ node v l r ∷ []

  -- The loop of `level_order`.
  unfoldable pub level_loop : ℕ → List (TreeNode V) → List V → Option (List V)
  unfolding enqueue_child
  level_loop zero [] out = some out
  level_loop zero (t ∷ q) out = none
  level_loop (suc n) [] out = some out
  level_loop (suc n) (null ∷ q) out = none
  level_loop (suc n) (node v l r ∷ q) out =
      level_loop n (enqueue_child r (enqueue_child l q)) (out ++ v ∷ [])

  unfoldable pub level_order : ℕ → TreeNode V → Option (List V)
  unfolding level_loop
  level_order n null = some []
  level_order n (node v l r) = level_loop n (node v l r ∷ []) []

  -- The inner loop of `level_order_by_levels`: the queue and the level after it.
  unfoldable pub one_level : ℕ → List (TreeNode V) → List V → Option (List (TreeNode V) × List V)
  unfolding enqueue_child
  one_level zero q current_level = some (q, current_level)
  one_level (suc i) [] current_level = none
  one_level (suc i) (null ∷ q) current_level = none
  one_level (suc i) (node v l r ∷ q) current_level =
      one_level i (enqueue_child r (enqueue_child l q)) (current_level ++ v ∷ [])

  -- The outer loop.
  unfoldable pub levels_loop : ℕ → List (TreeNode V) → List (List V) → Option (List (List V))
  unfolding one_level
  levels_loop zero [] levels = some levels
  levels_loop zero (t ∷ q) levels = none
  levels_loop (suc n) [] levels = some levels
  levels_loop (suc n) (t ∷ q) levels = elim (one_level (length (t ∷ q)) (t ∷ q) []) [
    | none ↦ none
    | some done ↦ levels_loop n done.0 (levels ++ done.1 ∷ [])
  ]

  unfoldable pub level_order_by_levels : ℕ → TreeNode V → Option (List (List V))
  unfolding levels_loop
  level_order_by_levels n null = some []
  level_order_by_levels n (node v l r) = levels_loop n (node v l r ∷ []) []

  unfoldable pub tree_size : TreeNode V → ℕ
  tree_size null = 0
  tree_size (node v l r) = 1 + tree_size l + tree_size r

  -- The heights are integers: an empty tree has -1.
  unfoldable pub tree_height : TreeNode V → ℤ
  unfolding ◌+ℤ◌
  tree_height null = negsuc 0
  tree_height (node v l r) = pos 1 +ℤ max_ℤ (tree_height l) (tree_height r)
