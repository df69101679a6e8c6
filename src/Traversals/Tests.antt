-- ===== src/Traversals/Tests.antt =====
-- Runs of the traversals on one tree, and the theorems at it.
use awesome_dsa.Prelude.{ℕ, some, [], ◌∷◌, length, arith, ◌≡◌, refl}
use awesome_dsa.Prelude.Int.{sub_ℕ}
use awesome_dsa.Traversals.{
  TreeNode, null, node, preorder_recursive, preorder_iterative, inorder_recursive,
  inorder_iterative, postorder_recursive, postorder_iterative, level_order, level_order_by_levels,
  tree_height, tree_size,
}
use awesome_dsa.Traversals.Forest.{depths, concat}
use awesome_dsa.Traversals.ByLevels.{level_orders_lem}
use awesome_dsa.Traversals.Iterative.{iterative_traversals_lem}
use awesome_dsa.Traversals.Nary
use awesome_dsa.Traversals.Nary.{
  NaryNode, end, child, nary_preorder_rec, nary_postorder_rec, nary_level_order,
}
use awesome_dsa.Traversals.Nary.ByLevels.{nary_depths, nary_level_order_lem}

abbrev sample : TreeNode ℕ
sample = node 1 (node 2 (node 4 null null) (node 5 null null)) (node 3 null (node 6 null null))

postorder_iterative_test : postorder_iterative 6 sample ≡ some (4 ∷ 5 ∷ 2 ∷ 6 ∷ 3 ∷ 1 ∷ [])
unfolding postorder_iterative
postorder_iterative_test = refl

iterative_traversals_lem_example :
    (preorder_iterative 6 sample ≡ some (preorder_recursive sample []))
    × (inorder_iterative 6 sample ≡ some (inorder_recursive sample []))
    × (postorder_iterative 6 sample ≡ some (postorder_recursive sample []))
iterative_traversals_lem_example = iterative_traversals_lem sample 6 (omega arith)

level_orders_test :
    level_order_by_levels 3 sample ≡ some ((1 ∷ []) ∷ (2 ∷ 3 ∷ []) ∷ (4 ∷ 5 ∷ 6 ∷ []) ∷ [])
unfolding level_order_by_levels
level_orders_test = refl

level_orders_lem_example :
    (level_order 6 sample ≡ some (concat (depths sample)))
    × (level_order_by_levels 3 sample ≡ some (depths sample))
    × (tree_height sample ≡ sub_ℕ (length (depths sample)) 1)
unfolding tree_size
level_orders_lem_example = level_orders_lem sample 6 3 (omega arith) (omega arith)

-- A node with three children, one of them null.
abbrev nary_sample : NaryNode ℕ
nary_sample = Nary.node 1 (
    child (Nary.node 2 (child (Nary.node 4 end) end))
      (child Nary.null (child (Nary.node 3 end) end)))

nary_preorder_test : nary_preorder_rec nary_sample [] ≡ 1 ∷ 2 ∷ 4 ∷ 3 ∷ []
unfolding nary_preorder_rec
nary_preorder_test = refl

nary_postorder_test : nary_postorder_rec nary_sample [] ≡ 4 ∷ 2 ∷ 3 ∷ 1 ∷ []
unfolding nary_postorder_rec
nary_postorder_test = refl

nary_level_order_lem_example :
    nary_level_order 4 nary_sample ≡ some (concat (nary_depths nary_sample))
nary_level_order_lem_example = nary_level_order_lem nary_sample 4 (omega arith)
