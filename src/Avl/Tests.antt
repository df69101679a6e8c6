-- ===== src/Avl/Tests.antt =====
-- AVLTree run on numbers, and its theorems at concrete inputs.
use awesome_dsa.Prelude.{
  ℕ, ◌+◌, true, none, some, [], ◌∷◌, length, ◌≡◌, refl, ◌↔◌, if◌then◌else◌, ◌==◌,
}
use awesome_dsa.Prelude.Order.{nat_order}
use awesome_dsa.Prelude.Ascending.{Ascending}
use awesome_dsa.Avl.{
  AvlTree, insert, erase, find, contains, new_tree, height, inorder_keys, is_valid_avl,
}
use awesome_dsa.Avl.Size.{one_if}
use awesome_dsa.Avl.Balance.{IsBalanced}
use awesome_dsa.Avl.Class.{
  IsValid, new_tree-IsValid, insert-IsValid, erase-IsValid, find-insert, find-erase, size_changes,
  inorder_keys_lem, is_valid_avl_iff,
}

-- the zig-zag insertions of `main`: an LR and an RL rotation
zigzag : AvlTree ℕ ℕ
zigzag = insert (insert (insert (insert (insert new_tree 30 30) 10 10) 20 20) 50 50) 40 40

zigzag-IsValid : IsValid zigzag
unfolding zigzag
zigzag-IsValid =
    insert-IsValid (insert (insert (insert (insert new_tree 30 30) 10 10) 20 20) 50 50) 40 40 (
      insert-IsValid (insert (insert (insert new_tree 30 30) 10 10) 20 20) 50 50 (
        insert-IsValid (insert (insert new_tree 30 30) 10 10) 20 20 (
          insert-IsValid (insert new_tree 30 30) 10 10
            (insert-IsValid new_tree 30 30 new_tree-IsValid))))

zigzag_runs :
    (height zigzag ≡ 3)
    × (inorder_keys zigzag ≡ 10 ∷ 20 ∷ 30 ∷ 40 ∷ 50 ∷ [])
    × (is_valid_avl zigzag ≡ true)
unfolding zigzag insert new_tree height inorder_keys is_valid_avl
zigzag_runs = (refl, refl, refl)

-- the root has two children
erase_root_runs : inorder_keys (erase zigzag 20).1 ≡ 10 ∷ 30 ∷ 40 ∷ 50 ∷ []
unfolding zigzag insert new_tree erase inorder_keys
erase_root_runs = refl

insert-IsValid_example : IsValid (insert zigzag 45 1)
insert-IsValid_example = insert-IsValid zigzag 45 1 zigzag-IsValid

erase-IsValid_example : IsValid (erase zigzag 20).1
erase-IsValid_example = erase-IsValid zigzag 20 zigzag-IsValid

find-insert_example : find (insert zigzag 45 1) 20 ≡ (if 45 == 20 then some 1 else find zigzag 20)
find-insert_example = find-insert zigzag 45 20 1 zigzag-IsValid

find-erase_example : find (erase zigzag 20).1 30 ≡ (if 20 == 30 then none else find zigzag 30)
find-erase_example = find-erase zigzag 20 30 zigzag-IsValid

size_changes_example :
    ((insert zigzag 20 7).size ≡ (if contains zigzag 20 then zigzag.size else zigzag.size + 1))
    × ((erase zigzag 20).0 ≡ contains zigzag 20)
    × ((erase zigzag 20).1.size + one_if (contains zigzag 20) ≡ zigzag.size)
size_changes_example = size_changes zigzag 20 7 zigzag-IsValid

inorder_keys_example :
    Ascending (inorder_keys zigzag) × (length (inorder_keys zigzag) ≡ zigzag.size)
inorder_keys_example = inorder_keys_lem zigzag zigzag-IsValid

is_valid_avl_iff_example : (is_valid_avl zigzag ≡ true) ↔ IsBalanced zigzag.root
is_valid_avl_iff_example = is_valid_avl_iff zigzag
