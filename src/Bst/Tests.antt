-- ===== src/Bst/Tests.antt =====
-- BinarySearchTree run on numbers, and its theorems at concrete inputs.
use awesome_dsa.Prelude.{
  ℕ, ◌+◌, true, false, none, some, [], ◌∷◌, length, ◌≡◌, refl, if◌then◌else◌, ◌==◌, ltb,
}
use awesome_dsa.Prelude.Order.{nat_order}
use awesome_dsa.Prelude.Ascending.{Ascending}
use awesome_dsa.Prelude.Tally.{one_if}
use awesome_dsa.Bst.{
  BinarySearchTree, new_tree, insert, remove, contains, inorder, min_value, max_value, successor,
  predecessor,
}
use awesome_dsa.Bst.Neighbours.{first_that, last_that, any}
use awesome_dsa.Bst.Class.{IsValid, new_tree-IsValid, insert_lem, remove_lem, inorder_lem}

sample : BinarySearchTree ℕ
sample = (insert (insert (insert (insert new_tree 50).1 30).1 70).1 60).1

sample-IsValid : IsValid sample
unfolding sample
sample-IsValid =
    (insert_lem (insert (insert (insert new_tree 50).1 30).1 70).1 60
      (insert_lem (insert (insert new_tree 50).1 30).1 70
        (insert_lem (insert new_tree 50).1 30 (insert_lem new_tree 50 new_tree-IsValid).0).0).0).0

sample_runs :
    (inorder sample ≡ 30 ∷ 50 ∷ 60 ∷ 70 ∷ [])
    × (inorder (remove sample 50).1 ≡ 30 ∷ 60 ∷ 70 ∷ [])
    × (successor sample 50 ≡ some 60)
    × (predecessor sample 30 ≡ none)
unfolding sample insert new_tree inorder remove successor predecessor
sample_runs = (refl, refl, refl, refl)

insert_example :
    IsValid (insert sample 40).1
    × ((p : ℕ) → contains (insert sample 40).1 p ≡ (if 40 == p then true else contains sample p))
    × ((insert sample 40).0 ≡ (if contains sample 40 then false else true))
    × ((insert sample 40).1.size ≡ sample.size + one_if (insert sample 40).0)
insert_example = insert_lem sample 40 sample-IsValid

remove_example :
    IsValid (remove sample 50).1
    × ((p : ℕ) → contains (remove sample 50).1 p ≡ (if 50 == p then false else contains sample p))
    × ((remove sample 50).0 ≡ contains sample 50)
    × ((remove sample 50).1.size + one_if (contains sample 50) ≡ sample.size)
remove_example = remove_lem sample 50 sample-IsValid

inorder_example :
    Ascending (inorder sample)
    × (length (inorder sample) ≡ sample.size)
    × (min_value sample ≡ first_that any (inorder sample))
    × (max_value sample ≡ last_that any (inorder sample))
    × ((q : ℕ) → successor sample q ≡ first_that (ltb q) (inorder sample))
    × ((q : ℕ) → predecessor sample q ≡ last_that (λ x. ltb x q) (inorder sample))
inorder_example = inorder_lem sample sample-IsValid
