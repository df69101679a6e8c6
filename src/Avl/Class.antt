-- ===== src/Avl/Class.antt =====
-- The public methods of AVLTree on a valid tree: as a map from keys to values, with its size, its
-- balance and its traversal.
use awesome_dsa.Prelude.{
  ◌+◌, true, false, none, some, [], length, arith, ◌≡◌, refl, sym, ◌∙◌, ◌↔◌, if◌then◌else◌,
}
use awesome_dsa.Prelude.Order.{Order}
use awesome_dsa.Prelude.Ascending.{Ascending}
use awesome_dsa.Avl.{AvlTree, insert, erase, find, contains, new_tree, inorder_keys, is_valid_avl}
use awesome_dsa.Avl.Rotations.{count, IsOrdered}
use awesome_dsa.Avl.Lookup.{insert_internal-IsOrdered, find_from-insert_internal}
use awesome_dsa.Avl.Removal.{erase_internal-IsOrdered, find_from-erase_internal}
use awesome_dsa.Avl.Size.{
  one_if, inserted_lem, count-insert_internal, count-erase_internal, erased_lem,
}
use awesome_dsa.Avl.Balance.{IsBalanced}
use awesome_dsa.Avl.Height.{
  insert_internal-IsBalanced, erase_internal-IsBalanced, verify_avl_invariants_iff,
}
use awesome_dsa.Avl.Inorder.{inorder_internal_lem, length-keys, keys-Ascending}

module _ {ℓ κ} {K : Type ℓ} {V : Type κ} ⦃o : Order K⦄ where
  -- What every public method keeps: search order, balance, and the count of the nodes.
  pub record IsValid (t : AvlTree K V) : Type 0 where
    pub ordered : IsOrdered t.root
    pub balanced : IsBalanced t.root
    pub counted : t.size ≡ count t.root

  pub new_tree-IsValid : IsValid new_tree
  unfolding new_tree
  new_tree-IsValid = record { ordered = tt; balanced = tt; counted = refl }

  -- Insertion keeps a valid tree valid.
  pub insert-IsValid : (t : AvlTree K V) (q : K) (w : V) → IsValid t → IsValid (insert t q w)
  unfolding insert
  insert-IsValid t q w s = record {
    ordered = insert_internal-IsOrdered t.root q w false s.ordered;
    balanced = (insert_internal-IsBalanced t.root q w false s.balanced).0;
    counted = ground (arith, count-insert_internal t.root q w false, s.counted);
  }

  -- Erasure keeps a valid tree valid.
  pub erase-IsValid : (t : AvlTree K V) (q : K) → IsValid t → IsValid (erase t q).1
  unfolding erase
  erase-IsValid t q s = record {
    ordered = erase_internal-IsOrdered t.root q false s.ordered;
    balanced = (erase_internal-IsBalanced t.root q false s.balanced).0;
    counted = ground (arith, count-erase_internal t.root q false, s.counted);
  }

  -- After `insert` the key reads the new value, and every other key reads as before.
  pub find-insert :
      (t : AvlTree K V) (q p : K) (w : V)
      → IsValid t
      → find (insert t q w) p ≡ (if o.equal q p then some w else find t p)
  unfolding find insert
  find-insert t q p w s = find_from-insert_internal t.root q p w false s.ordered

  -- After `erase` the key is gone, and every other key reads as before.
  pub find-erase :
      (t : AvlTree K V) (q p : K)
      → IsValid t
      → find (erase t q).1 p ≡ (if o.equal q p then none else find t p)
  unfolding find erase
  find-erase t q p s = find_from-erase_internal t.root q p false s.ordered

  -- `insert` adds one to the size exactly when the key was absent; `erase` answers whether the key
  -- was there, and takes one off the size exactly then.
  pub size_changes :
      (t : AvlTree K V) (q : K) (w : V)
      → IsValid t
      → ((insert t q w).size ≡ (if contains t q then t.size else t.size + 1))
        × ((erase t q).0 ≡ contains t q)
        × ((erase t q).1.size + one_if (contains t q) ≡ t.size)
  unfolding insert erase contains
  size_changes t q w s = (
    ground (arith, inserted_lem t.root q w false),
    ground (arith, erased_lem t.root q false s.ordered),
    ground (
      arith,
      erased_lem t.root q false s.ordered,
      count-erase_internal t.root q false,
      s.counted,
    ),
  )

  -- The traversal lists as many keys as the size says, in strictly ascending order.
  pub inorder_keys_lem :
      (t : AvlTree K V)
      → IsValid t
      → Ascending (inorder_keys t) × (length (inorder_keys t) ≡ t.size)
  unfolding inorder_keys
  inorder_keys_lem t s =
      rw (inorder_internal_lem t.root [], Ascending)
        (keys-Ascending t.root s.ordered, length-keys t.root ∙ sym s.counted)

  -- The program's own check accepts exactly the balanced trees.
  pub is_valid_avl_iff : (t : AvlTree K V) → (is_valid_avl t ≡ true) ↔ IsBalanced t.root
  unfolding is_valid_avl
  is_valid_avl_iff t = verify_avl_invariants_iff t.root
