-- ===== src/Bst/Class.antt =====
-- The public methods of BinarySearchTree on a valid tree: a set of keys.
use awesome_dsa.Prelude.{
  ◌+◌, true, false, Option, some, none, length, arith, ◌≡◌, refl, sym, ◌∙◌, if◌then◌else◌, [],
}
use awesome_dsa.Prelude.Order.{Order}
use awesome_dsa.Prelude.Ascending.{Ascending}
use awesome_dsa.Prelude.Tally.{one_if}
use awesome_dsa.Bst.{
  BinarySearchTree, new_tree, insert, remove, contains, inorder, min_value, max_value, successor,
  predecessor,
}
use awesome_dsa.Bst.Sorted.{
  count, IsOrdered, insert_from-IsOrdered, remove_node-IsOrdered, count-insert_from,
}
use awesome_dsa.Bst.Search.{contains_from-insert_from, added_lem, contains_from-remove_node}
use awesome_dsa.Bst.Count.{removed_lem, count-remove_node}
use awesome_dsa.Bst.Neighbours.{
  or_else, first_that, last_that, keys, inorder_recursive_lem, length-keys, keys-Ascending, any,
  leftmost-first, rightmost-last, successor_from_lem, predecessor_from_lem,
}

or_else-none {ℓ} : {A : Type ℓ} (a : Option A) → or_else a none ≡ a
or_else-none none = refl
or_else-none (some a) = refl

module _ {ℓ} {K : Type ℓ} ⦃o : Order K⦄ where
  -- Search order, and the size the number of nodes.
  pub record IsValid (t : BinarySearchTree K) : Type 0 where
    pub ordered : IsOrdered t.root
    pub counted : t.size ≡ count t.root

  pub new_tree-IsValid : IsValid new_tree
  unfolding new_tree
  new_tree-IsValid = record { ordered = tt; counted = refl }

  -- `insert` keeps a tree valid and adds the key to the set; it answers whether the key was absent,
  -- and the size grows by one exactly then.
  pub insert_lem :
      (t : BinarySearchTree K) (q : K)
      → IsValid t
      → IsValid (insert t q).1
        × ((p : K) → contains (insert t q).1 p ≡ (if o.equal q p then true else contains t p))
        × ((insert t q).0 ≡ (if contains t q then false else true))
        × ((insert t q).1.size ≡ t.size + one_if (insert t q).0)
  unfolding insert contains
  insert_lem t q s = (
    record {
      ordered = insert_from-IsOrdered t.root q s.ordered;
      counted = ground (arith, count-insert_from t.root q, s.counted);
    },
    λ p. contains_from-insert_from t.root q p,
    added_lem t.root q,
    ground arith,
  )

  -- `remove` keeps a tree valid and takes the key out of the set; it answers whether the key was
  -- there, and the size falls by one exactly then.
  pub remove_lem :
      (t : BinarySearchTree K) (q : K)
      → IsValid t
      → IsValid (remove t q).1
        × ((p : K) → contains (remove t q).1 p ≡ (if o.equal q p then false else contains t p))
        × ((remove t q).0 ≡ contains t q)
        × ((remove t q).1.size + one_if (contains t q) ≡ t.size)
  unfolding remove contains
  remove_lem t q s = (
    record {
      ordered = remove_node-IsOrdered t.root q false s.ordered;
      counted = ground (
        arith,
        removed_lem t.root q false,
        count-remove_node t.root q false s.ordered,
        s.counted,
      );
    },
    λ p. contains_from-remove_node t.root q p false s.ordered,
    ground (arith, removed_lem t.root q false),
    ground
        (arith, removed_lem t.root q false, count-remove_node t.root q false s.ordered, s.counted),
  )

  -- The in-order list of a valid tree is strictly ascending and as long as the size; `min_value` is
  -- its first key and `max_value` its last, `successor` its first key above the one given, and
  -- `predecessor` its last key below.
  pub inorder_lem :
      (t : BinarySearchTree K)
      → IsValid t
      → Ascending (inorder t)
        × (length (inorder t) ≡ t.size)
        × (min_value t ≡ first_that any (inorder t))
        × (max_value t ≡ last_that any (inorder t))
        × ((q : K) → successor t q ≡ first_that (o.less q) (inorder t))
        × ((q : K) → predecessor t q ≡ last_that (λ x. o.less x q) (inorder t))
  unfolding inorder min_value max_value successor predecessor
  inorder_lem t s =
      rw (inorder_recursive_lem t.root [], Ascending, first_that, last_that)
        (
          keys-Ascending t.root s.ordered,
          length-keys t.root ∙ sym s.counted,
          leftmost-first t.root,
          rightmost-last t.root,
          (λ q.
              successor_from_lem t.root q none s.ordered
              ∙ or_else-none (first_that (o.less q) (keys t.root))),
          (λ q.
              predecessor_from_lem t.root q none s.ordered
              ∙ or_else-none (last_that (λ x. o.less x q) (keys t.root))),
        )
