-- ===== src/Bst/Count.antt =====
-- The number of nodes, and the flag, after a removal.
use awesome_dsa.Prelude.{◌+◌, Bool, true, arith, ◌≡◌, refl, if◌then◌else◌}
use awesome_dsa.Prelude.Order.{Order, less_ne, less_ne_rev}
use awesome_dsa.Prelude.Tally.{one_if}
use awesome_dsa.Bst.{Node, leaf, node, remove_found, remove_node, contains_from}
use awesome_dsa.Bst.Sorted.{count, least, leftmost_lem, IsOrdered}
use awesome_dsa.Bst.Search.{contains_least}

module _ {ℓ} {K : Type ℓ} ⦃o : Order K⦄ where
  removed_found :
      (l r : Node K) (again : K → Node K × Bool)
      → ((s : K) → (again s).1 ≡ true)
      → (remove_found l r again).1 ≡ true
  unfolding remove_found
  removed_found leaf r again d = refl
  removed_found (node ll lk lr) leaf again d = refl
  removed_found (node ll lk lr) (node rl rk rr) again d =
      rw (leftmost_lem rl rk rr, remove_found) (d (least rl rk))

  pub removed_lem :
      (t : Node K) (q : K) (b : Bool)
      → (remove_node t q b).1 ≡ (if contains_from t q then true else b)
  unfolding remove_node contains_from
  removed_lem leaf q b = refl
  removed_lem (node l k r) q b = ground (
    arith,
    removed_lem l q b,
    removed_lem r q b,
    removed_found l r (λ (s : K). remove_node r s true) (λ s. ground (arith, removed_lem r s true)),
    less_ne q k,
    less_ne_rev k q,
    o.less_connex q k,
    o.equal_refl q,
  )

  count-remove_found :
      (l r : Node K)
      → IsOrdered r
      → ((s : K) → count (remove_node r s true).0 + one_if (contains_from r s) ≡ count r)
      → count (remove_found l r (λ s. remove_node r s true)).0 ≡ count l + count r
  unfolding remove_found
  count-remove_found leaf r s d = omega arith
  count-remove_found (node ll lk lr) leaf s d = omega arith
  count-remove_found (node ll lk lr) (node rl rk rr) s d =
      rw (leftmost_lem rl rk rr, remove_found)
        (ground (arith, d (least rl rk), contains_least rl rk rr s))

  pub count-remove_node :
      (t : Node K) (q : K) (b : Bool)
      → IsOrdered t
      → count (remove_node t q b).0 + one_if (contains_from t q) ≡ count t
  unfolding remove_node contains_from
  count-remove_node leaf q b s = refl
  count-remove_node (node l k r) q b s = ground (
    arith,
    count-remove_node l q b s.2,
    count-remove_node r q b s.3,
    count-remove_found l r s.3 (λ y. count-remove_node r y true s.3),
    less_ne q k,
    less_ne_rev k q,
    o.less_connex q k,
    o.equal_refl q,
  )
