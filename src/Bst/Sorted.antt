-- ===== src/Bst/Sorted.antt =====
-- The search order of BinarySearchTree, and that insertion and removal keep it.
use awesome_dsa.Prelude.{ℕ, ◌+◌, Bool, true, some, arith, ◌≡◌, refl, Bool-cases, inl, inr}
use awesome_dsa.Prelude.Order.{Order, ◌≺◌}
use awesome_dsa.Prelude.Tally.{one_if}
use awesome_dsa.Bst.{Node, leaf, node, leftmost, insert_from, remove_found, remove_node}

module _ {ℓ} {K : Type ℓ} where
  -- `P` holds of each key
  abbrev pub All {μ} : (K → Type μ) → Node K → Type μ
  All P leaf = Unit
  All P (node left key right) = All P left × P key × All P right

  abbrev pub count : Node K → ℕ
  count leaf = 0
  count (node l k r) = count l + count r + 1

  pub All-imp {μ ν} :
      {P : K → Type μ} {R : K → Type ν}
      → ((x : K) → P x → R x)
      → (tree : Node K) → All P tree
      → All R tree
  All-imp f leaf a = tt
  All-imp f (node left key right) a = (All-imp f left a.0, f key a.1, All-imp f right a.2)

  -- the key that `leftmost` finds in a tree that is not null
  unfoldable pub least : Node K → K → K
  least leaf k = k
  least (node l x r) k = least l x

  pub leftmost_lem : (l : Node K) (k : K) (r : Node K) → leftmost (node l k r) ≡ some (least l k)
  unfolding leftmost least
  leftmost_lem leaf k r = refl
  leftmost_lem (node l x b) k r = leftmost_lem l x b

  pub All-least {μ} : (P : K → Type μ) (l : Node K) (k : K) → All P l → P k → P (least l k)
  unfolding least
  All-least P leaf k a p = p
  All-least P (node l x b) k a p = All-least P l x a.0 a.1

module _ {ℓ} {K : Type ℓ} ⦃o : Order K⦄ where
  abbrev pub Above : K → Node K → Type 0
  Above low tree = All (λ x. low ≺ x) tree

  abbrev pub Below : K → Node K → Type 0
  Below high tree = All (λ x. x ≺ high) tree

  -- The search order.
  abbrev pub IsOrdered : Node K → Type 0
  IsOrdered leaf = Unit
  IsOrdered (node left key right) =
      Below key left × Above key right × IsOrdered left × IsOrdered right

  All-insert_from {μ} :
      (P : K → Type μ) (t : Node K) (q : K) → P q → All P t → All P (insert_from t q).0
  unfolding insert_from
  All-insert_from P leaf q p a = (tt, p, tt)
  All-insert_from P (node l k r) q p a =
      ground (arith, All-insert_from P l q, All-insert_from P r q)

  pub insert_from-IsOrdered : (t : Node K) (q : K) → IsOrdered t → IsOrdered (insert_from t q).0
  unfolding insert_from
  insert_from-IsOrdered leaf q s = (tt, tt, tt, tt)
  insert_from-IsOrdered (node l k r) q s = elim (Bool-cases (o.equal q k)) [
    | inl same ↦ rw same s
    | inr other ↦ elim (Bool-cases (o.less q k)) [
      | inl lt ↦
          rw (other, lt)
            (All-insert_from (λ x. x ≺ k) l q lt s.0, s.1, insert_from-IsOrdered l q s.2, s.3)
      | inr ge ↦
          let gt : k ≺ q = ground (arith, o.less_connex q k, o.equal_refl q) in
          rw (other, ge)
            (s.0, All-insert_from (λ x. k ≺ x) r q gt s.1, s.2, insert_from-IsOrdered r q s.3)
    ]
  ]

  All-remove_found {μ} :
      (P : K → Type μ) (l r : Node K) (again : K → Node K × Bool)
      → All P l
      → All P r
      → ((s : K) → All P (again s).0)
      → All P (remove_found l r again).0
  unfolding remove_found
  All-remove_found P leaf r again a b c = b
  All-remove_found P (node ll lk lr) leaf again a b c = a
  All-remove_found P (node ll lk lr) (node rl rk rr) again a b c =
      rw (leftmost_lem rl rk rr, remove_found, All) (a, All-least P rl rk b.0 b.1, c (least rl rk))

  pub All-remove_node {μ} :
      (P : K → Type μ) (t : Node K) (q : K) (b : Bool) → All P t → All P (remove_node t q b).0
  unfolding remove_node
  All-remove_node P leaf q b a = tt
  All-remove_node P (node l k r) q b a = ground (
    arith,
    All-remove_node P l q b,
    All-remove_node P r q b,
    All-remove_found P l r (λ (s : K). remove_node r s true) a.0 a.2
        (λ s. All-remove_node P r s true a.2),
  )

  -- What is left when the least key is removed lies above it.
  pub remove_least :
      (l : Node K) (k : K) (r : Node K) (b : Bool)
      → IsOrdered (node l k r)
      → Above (least l k) (remove_node (node l k r) (least l k) b).0
  unfolding remove_node least remove_found
  remove_least leaf k r b s = rw (o.less_irrefl k) s.1
  remove_least (node l x n) k r b s =
      let m = least l x in
      let low = All-least (λ y. y ≺ k) l x s.0.0 s.0.1 in
      rw low (remove_least l x n b s.2, low, All-imp (λ y. o.less_trans m k y low) r s.1)

  remove_found-IsOrdered :
      (l : Node K) (k : K) (r : Node K)
      → IsOrdered (node l k r)
      → ((s : K) → IsOrdered (remove_node r s true).0)
      → IsOrdered (remove_found l r (λ s. remove_node r s true)).0
  unfolding remove_found
  remove_found-IsOrdered leaf k r s d = s.3
  remove_found-IsOrdered (node ll lk lr) k leaf s d = s.2
  remove_found-IsOrdered (node ll lk lr) k (node rl rk rr) s d =
      let m = least rl rk in
      let up = All-least (λ y. k ≺ y) rl rk s.1.0 s.1.1 in
      rw (leftmost_lem rl rk rr, remove_found, IsOrdered)
        (
          All-imp (λ y b. o.less_trans y k m b up) (node ll lk lr) s.0,
          remove_least rl rk rr true s.3,
          s.2,
          d m,
        )

  pub remove_node-IsOrdered :
      (t : Node K) (q : K) (b : Bool) → IsOrdered t → IsOrdered (remove_node t q b).0
  unfolding remove_node
  remove_node-IsOrdered leaf q b s = tt
  remove_node-IsOrdered (node l k r) q b s = ground (
    arith,
    remove_node-IsOrdered l q b s.2,
    remove_node-IsOrdered r q b s.3,
    All-remove_node (λ y. y ≺ k) l q b s.0,
    All-remove_node (λ y. k ≺ y) r q b s.1,
    remove_found-IsOrdered l k r s (λ y. remove_node-IsOrdered r y true s.3),
  )

  -- The number of nodes, with the flags.
  pub count-insert_from :
      (t : Node K) (q : K) → count (insert_from t q).0 ≡ count t + one_if (insert_from t q).1
  unfolding insert_from
  count-insert_from leaf q = omega arith
  count-insert_from (node l k r) q = ground (arith, count-insert_from l q, count-insert_from r q)
