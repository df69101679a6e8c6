-- ===== src/Avl/Lookup.antt =====
-- The search order under `insert_internal` and `erase_internal`, and what a search finds after them.
use awesome_dsa.Prelude.{
  Bool, none, some, arith, ◌≡◌, ◌∙◌, refl, if◌then◌else◌, Bool-cases, inl, inr,
}
use awesome_dsa.Prelude.Order.{Order, ◌≺◌, less_asymm}
use awesome_dsa.Avl.{Node, leaf, node, find_from, insert_internal}
use awesome_dsa.Avl.Rotations.{
  All, All-imp, All-rebalance, Below, Above, IsOrdered, rebalance-IsOrdered, find_from-rebalance,
}

module _ {ℓ κ} {K : Type ℓ} {V : Type κ} ⦃o : Order K⦄ where
  All-insert_internal {μ} :
      (P : K → Type μ) (t : Node K V) (q : K) (w : V) (b : Bool)
      → P q
      → All P t
      → All P (insert_internal t q w b).0
  unfolding insert_internal
  All-insert_internal P leaf q w b p a = (tt, p, tt)
  All-insert_internal P (node l k v h r) q w b p a =
      let left = (insert_internal l q w b).0 in
      let right = (insert_internal r q w b).0 in
      let on_left =
        All-rebalance P (node left k v h r) (All-insert_internal P l q w b p a.0, a.1, a.2) in
      let on_right =
        All-rebalance P (node l k v h right) (a.0, a.1, All-insert_internal P r q w b p a.2) in
      elim (Bool-cases (o.less q k)) [
        | inl lt ↦ rw lt on_left
        | inr ge ↦ elim (Bool-cases (o.less k q)) [
          | inl gt ↦ rw (ge, gt) on_right
          | inr eq ↦ rw (ge, eq) a
        ]
      ]

  pub insert_internal-IsOrdered :
      (t : Node K V) (q : K) (w : V) (b : Bool)
      → IsOrdered t
      → IsOrdered (insert_internal t q w b).0
  unfolding insert_internal
  insert_internal-IsOrdered leaf q w b s = (tt, tt, tt, tt)
  insert_internal-IsOrdered (node l k v h r) q w b s = elim (Bool-cases (o.less q k)) [
    | inl lt ↦ rw lt (
        rebalance-IsOrdered (node (insert_internal l q w b).0 k v h r) (
          All-insert_internal (λ x. x ≺ k) l q w b lt s.0,
          s.1,
          insert_internal-IsOrdered l q w b s.2,
          s.3,
        ))
    | inr ge ↦ elim (Bool-cases (o.less k q)) [
      | inl gt ↦
          rw (ge, gt)
            (rebalance-IsOrdered (node l k v h (insert_internal r q w b).0) (
              s.0,
              All-insert_internal (λ x. k ≺ x) r q w b gt s.1,
              s.2,
              insert_internal-IsOrdered r q w b s.3,
            ))
      | inr eq ↦ rw (ge, eq) s
    ]
  ]

  -- A key above `q` in the tree's bounds is not `q`.
  pub find_from-Below : (t : Node K V) (q : K) → Below q t → find_from t q ≡ none
  unfolding find_from
  find_from-Below leaf q b = refl
  find_from-Below (node l k v h r) q b = ground (arith, less_asymm k q, find_from-Below r q b.2)

  pub find_from-Above : (t : Node K V) (q : K) → Above q t → find_from t q ≡ none
  unfolding find_from
  find_from-Above leaf q b = refl
  find_from-Above (node l k v h r) q b = ground (arith, find_from-Above l q b.0)

  pub find_beyond : (t : Node K V) (k p : K) → Below k t → k ≺ p → find_from t p ≡ none
  find_beyond t k p b h = find_from-Below t p (All-imp (λ x c. o.less_trans x k p c h) t b)

  pub find_under : (t : Node K V) (k p : K) → Above k t → p ≺ k → find_from t p ≡ none
  find_under t k p b h = find_from-Above t p (All-imp (λ x c. o.less_trans p k x h c) t b)

  pub find_from-insert_internal :
      (t : Node K V) (q p : K) (w : V) (b : Bool)
      → IsOrdered t
      → find_from (insert_internal t q w b).0 p ≡ (if o.equal q p then some w else find_from t p)
  unfolding insert_internal find_from
  find_from-insert_internal leaf q p w b s =
      ground (
        arith,
        o.less_connex q p,
        o.less_irrefl q,
        less_asymm q p,
        o.equal_refl q,
        o.eq_of_equal q p,
      )
  find_from-insert_internal (node l k v h r) q p w b s = elim (Bool-cases (o.less q k)) [
    | inl lt ↦ rw (lt) (
        find_from-rebalance (node (insert_internal l q w b).0 k v h r) p (
          All-insert_internal (λ x. x ≺ k) l q w b lt s.0,
          s.1,
          insert_internal-IsOrdered l q w b s.2,
          s.3,
        )
        ∙ ground
            (arith, find_from-insert_internal l q p w b s.2, o.eq_of_equal q p, less_asymm q k))
    | inr ge ↦ elim (Bool-cases (o.less k q)) [
      | inl gt ↦
          rw (ge, gt)
            (find_from-rebalance (node l k v h (insert_internal r q w b).0) p (
              s.0,
              All-insert_internal (λ x. k ≺ x) r q w b gt s.1,
              s.2,
              insert_internal-IsOrdered r q w b s.3,
            )
              ∙ ground (
                arith,
                find_from-insert_internal r q p w b s.3,
                o.eq_of_equal q p,
                less_asymm k q,
              ))
      | inr eq ↦
          rw (ge, eq)
            (ground (
              arith,
              o.less_connex q k ge eq,
              o.eq_of_equal q p,
              o.less_connex p k,
              o.equal_refl q,
            ))
    ]
  ]
