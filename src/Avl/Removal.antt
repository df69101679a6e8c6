-- ===== src/Avl/Removal.antt =====
-- `erase_internal` keeps the search order, removes the key and leaves every other as it was.
use awesome_dsa.Prelude.{ℕ, Bool, true, none, arith, ◌≡◌, ◌∙◌, if◌then◌else◌, Bool-cases, inl, inr}
use awesome_dsa.Prelude.Order.{Order, ◌≺◌, less_asymm}
use awesome_dsa.Avl.{Node, leaf, node, find_from, erase_found, erase_internal}
use awesome_dsa.Avl.Rotations.{IsOrdered, rebalance-IsOrdered, find_from-rebalance}
use awesome_dsa.Avl.Lookup.{find_from-Below, find_from-Above, find_beyond, find_under}
use awesome_dsa.Avl.Erase.{
  All-erase_internal, find_min_lem, raised, raised-IsOrdered, find_from-raised, least,
}

module _ {ℓ κ} {K : Type ℓ} {V : Type κ} ⦃o : Order K⦄ where
  erase_found-IsOrdered :
      (l : Node K V) (k : K) (v : V) (h : ℕ) (r : Node K V)
      → IsOrdered (node l k v h r)
      → ((q : K) → IsOrdered (erase_internal r q true).0)
      → IsOrdered (erase_found l h r (λ q. erase_internal r q true)).0
  unfolding erase_found
  erase_found-IsOrdered leaf k v h r s d = s.3
  erase_found-IsOrdered (node ll lk lv lh lr) k v h leaf s d = s.2
  erase_found-IsOrdered (node ll lk lv lh lr) k v h (node rl rk rv rh rr) s d =
      rw (find_min_lem rl rk rv rh rr, erase_found, IsOrdered)
        (rebalance-IsOrdered (raised ll lk lv lh lr k v h rl rk rv rh rr s)
          (raised-IsOrdered ll lk lv lh lr k v h rl rk rv rh rr s (d (least rl rk rv).0)))

  pub erase_internal-IsOrdered :
      (t : Node K V) (q : K) (b : Bool) → IsOrdered t → IsOrdered (erase_internal t q b).0
  unfolding erase_internal
  erase_internal-IsOrdered leaf q b s = tt
  erase_internal-IsOrdered (node l k v h r) q b s = elim (Bool-cases (o.less q k)) [
    | inl lt ↦ rw lt (
        rebalance-IsOrdered (node (erase_internal l q b).0 k v h r)
          (All-erase_internal (λ x. x ≺ k) l q b s.0, s.1, erase_internal-IsOrdered l q b s.2, s.3))
    | inr ge ↦ elim (Bool-cases (o.less k q)) [
      | inl gt ↦
          rw (ge, gt)
            (rebalance-IsOrdered (node l k v h (erase_internal r q b).0) (
              s.0,
              All-erase_internal (λ x. k ≺ x) r q b s.1,
              s.2,
              erase_internal-IsOrdered r q b s.3,
            ))
      | inr eq ↦
          rw (ge, eq)
            (erase_found-IsOrdered l k v h r s (λ p. erase_internal-IsOrdered r p true s.3))
    ]
  ]

  -- what `p` reads once `q` is erased
  abbrev Erased : Node K V → K → K → Bool → Type κ
  Erased t q p b =
      find_from (erase_internal t q b).0 p ≡ (if o.equal q p then none else find_from t p)

  find_from-erase_found :
      (l : Node K V) (k : K) (v : V) (h : ℕ) (r : Node K V) (p : K)
      → IsOrdered (node l k v h r)
      → ((q : K) → Erased r q p true)
      → find_from (erase_found l h r (λ q. erase_internal r q true)).0 p
        ≡ (if o.equal k p then none else find_from (node l k v h r) p)
  unfolding erase_found find_from
  find_from-erase_found leaf k v h r p s d = ground (
    arith,
    o.eq_of_equal k p,
    o.less_connex p k,
    o.less_irrefl k,
    o.equal_refl k,
    find_under r k p s.1,
    find_from-Above r k s.1,
  )
  find_from-erase_found (node ll lk lv lh lr) k v h leaf p s d = ground (
    arith,
    o.eq_of_equal k p,
    o.less_connex p k,
    less_asymm p k,
    o.less_irrefl k,
    o.equal_refl k,
    find_beyond (node ll lk lv lh lr) k p s.0,
    find_from-Below (node ll lk lv lh lr) k s.0,
  )
  find_from-erase_found (node ll lk lv lh lr) k v h (node rl rk rv rh rr) p s d =
      rw (find_min_lem rl rk rv rh rr, erase_found)
        (find_from-rebalance (raised ll lk lv lh lr k v h rl rk rv rh rr s) p (
            raised-IsOrdered ll lk lv lh lr k v h rl rk rv rh rr s
              (erase_internal-IsOrdered (node rl rk rv rh rr) (least rl rk rv).0 true s.3))
          ∙ find_from-raised ll lk lv lh lr k v h rl rk rv rh rr s p (d (least rl rk rv).0))

  pub find_from-erase_internal : (t : Node K V) (q p : K) (b : Bool) → IsOrdered t → Erased t q p b
  unfolding erase_internal find_from
  find_from-erase_internal leaf q p b s = ground arith
  find_from-erase_internal (node l k v h r) q p b s = elim (Bool-cases (o.less q k)) [
    | inl lt ↦ rw lt (
        find_from-rebalance (node (erase_internal l q b).0 k v h r) p
          (All-erase_internal (λ x. x ≺ k) l q b s.0, s.1, erase_internal-IsOrdered l q b s.2, s.3)
        ∙ ground (arith, find_from-erase_internal l q p b s.2, o.eq_of_equal q p, less_asymm q k))
    | inr ge ↦ elim (Bool-cases (o.less k q)) [
      | inl gt ↦
          rw (ge, gt)
            (find_from-rebalance (node l k v h (erase_internal r q b).0) p (
              s.0,
              All-erase_internal (λ x. k ≺ x) r q b s.1,
              s.2,
              erase_internal-IsOrdered r q b s.3,
            )
              ∙ ground
                  (arith, find_from-erase_internal r q p b s.3, o.eq_of_equal q p, less_asymm k q))
      | inr eq ↦
          rw (ge, eq)
            (find_from-erase_found l k v h r p s (λ c. find_from-erase_internal r c p true s.3)
              ∙ ground (arith, o.less_connex q k ge eq))
    ]
  ]
