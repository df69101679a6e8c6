-- ===== src/Avl/Erase.antt =====
-- The search order under `erase_internal`, and what a search finds after it.
use awesome_dsa.Prelude.{
  ℕ, Bool, true, none, some, arith, ◌≡◌, refl, if◌then◌else◌, Bool-cases, inl, inr,
}
use awesome_dsa.Prelude.Order.{Order, ◌≺◌, less_asymm}
use awesome_dsa.Avl.{Node, leaf, node, find_from, find_min, erase_found, erase_internal}
use awesome_dsa.Avl.Rotations.{All, All-imp, All-rebalance, Above, IsOrdered}
use awesome_dsa.Avl.Lookup.{find_from-Below, find_beyond}

module _ {ℓ κ} {K : Type ℓ} {V : Type κ} where
  -- A tree that is not null has a leftmost node.
  pub least : Node K V → K → V → K × V
  least leaf k v = (k, v)
  least (node l lk lv h r) k v = least l lk lv

  pub find_min_lem :
      (l : Node K V) (k : K) (v : V) (h : ℕ) (r : Node K V)
      → find_min (node l k v h r) ≡ some (least l k v)
  unfolding find_min least
  find_min_lem leaf k v h r = refl
  find_min_lem (node l lk lv lh lr) k v h r = find_min_lem l lk lv lh lr

  pub All-least {μ} :
      (P : K → Type μ) (l : Node K V) (k : K) (v : V) → All P l → P k → P (least l k v).0
  unfolding least
  All-least P leaf k v a p = p
  All-least P (node l lk lv h r) k v a p = All-least P l lk lv a.0 a.1

module _ {ℓ κ} {K : Type ℓ} {V : Type κ} ⦃o : Order K⦄ where
  pub All-erase_found {μ} :
      (P : K → Type μ) (l : Node K V) (h : ℕ) (r : Node K V) (again : K → Node K V × Bool)
      → All P l
      → All P r
      → ((q : K) → All P (again q).0)
      → All P (erase_found l h r again).0
  unfolding erase_found
  All-erase_found P leaf h r again a b c = b
  All-erase_found P (node ll lk lv lh lr) h leaf again a b c = a
  All-erase_found P (node ll lk lv lh lr) h (node rl rk rv rh rr) again a b c =
      rw (find_min_lem rl rk rv rh rr, erase_found, All)
        (All-rebalance P
          (node (node ll lk lv lh lr) (least rl rk rv).0 (least rl rk rv).1 h
            (again (least rl rk rv).0).0)
          (a, All-least P rl rk rv b.0 b.1, c (least rl rk rv).0))

  pub All-erase_internal {μ} :
      (P : K → Type μ) (t : Node K V) (q : K) (b : Bool) → All P t → All P (erase_internal t q b).0
  unfolding erase_internal
  All-erase_internal P leaf q b a = tt
  All-erase_internal P (node l k v h r) q b a = elim (Bool-cases (o.less q k)) [
    | inl lt ↦ rw lt (
        All-rebalance P (node (erase_internal l q b).0 k v h r)
          (All-erase_internal P l q b a.0, a.1, a.2))
    | inr ge ↦ elim (Bool-cases (o.less k q)) [
      | inl gt ↦
          rw (ge, gt)
            (All-rebalance P (node l k v h (erase_internal r q b).0)
              (a.0, a.1, All-erase_internal P r q b a.2))
      | inr eq ↦
          rw (ge, eq)
            (All-erase_found P l h r (λ p. erase_internal r p true) a.0 a.2
              (λ p. All-erase_internal P r p true a.2))
    ]
  ]

  -- What is left when the least key is erased lies above it.
  erase_least :
      (l : Node K V) (k : K) (v : V) (h : ℕ) (r : Node K V) (b : Bool)
      → IsOrdered (node l k v h r)
      → Above (least l k v).0 (erase_internal (node l k v h r) (least l k v).0 b).0
  unfolding erase_internal least erase_found
  erase_least leaf k v h r b s = rw (o.less_irrefl k) s.1
  erase_least (node l lk lv lh lr) k v h r b s =
      let m = (least l lk lv).0 in
      let low = All-least (λ x. x ≺ k) l lk lv s.0.0 s.0.1 in
      rw low (
        All-rebalance (λ x. m ≺ x) (node (erase_internal (node l lk lv lh lr) m b).0 k v h r)
          (erase_least l lk lv lh lr b s.2, low, All-imp (λ x. o.less_trans m k x low) r s.1))

  pub find_least :
      (l : Node K V) (k : K) (v : V) (h : ℕ) (r : Node K V)
      → IsOrdered (node l k v h r)
      → find_from (node l k v h r) (least l k v).0 ≡ some (least l k v).1
  unfolding find_from least
  find_least leaf k v h r s = rw (o.less_irrefl k)
  find_least (node l lk lv lh lr) k v h r s =
      let low = All-least (λ x. x ≺ k) l lk lv s.0.0 s.0.1 in rw low (find_least l lk lv lh lr s.2)

  -- No key lies under the least one.
  find_under_least :
      (l : Node K V) (k : K) (v : V) (h : ℕ) (r : Node K V) (p : K)
      → IsOrdered (node l k v h r)
      → p ≺ (least l k v).0
      → find_from (node l k v h r) p ≡ none
  unfolding find_from least
  find_under_least leaf k v h r p s lt = rw lt
  find_under_least (node l lk lv lh lr) k v h r p s lt =
      let low = All-least (λ x. x ≺ k) l lk lv s.0.0 s.0.1 in
      rw (o.less_trans p (least l lk lv).0 k lt low) (find_under_least l lk lv lh lr p s.2 lt)

  -- The node that takes the place of the one found, when both its subtrees are there.
  module _ (ll : Node K V) (lk : K) (lv : V) (lh : ℕ) (lr : Node K V) (k : K) (v : V) (h : ℕ)
      (rl : Node K V) (rk : K) (rv : V) (rh : ℕ) (rr : Node K V)
      (s : IsOrdered (node (node ll lk lv lh lr) k v h (node rl rk rv rh rr))) where
    abbrev pub l : Node K V
    l = node ll lk lv lh lr

    abbrev pub r : Node K V
    r = node rl rk rv rh rr

    abbrev pub m : K
    m = (least rl rk rv).0

    abbrev pub rest : Node K V
    rest = (erase_internal r m true).0

    abbrev pub raised : Node K V
    raised = node l m (least rl rk rv).1 h rest

    up : k ≺ m
    up = All-least (λ x. k ≺ x) rl rk rv s.1.0 s.1.1

    pub raised-IsOrdered : IsOrdered rest → IsOrdered raised
    raised-IsOrdered d = (
      All-imp (λ x b. o.less_trans x k m b up) l s.0,
      erase_least rl rk rv rh rr true s.3,
      s.2,
      d,
    )

    pub find_from-raised :
        (p : K)
        → find_from rest p ≡ (if o.equal m p then none else find_from r p)
        → find_from raised p ≡ (if o.equal k p then none else find_from (node l k v h r) p)
    unfolding find_from
    find_from-raised p ih = ground (
      arith,
      up,
      o.less_trans p k m,
      o.less_trans k m p,
      less_asymm p m,
      less_asymm p k,
      less_asymm k p,
      o.less_connex p k,
      o.less_connex p m,
      o.less_irrefl k,
      o.equal_refl k,
      o.less_irrefl m,
      o.eq_of_equal k p,
      o.eq_of_equal m p,
      ih,
      find_from-Below l k s.0,
      find_beyond l k p s.0,
      find_under_least rl rk rv rh rr p s.3,
      find_least rl rk rv rh rr s.3,
    )
