-- ===== src/Avl/Height.antt =====
-- `insert_internal` and `erase_internal` keep the tree balanced, and a balanced tree is shallow.
use awesome_dsa.Prelude.{
  ℕ, zero, suc, ◌+◌, ◌≤◌, max, Bool, true, arith, ◌≡◌, refl, Bool-cases, inl, inr, ◌↔◌, dec_lt,
  ==_iff,
}
use awesome_dsa.Prelude.Order.{Order}
use awesome_dsa.Avl.{
  Node, leaf, node, get_height, rebalance, insert_internal, erase_found, erase_internal,
  verify_avl_invariants,
}
use awesome_dsa.Avl.Rotations.{count}
use awesome_dsa.Avl.Erase.{least, find_min_lem}
use awesome_dsa.Avl.Balance.{IsBalanced, not_under, not_over, rebalance-IsBalanced}

module _ {ℓ κ} {K : Type ℓ} {V : Type κ} where
  -- `t` is balanced and as high as `h`, or one higher.
  abbrev Grown : ℕ → Node K V → Type 0
  Grown h t = IsBalanced t × (h ≤ get_height t) × (get_height t ≤ h + 1)

  abbrev Shrunk : ℕ → Node K V → Type 0
  Shrunk h t = IsBalanced t × (get_height t ≤ h) × (h ≤ get_height t + 1)

  left_grows :
      (l l' : Node K V) (k : K) (v : V) (h : ℕ) (r : Node K V)
      → IsBalanced (node l k v h r)
      → Grown (get_height l) l'
      → Grown h (rebalance (node l' k v h r))
  left_grows l l' k v h r s g =
      let b = rebalance-IsBalanced l' k v h r g.0 s.4 (omega arith) (omega arith) in
      (b.0, omega arith, omega arith)

  right_grows :
      (l : Node K V) (k : K) (v : V) (h : ℕ) (r r' : Node K V)
      → IsBalanced (node l k v h r)
      → Grown (get_height r) r'
      → Grown h (rebalance (node l k v h r'))
  right_grows l k v h r r' s g =
      let b = rebalance-IsBalanced l k v h r' s.3 g.0 (omega arith) (omega arith) in
      (b.0, omega arith, omega arith)

  left_shrinks :
      (l l' : Node K V) (k : K) (v : V) (h : ℕ) (r : Node K V)
      → IsBalanced (node l k v h r)
      → Shrunk (get_height l) l'
      → Shrunk h (rebalance (node l' k v h r))
  left_shrinks l l' k v h r s g =
      let b = rebalance-IsBalanced l' k v h r g.0 s.4 (omega arith) (omega arith) in
      (b.0, omega arith, omega arith)

  -- The key and value at the root do not matter to the balance.
  right_shrinks :
      (l : Node K V) (k k' : K) (v v' : V) (h : ℕ) (r r' : Node K V)
      → IsBalanced (node l k v h r)
      → Shrunk (get_height r) r'
      → Shrunk h (rebalance (node l k' v' h r'))
  right_shrinks l k k' v v' h r r' s g =
      let b = rebalance-IsBalanced l k' v' h r' s.3 g.0 (omega arith) (omega arith) in
      (b.0, omega arith, omega arith)

module _ {ℓ κ} {K : Type ℓ} {V : Type κ} ⦃o : Order K⦄ where
  pub insert_internal-IsBalanced :
      (t : Node K V) (q : K) (w : V) (b : Bool)
      → IsBalanced t
      → Grown (get_height t) (insert_internal t q w b).0
  unfolding insert_internal
  insert_internal-IsBalanced leaf q w b s =
      ((refl, omega arith, omega arith, tt, tt), omega arith, omega arith)
  insert_internal-IsBalanced (node l k v h r) q w b s = elim (Bool-cases (o.less q k)) [
    | inl lt ↦ rw lt (
        left_grows l (insert_internal l q w b).0 k v h r s (insert_internal-IsBalanced l q w b s.3))
    | inr ge ↦ elim (Bool-cases (o.less k q)) [
      | inl gt ↦
          rw (ge, gt)
            (right_grows l k v h r (insert_internal r q w b).0 s
              (insert_internal-IsBalanced r q w b s.4))
      | inr eq ↦ rw (ge, eq) (s, omega arith, omega arith)
    ]
  ]

  erase_found-IsBalanced :
      (l : Node K V) (k : K) (v : V) (h : ℕ) (r : Node K V)
      → IsBalanced (node l k v h r)
      → ((q : K) → Shrunk (get_height r) (erase_internal r q true).0)
      → Shrunk h (erase_found l h r (λ q. erase_internal r q true)).0
  unfolding erase_found
  erase_found-IsBalanced leaf k v h r s d = (s.4, omega arith, omega arith)
  erase_found-IsBalanced (node ll lk lv lh lr) k v h leaf s d = (s.3, omega arith, omega arith)
  erase_found-IsBalanced (node ll lk lv lh lr) k v h (node rl rk rv rh rr) s d =
      let m = least rl rk rv in
      rw (find_min_lem rl rk rv rh rr, erase_found, IsBalanced)
        (right_shrinks (node ll lk lv lh lr) k m.0 v m.1 h (node rl rk rv rh rr)
          (erase_internal (node rl rk rv rh rr) m.0 true).0 s (d m.0))

  pub erase_internal-IsBalanced :
      (t : Node K V) (q : K) (b : Bool)
      → IsBalanced t
      → Shrunk (get_height t) (erase_internal t q b).0
  unfolding erase_internal
  erase_internal-IsBalanced leaf q b s = (tt, omega arith, omega arith)
  erase_internal-IsBalanced (node l k v h r) q b s = elim (Bool-cases (o.less q k)) [
    | inl lt ↦
        rw lt
          (left_shrinks l (erase_internal l q b).0 k v h r s (erase_internal-IsBalanced l q b s.3))
    | inr ge ↦ elim (Bool-cases (o.less k q)) [
      | inl gt ↦
          rw (ge, gt)
            (right_shrinks l k k v v h r (erase_internal r q b).0 s
              (erase_internal-IsBalanced r q b s.4))
      | inr eq ↦
          rw (ge, eq)
            (erase_found-IsBalanced l k v h r s (λ p. erase_internal-IsBalanced r p true s.4))
    ]
  ]

module _ {ℓ κ} {K : Type ℓ} {V : Type κ} where
  IsBalanced→verify : (t : Node K V) → IsBalanced t → verify_avl_invariants t ≡ true
  unfolding verify_avl_invariants
  IsBalanced→verify leaf s = refl
  IsBalanced→verify (node l k v h r) s =
      rw (not_under (get_height l) (get_height r) s.2, not_over (get_height l) (get_height r) s.1)
        (rw (
          (==_iff h (1 + max (get_height l) (get_height r))).1 s.0,
          IsBalanced→verify l s.3,
          IsBalanced→verify r s.4,
        ))

  verify→IsBalanced : (t : Node K V) → verify_avl_invariants t ≡ true → IsBalanced t
  unfolding verify_avl_invariants
  verify→IsBalanced leaf s = tt
  verify→IsBalanced (node l k v h r) s = ground (arith, verify→IsBalanced l, verify→IsBalanced r)

  pub verify_avl_invariants_iff : (t : Node K V) → (verify_avl_invariants t ≡ true) ↔ IsBalanced t
  verify_avl_invariants_iff t = (verify→IsBalanced t, IsBalanced→verify t)

-- The Fibonacci numbers, 0 and 1 first.
abbrev pub fib : ℕ → ℕ
fib zero = 0
fib (suc zero) = 1
fib (suc (suc n)) = fib (suc n) + fib n

fib_mono_suc : (n : ℕ) → fib n ≤ fib (suc n)
fib_mono_suc zero = omega arith
fib_mono_suc (suc zero) = omega arith
fib_mono_suc (suc (suc n)) = omega (arith, fib_mono_suc n, fib_mono_suc (suc n))

module _ {ℓ κ} {K : Type ℓ} {V : Type κ} where
  -- A balanced tree of height `h` has at least as many nodes as the Fibonacci tree of that height.
  pub fib-le-count :
      (t : Node K V) (n : ℕ) → IsBalanced t → get_height t ≡ n → fib (suc (suc n)) ≤ count t + 1
  fib-le-count leaf n s e = rw (← e) (omega arith)
  fib-le-count (node l k v h r) zero s e = absurd (omega arith)
  fib-le-count (node l k v h r) (suc zero) s e = omega arith
  fib-le-count (node l k v h r) (suc (suc n)) s e = elim (dec_lt (get_height l) (suc n)) [
    | yes low ↦
        omega (arith, fib-le-count l n s.3 (omega arith), fib-le-count r (suc n) s.4 (omega arith))
    | no high ↦ elim (dec_lt (get_height r) (suc n)) [
      | yes low ↦
          omega
            (arith, fib-le-count l (suc n) s.3 (omega arith), fib-le-count r n s.4 (omega arith))
      | no both ↦ omega (
        arith,
        fib-le-count l (suc n) s.3 (omega arith),
        fib-le-count r (suc n) s.4 (omega arith),
        fib_mono_suc (suc (suc n)),
      )
    ]
  ]
