-- ===== src/Avl/Size.antt =====
-- The number of nodes after `insert_internal` and `erase_internal`, and the flags that they leave.
use awesome_dsa.Prelude.{ℕ, ◌+◌, Bool, true, false, Option, none, some, arith, ◌≡◌, refl, ◌∙◌}
use awesome_dsa.Prelude.Order.{Order}
use awesome_dsa.Avl.{Node, leaf, node, find_from, insert_internal, erase_found, erase_internal}
use awesome_dsa.Avl.Rotations.{count, count-rebalance, IsOrdered}
use awesome_dsa.Avl.Erase.{least, find_min_lem, find_least}

abbrev pub is_some {ℓ} : {A : Type ℓ} → Option A → Bool
is_some none = false
is_some (some _) = true

abbrev pub is_none {ℓ} : {A : Type ℓ} → Option A → Bool
is_none none = true
is_none (some _) = false

abbrev pub one_if : Bool → ℕ
one_if true = 1
one_if false = 0

module _ {ℓ κ} {K : Type ℓ} {V : Type κ} ⦃o : Order K⦄ where
  pub inserted_lem :
      (t : Node K V) (q : K) (w : V) (b : Bool)
      → (insert_internal t q w b).1 ≡ is_none (find_from t q)
  unfolding insert_internal find_from
  inserted_lem leaf q w b = refl
  inserted_lem (node l k v h r) q w b = ground (arith, inserted_lem l q w b, inserted_lem r q w b)

  pub count-insert_internal :
      (t : Node K V) (q : K) (w : V) (b : Bool)
      → count (insert_internal t q w b).0 ≡ count t + one_if (insert_internal t q w b).1
  unfolding insert_internal
  count-insert_internal leaf q w b = omega arith
  count-insert_internal (node l k v h r) q w b = ground (
    arith,
    count-insert_internal l q w b,
    count-insert_internal r q w b,
    count-rebalance (node (insert_internal l q w b).0 k v h r),
    count-rebalance (node l k v h (insert_internal r q w b).0),
  )

  count-erase_found :
      (l : Node K V) (h : ℕ) (r : Node K V) (again : K → Node K V × Bool)
      → ((q : K) → count (again q).0 + one_if (again q).1 ≡ count r)
      → count (erase_found l h r again).0 + one_if (erase_found l h r again).1
        ≡ count l + count r + 1
  unfolding erase_found
  count-erase_found leaf h r again d = omega arith
  count-erase_found (node ll lk lv lh lr) h leaf again d = omega arith
  count-erase_found (node ll lk lv lh lr) h (node rl rk rv rh rr) again d =
      let s = least rl rk rv in
      rw (find_min_lem rl rk rv rh rr, erase_found)
        (omega (arith, d s.0, count-rebalance (node (node ll lk lv lh lr) s.0 s.1 h (again s.0).0)))

  pub count-erase_internal :
      (t : Node K V) (q : K) (b : Bool)
      → count (erase_internal t q b).0 + one_if (erase_internal t q b).1 ≡ count t
  unfolding erase_internal
  count-erase_internal leaf q b = refl
  count-erase_internal (node l k v h r) q b = ground (
    arith,
    count-erase_internal l q b,
    count-erase_internal r q b,
    count-rebalance (node (erase_internal l q b).0 k v h r),
    count-rebalance (node l k v h (erase_internal r q b).0),
    count-erase_found l h r (λ (p : K). erase_internal r p true)
        (λ p. count-erase_internal r p true),
  )

  erased_found_lem :
      (l : Node K V) (h : ℕ) (r : Node K V)
      → IsOrdered r
      → ((q : K) → (erase_internal r q true).1 ≡ is_some (find_from r q))
      → (erase_found l h r (λ q. erase_internal r q true)).1 ≡ true
  unfolding erase_found
  erased_found_lem leaf h r s d = refl
  erased_found_lem (node ll lk lv lh lr) h leaf s d = refl
  erased_found_lem (node ll lk lv lh lr) h (node rl rk rv rh rr) s d =
      rw (find_min_lem rl rk rv rh rr, erase_found)
        (d (least rl rk rv).0 ∙ rw (find_least rl rk rv rh rr s))

  pub erased_lem :
      (t : Node K V) (q : K) (b : Bool)
      → IsOrdered t
      → (erase_internal t q b).1 ≡ is_some (find_from t q)
  unfolding erase_internal find_from
  erased_lem leaf q b s = refl
  erased_lem (node l k v h r) q b s = ground (
    arith,
    erased_lem l q b s.2,
    erased_lem r q b s.3,
    erased_found_lem l h r s.3 (λ p. erased_lem r p true s.3),
  )
