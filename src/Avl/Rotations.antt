-- ===== src/Avl/Rotations.antt =====
-- What a rotation and `rebalance` leave unchanged: the bounds on the keys, the search order, the
-- reading of every key, and the number of nodes.
use awesome_dsa.Prelude.{ℕ, ◌+◌, Bool, true, false, arith, ◌≡◌, ◌∙◌, refl, if◌then◌else◌}
use awesome_dsa.Prelude.Int.{pos, negsuc, ltb_ℤ}
use awesome_dsa.Prelude.Order.{Order, ◌≺◌, less_asymm}
use awesome_dsa.Avl.{
  Node, leaf, node, get_balance_factor, update_height, rotate_right, rotate_left, fix_left,
  fix_right, rebalance, find_from,
}

module _ {ℓ κ} {K : Type ℓ} {V : Type κ} where
  -- every key of the tree satisfies `P`
  abbrev pub All {μ} : (K → Type μ) → Node K V → Type μ
  All P leaf = Unit
  All P (node l k v h r) = All P l × P k × All P r

  abbrev pub count : Node K V → ℕ
  count leaf = 0
  count (node l k v h r) = count l + count r + 1

  pub All-imp {μ ν} :
      {P : K → Type μ} {R : K → Type ν}
      → ((x : K) → P x → R x)
      → (tree : Node K V) → All P tree
      → All R tree
  All-imp f leaf a = tt
  All-imp f (node left key v h right) a = (All-imp f left a.0, f key a.1, All-imp f right a.2)

  All-rotate_right {μ} : (P : K → Type μ) (t : Node K V) → All P t → All P (rotate_right t)
  unfolding rotate_right
  All-rotate_right P leaf a = a
  All-rotate_right P (node leaf k v h r) a = a
  All-rotate_right P (node (node x xk xv xh y) k v h r) a = (a.0.0, a.0.1, (a.0.2, a.1, a.2))

  All-rotate_left {μ} : (P : K → Type μ) (t : Node K V) → All P t → All P (rotate_left t)
  unfolding rotate_left
  All-rotate_left P leaf a = a
  All-rotate_left P (node l k v h leaf) a = a
  All-rotate_left P (node l k v h (node x xk xv xh y)) a = ((a.0, a.1, a.2.0), a.2.1, a.2.2)

  All-fix_left {μ} : (P : K → Type μ) (t : Node K V) → All P t → All P (fix_left t)
  unfolding fix_left
  All-fix_left P leaf a = a
  All-fix_left P (node l k v h r) a = ground (arith, All-rotate_left P l)

  All-fix_right {μ} : (P : K → Type μ) (t : Node K V) → All P t → All P (fix_right t)
  unfolding fix_right
  All-fix_right P leaf a = a
  All-fix_right P (node l k v h r) a = ground (arith, All-rotate_right P r)

  All-update_height {μ} : (P : K → Type μ) (t : Node K V) → All P t → All P (update_height t)
  unfolding update_height
  All-update_height P leaf a = a
  All-update_height P (node l k v h r) a = a

  -- An `if` over trees, split once for every property below.
  if_elim {μ} :
      (P : Node K V → Type μ) (b c : Bool) (x y z : Node K V)
      → P x
      → P y
      → P z
      → P (if b then x else if c then y else z)
  if_elim P true c x y z p q r = p
  if_elim P false true x y z p q r = q
  if_elim P false false x y z p q r = r

  -- A property that the four steps of `rebalance` keep is kept by `rebalance`.
  pub rebalance_elim {μ} :
      (P : Node K V → Type μ)
      → ((t : Node K V) → P t → P (update_height t))
      → ((t : Node K V) → P t → P (rotate_right (fix_left t)))
      → ((t : Node K V) → P t → P (rotate_left (fix_right t)))
      → (t : Node K V) → P t
      → P (rebalance t)
  unfolding rebalance
  rebalance_elim P up right left t p =
      let m = update_height t in
      let bf = get_balance_factor m in
      if_elim P (ltb_ℤ (pos 1) bf) (ltb_ℤ bf (negsuc 0)) (rotate_right (fix_left m))
        (rotate_left (fix_right m)) m (right m (up t p)) (left m (up t p)) (up t p)

  pub All-rebalance {μ} : (P : K → Type μ) (t : Node K V) → All P t → All P (rebalance t)
  All-rebalance P =
      rebalance_elim (All P) (All-update_height P)
        (λ t a. All-rotate_right P (fix_left t) (All-fix_left P t a))
        (λ t a. All-rotate_left P (fix_right t) (All-fix_right P t a))

  count-rotate_right : (t : Node K V) → count (rotate_right t) ≡ count t
  unfolding rotate_right
  count-rotate_right leaf = refl
  count-rotate_right (node leaf k v h r) = refl
  count-rotate_right (node (node x xk xv xh y) k v h r) = omega arith

  count-rotate_left : (t : Node K V) → count (rotate_left t) ≡ count t
  unfolding rotate_left
  count-rotate_left leaf = refl
  count-rotate_left (node l k v h leaf) = refl
  count-rotate_left (node l k v h (node x xk xv xh y)) = omega arith

  count-fix_left : (t : Node K V) → count (fix_left t) ≡ count t
  unfolding fix_left
  count-fix_left leaf = refl
  count-fix_left (node l k v h r) = ground (arith, count-rotate_left l)

  count-fix_right : (t : Node K V) → count (fix_right t) ≡ count t
  unfolding fix_right
  count-fix_right leaf = refl
  count-fix_right (node l k v h r) = ground (arith, count-rotate_right r)

  count-update_height : (t : Node K V) → count (update_height t) ≡ count t
  unfolding update_height
  count-update_height leaf = refl
  count-update_height (node l k v h r) = refl

  pub count-rebalance : (t : Node K V) → count (rebalance t) ≡ count t
  count-rebalance t =
      rebalance_elim (λ s. count s ≡ count t) (λ s e. count-update_height s ∙ e)
        (λ s e. count-rotate_right (fix_left s) ∙ (count-fix_left s ∙ e))
        (λ s e. count-rotate_left (fix_right s) ∙ (count-fix_right s ∙ e)) t refl

module _ {ℓ κ} {K : Type ℓ} {V : Type κ} ⦃o : Order K⦄ where
  abbrev pub Below : K → Node K V → Type 0
  Below b t = All (λ k. k ≺ b) t

  abbrev pub Above : K → Node K V → Type 0
  Above b t = All (λ k. b ≺ k) t

  abbrev pub IsOrdered : Node K V → Type 0
  IsOrdered leaf = Unit
  IsOrdered (node l k v h r) = Below k l × Above k r × IsOrdered l × IsOrdered r

  rotate_right-IsOrdered : (t : Node K V) → IsOrdered t → IsOrdered (rotate_right t)
  unfolding rotate_right
  rotate_right-IsOrdered leaf s = s
  rotate_right-IsOrdered (node leaf k v h r) s = s
  rotate_right-IsOrdered (node (node x xk xv xh y) k v h r) s = (
    s.2.0,
    (s.2.1, s.0.1, All-imp (λ c. o.less_trans xk k c s.0.1) r s.1),
    s.2.2,
    (s.0.2, s.1, s.2.3, s.3),
  )

  rotate_left-IsOrdered : (t : Node K V) → IsOrdered t → IsOrdered (rotate_left t)
  unfolding rotate_left
  rotate_left-IsOrdered leaf s = s
  rotate_left-IsOrdered (node l k v h leaf) s = s
  rotate_left-IsOrdered (node l k v h (node x xk xv xh y)) s = (
    (All-imp (λ c b. o.less_trans c k xk b s.1.1) l s.0, s.1.1, s.3.0),
    s.3.1,
    (s.0, s.1.0, s.2, s.3.2),
    s.3.3,
  )

  fix_left-IsOrdered : (t : Node K V) → IsOrdered t → IsOrdered (fix_left t)
  unfolding fix_left
  fix_left-IsOrdered leaf s = s
  fix_left-IsOrdered (node l k v h r) s =
      ground (arith, rotate_left-IsOrdered l, All-rotate_left (λ x. x ≺ k) l)

  fix_right-IsOrdered : (t : Node K V) → IsOrdered t → IsOrdered (fix_right t)
  unfolding fix_right
  fix_right-IsOrdered leaf s = s
  fix_right-IsOrdered (node l k v h r) s =
      ground (arith, rotate_right-IsOrdered r, All-rotate_right (λ x. k ≺ x) r)

  update_height-IsOrdered : (t : Node K V) → IsOrdered t → IsOrdered (update_height t)
  unfolding update_height
  update_height-IsOrdered leaf s = s
  update_height-IsOrdered (node l k v h r) s = s

  pub rebalance-IsOrdered : (t : Node K V) → IsOrdered t → IsOrdered (rebalance t)
  rebalance-IsOrdered =
      rebalance_elim IsOrdered update_height-IsOrdered
        (λ t s. rotate_right-IsOrdered (fix_left t) (fix_left-IsOrdered t s))
        (λ t s. rotate_left-IsOrdered (fix_right t) (fix_right-IsOrdered t s))

  find_from-rotate_right :
      (t : Node K V) (p : K) → IsOrdered t → find_from (rotate_right t) p ≡ find_from t p
  unfolding rotate_right find_from
  find_from-rotate_right leaf p s = refl
  find_from-rotate_right (node leaf k v h r) p s = refl
  find_from-rotate_right (node (node x xk xv xh y) k v h r) p s = ground (
    arith,
    s.0.1,
    o.less_trans p xk k,
    o.less_trans xk k p,
    less_asymm p k,
    less_asymm k p,
    o.less_connex p xk,
  )

  find_from-rotate_left :
      (t : Node K V) (p : K) → IsOrdered t → find_from (rotate_left t) p ≡ find_from t p
  unfolding rotate_left find_from
  find_from-rotate_left leaf p s = refl
  find_from-rotate_left (node l k v h leaf) p s = refl
  find_from-rotate_left (node l k v h (node x xk xv xh y)) p s = ground (
    arith,
    s.1.1,
    o.less_trans p k xk,
    o.less_trans k xk p,
    less_asymm p xk,
    less_asymm xk p,
    o.less_connex p xk,
  )

  find_from-fix_left :
      (t : Node K V) (p : K) → IsOrdered t → find_from (fix_left t) p ≡ find_from t p
  unfolding fix_left find_from
  find_from-fix_left leaf p s = refl
  find_from-fix_left (node l k v h r) p s = ground (arith, find_from-rotate_left l p s.2)

  find_from-fix_right :
      (t : Node K V) (p : K) → IsOrdered t → find_from (fix_right t) p ≡ find_from t p
  unfolding fix_right find_from
  find_from-fix_right leaf p s = refl
  find_from-fix_right (node l k v h r) p s = ground (arith, find_from-rotate_right r p s.3)

  find_from-update_height : (t : Node K V) (p : K) → find_from (update_height t) p ≡ find_from t p
  unfolding update_height find_from
  find_from-update_height leaf p = refl
  find_from-update_height (node l k v h r) p = refl

  -- `rebalance` changes no reading of an ordered tree.
  pub find_from-rebalance :
      (t : Node K V) (p : K) → IsOrdered t → find_from (rebalance t) p ≡ find_from t p
  find_from-rebalance t p s =
      (rebalance_elim (λ u. IsOrdered u × (find_from u p ≡ find_from t p))
        (λ u h. (update_height-IsOrdered u h.0, find_from-update_height u p ∙ h.1))
        (λ u h. (
          rotate_right-IsOrdered (fix_left u) (fix_left-IsOrdered u h.0),
          find_from-rotate_right (fix_left u) p (fix_left-IsOrdered u h.0)
              ∙ (find_from-fix_left u p h.0 ∙ h.1),
        ))
        (λ u h. (
          rotate_left-IsOrdered (fix_right u) (fix_right-IsOrdered u h.0),
          find_from-rotate_left (fix_right u) p (fix_right-IsOrdered u h.0)
              ∙ (find_from-fix_right u p h.0 ∙ h.1),
        ))
        t (s, refl)).1
