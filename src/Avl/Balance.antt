-- ===== src/Avl/Balance.antt =====
-- The balance invariant: the stored heights are the heights, and those of siblings differ by one at
-- most. `insert_internal` and `erase_internal` keep it.
use awesome_dsa.Prelude.{ℕ, ◌+◌, ◌≤◌, ◌<◌, max, true, false, arith, ◌≡◌, refl, dec_lt, ◌⊎◌}
use awesome_dsa.Prelude.Int.{pos, negsuc, sub_ℕ, ltb_ℤ}
use awesome_dsa.Avl.{
  Node, leaf, node, get_height, rebalance, rotate_left, rotate_right, fix_left, fix_right,
}

negative : (a b : ℕ) → a < b → ltb_ℤ (sub_ℕ a b) (pos 0) ≡ true
negative a b h = ground arith

not_negative : (a b : ℕ) → b ≤ a → ltb_ℤ (sub_ℕ a b) (pos 0) ≡ false
not_negative a b h = ground arith

positive : (a b : ℕ) → b < a → ltb_ℤ (pos 0) (sub_ℕ a b) ≡ true
positive a b h = ground arith

not_positive : (a b : ℕ) → a ≤ b → ltb_ℤ (pos 0) (sub_ℕ a b) ≡ false
not_positive a b h = ground arith

-- The tests of `rebalance`, as the heights decide them.
over : (a b : ℕ) → a ≡ b + 2 → ltb_ℤ (pos 1) (sub_ℕ a b) ≡ true
over a b h = ground arith

pub not_over : (a b : ℕ) → a ≤ b + 1 → ltb_ℤ (pos 1) (sub_ℕ a b) ≡ false
not_over a b h = ground arith

under : (a b : ℕ) → b ≡ a + 2 → ltb_ℤ (sub_ℕ a b) (negsuc 0) ≡ true
under a b h = ground arith

pub not_under : (a b : ℕ) → b ≤ a + 1 → ltb_ℤ (sub_ℕ a b) (negsuc 0) ≡ false
not_under a b h = ground arith

module _ {ℓ κ} {K : Type ℓ} {V : Type κ} where
  abbrev pub IsBalanced : Node K V → Type 0
  IsBalanced leaf = Unit
  IsBalanced (node l k v h r) =
      (h ≡ 1 + max (get_height l) (get_height r))
      × (get_height l ≤ get_height r + 1)
      × (get_height r ≤ get_height l + 1)
      × IsBalanced l
      × IsBalanced r

  abbrev Rebalanced : Node K V → Node K V → Node K V → Type 0
  Rebalanced l r t =
      IsBalanced t
      × (max (get_height l) (get_height r) ≤ get_height t)
      × (get_height t ≤ max (get_height l) (get_height r) + 1)
      × ((get_height t ≡ max (get_height l) (get_height r) + 1)
          ⊎ ((get_height l ≡ get_height r + 2) ⊎ (get_height r ≡ get_height l + 2)))

  single_right :
      (a : Node K V) (xk : K) (xv : V) (x : ℕ) (b : Node K V) (k : K) (v : V) (h : ℕ) (c : Node K V)
      → IsBalanced (node a xk xv x b)
      → IsBalanced c
      → x ≡ get_height c + 2
      → get_height b ≤ get_height a
      → Rebalanced (node a xk xv x b) c (rotate_right (node (node a xk xv x b) k v h c))
  unfolding rotate_right
  single_right a xk xv x b k v h c p q e f = (
    (omega arith, omega arith, omega arith, p.3, (omega arith, omega arith, omega arith, p.4, q)),
    omega arith,
    omega arith,
    omega arith,
  )

  double_right :
      (a : Node K V) (xk : K) (xv : V) (x : ℕ) (b : Node K V) (yk : K) (yv : V) (y : ℕ)
      (c : Node K V) (k : K) (v : V) (h : ℕ) (d : Node K V)
      → IsBalanced (node a xk xv x (node b yk yv y c))
      → IsBalanced d
      → x ≡ get_height d + 2
      → get_height a < y
      → Rebalanced
          (node a xk xv x (node b yk yv y c))
          d
          (rotate_right (node (rotate_left (node a xk xv x (node b yk yv y c))) k v h d))
  unfolding rotate_right rotate_left
  double_right a xk xv x b yk yv y c k v h d p q e f = (
    (
      omega arith,
      omega arith,
      omega arith,
      (omega arith, omega arith, omega arith, p.3, p.4.3),
      (omega arith, omega arith, omega arith, p.4.4, q),
    ),
    omega arith,
    omega arith,
    omega arith,
  )

  single_left :
      (c : Node K V) (k : K) (v : V) (h : ℕ) (a : Node K V) (xk : K) (xv : V) (x : ℕ) (b : Node K V)
      → IsBalanced c
      → IsBalanced (node a xk xv x b)
      → x ≡ get_height c + 2
      → get_height a ≤ get_height b
      → Rebalanced c (node a xk xv x b) (rotate_left (node c k v h (node a xk xv x b)))
  unfolding rotate_left
  single_left c k v h a xk xv x b q p e f = (
    (omega arith, omega arith, omega arith, (omega arith, omega arith, omega arith, q, p.3), p.4),
    omega arith,
    omega arith,
    omega arith,
  )

  double_left :
      (d : Node K V) (k : K) (v : V) (h : ℕ) (b : Node K V) (yk : K) (yv : V) (y : ℕ) (c : Node K V)
      (xk : K) (xv : V) (x : ℕ) (a : Node K V)
      → IsBalanced d
      → IsBalanced (node (node b yk yv y c) xk xv x a)
      → x ≡ get_height d + 2
      → get_height a < y
      → Rebalanced d
          (node (node b yk yv y c) xk xv x a)
          (rotate_left (node d k v h (rotate_right (node (node b yk yv y c) xk xv x a))))
  unfolding rotate_right rotate_left
  double_left d k v h b yk yv y c xk xv x a q p e f = (
    (
      omega arith,
      omega arith,
      omega arith,
      (omega arith, omega arith, omega arith, q, p.3.3),
      (omega arith, omega arith, omega arith, p.3.4, p.4),
    ),
    omega arith,
    omega arith,
    omega arith,
  )

  left_heavy :
      (l : Node K V) (k : K) (v : V) (h : ℕ) (r : Node K V)
      → IsBalanced l
      → IsBalanced r
      → get_height l ≡ get_height r + 2
      → Rebalanced l r (rotate_right (fix_left (node l k v h r)))
  unfolding fix_left
  left_heavy leaf k v h r a b e = absurd (omega arith)
  left_heavy (node ll lk lv lh leaf) k v h r a b e =
      rw (not_negative (get_height ll) 0 (omega arith))
        (single_right ll lk lv lh leaf k v h r a b e (omega arith))
  left_heavy (node ll lk lv lh (node b yk yv y c)) k v h r a p e = elim (dec_lt (get_height ll) y) [
    | yes lt ↦
        rw (negative (get_height ll) y lt) (double_right ll lk lv lh b yk yv y c k v h r a p e lt)
    | no ge ↦
        rw (not_negative (get_height ll) y (omega arith))
          (single_right ll lk lv lh (node b yk yv y c) k v h r a p e (omega arith))
  ]

  right_heavy :
      (l : Node K V) (k : K) (v : V) (h : ℕ) (r : Node K V)
      → IsBalanced l
      → IsBalanced r
      → get_height r ≡ get_height l + 2
      → Rebalanced l r (rotate_left (fix_right (node l k v h r)))
  unfolding fix_right
  right_heavy l k v h leaf a b e = absurd (omega arith)
  right_heavy l k v h (node leaf rk rv rh rr) a b e =
      rw (not_positive 0 (get_height rr) (omega arith))
        (single_left l k v h leaf rk rv rh rr a b e (omega arith))
  right_heavy l k v h (node (node b yk yv y c) rk rv rh rr) a p e =
      elim (dec_lt (get_height rr) y) [
        | yes lt ↦
            rw (positive y (get_height rr) lt)
              (double_left l k v h b yk yv y c rk rv rh rr a p e lt)
        | no ge ↦
            rw (not_positive y (get_height rr) (omega arith))
              (single_left l k v h (node b yk yv y c) rk rv rh rr a p e (omega arith))
      ]

  pub rebalance-IsBalanced :
      (l : Node K V) (k : K) (v : V) (h : ℕ) (r : Node K V)
      → IsBalanced l
      → IsBalanced r
      → get_height l ≤ get_height r + 2
      → get_height r ≤ get_height l + 2
      → Rebalanced l r (rebalance (node l k v h r))
  unfolding rebalance
  rebalance-IsBalanced l k v h r a b p q =
      let hl = get_height l in
      let hr = get_height r in
      let top = 1 + max hl hr in
      elim (dec_lt (hr + 1) hl) [
        | yes gt ↦
            let e : hl ≡ hr + 2 = omega arith in rw (over hl hr e) (left_heavy l k v top r a b e)
        | no le ↦ elim (dec_lt (hl + 1) hr) [
          | yes gt ↦
              let e : hr ≡ hl + 2 = omega arith in
              rw (not_over hl hr (omega arith), under hl hr e) (right_heavy l k v top r a b e)
          | no ge ↦
              rw (not_over hl hr (omega arith), not_under hl hr (omega arith))
                ((refl, omega arith, omega arith, a, b), omega arith, omega arith, omega arith)
        ]
      ]
