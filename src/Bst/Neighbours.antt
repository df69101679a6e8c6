-- ===== src/Bst/Neighbours.antt =====
-- The traversal of BinarySearchTree, and its least, greatest and neighbour searches as scans of it.
use awesome_dsa.Prelude.{
  Bool, true, false, Option, none, some, List, [], ◌∷◌, ◌++◌, length, length-append, arith, ◌≡◌,
  refl, sym, ◌∙◌, if◌then◌else◌,
}
use mathlib.Core.List.{append_assoc, append-nil}
use awesome_dsa.Prelude.Order.{Order, ◌≺◌}
use awesome_dsa.Prelude.Ascending.{Each, Ascending, Each-append, Ascending-append}
use awesome_dsa.Bst.{
  Node, leaf, node, leftmost, rightmost, inorder_recursive, successor_from, predecessor_from,
}
use awesome_dsa.Bst.Sorted.{All, All-imp, count, Below, Above, IsOrdered}

abbrev pub or_else {ℓ} : {A : Type ℓ} → Option A → Option A → Option A
or_else none b = b
or_else (some a) b = some a

module _ {ℓ} {A : Type ℓ} (test : A → Bool) where
  -- the first element, and the last, that passes the test
  abbrev pub first_that : List A → Option A
  first_that [] = none
  first_that (x ∷ xs) = if test x then some x else first_that xs

  abbrev pub last_that : List A → Option A
  last_that [] = none
  last_that (x ∷ xs) = or_else (last_that xs) (if test x then some x else none)

  first_that-append :
      (xs ys : List A) → first_that (xs ++ ys) ≡ or_else (first_that xs) (first_that ys)
  first_that-append [] ys = refl
  first_that-append (x ∷ xs) ys = ground (arith, first_that-append xs ys)

  last_that-append : (xs ys : List A) → last_that (xs ++ ys) ≡ or_else (last_that ys) (last_that xs)
  last_that-append [] ys = ground arith
  last_that-append (x ∷ xs) ys = ground (arith, last_that-append xs ys)

  first_that-none : (xs : List A) → Each (λ x. test x ≡ false) xs → first_that xs ≡ none
  first_that-none [] e = refl
  first_that-none (x ∷ xs) e = rw e.0 (first_that-none xs e.1)

  last_that-none : (xs : List A) → Each (λ x. test x ≡ false) xs → last_that xs ≡ none
  last_that-none [] e = refl
  last_that-none (x ∷ xs) e = rw (e.0, last_that-none xs e.1)

module _ {ℓ} {K : Type ℓ} where
  -- the keys, left subtree first
  abbrev pub keys : Node K → List K
  keys leaf = []
  keys (node l k r) = keys l ++ k ∷ keys r

  pub inorder_recursive_lem : (t : Node K) (out : List K) → inorder_recursive t out ≡ out ++ keys t
  unfolding inorder_recursive
  inorder_recursive_lem leaf out = sym (append-nil out)
  inorder_recursive_lem (node l k r) out =
      simp (inorder_recursive_lem l out, inorder_recursive_lem r, append_assoc)

  pub length-keys : (t : Node K) → length (keys t) ≡ count t
  length-keys leaf = refl
  length-keys (node l k r) =
      omega (arith, length-append (keys l) (k ∷ keys r), length-keys l, length-keys r)

  pub Each-keys {μ} : (P : K → Type μ) (t : Node K) → All P t → Each P (keys t)
  Each-keys P leaf a = tt
  Each-keys P (node l k r) a =
      Each-append P (keys l) (k ∷ keys r) (Each-keys P l a.0) (a.1, Each-keys P r a.2)

  abbrev pub any : K → Bool
  any _ = true

  pub leftmost-first : (t : Node K) → leftmost t ≡ first_that any (keys t)
  unfolding leftmost
  leftmost-first leaf = refl
  leftmost-first (node leaf k r) = refl
  leftmost-first (node (node a x b) k r) =
      leftmost-first (node a x b)
      ∙ ground (
        arith,
        first_that-append any (keys (node a x b)) (k ∷ keys r),
        first_that-append any (keys a) (x ∷ keys b),
      )

  pub rightmost-last : (t : Node K) → rightmost t ≡ last_that any (keys t)
  unfolding rightmost
  rightmost-last leaf = refl
  rightmost-last (node l k leaf) = ground (arith, last_that-append any (keys l) (k ∷ []))
  rightmost-last (node l k (node a x b)) =
      rightmost-last (node a x b)
      ∙ ground (
        arith,
        last_that-append any (keys l) (k ∷ keys (node a x b)),
        last_that-append any (keys a) (x ∷ keys b),
      )

module _ {ℓ} {K : Type ℓ} ⦃o : Order K⦄ where
  pub keys-Ascending : (t : Node K) → IsOrdered t → Ascending (keys t)
  keys-Ascending leaf s = tt
  keys-Ascending (node l k r) s =
      Ascending-append k (keys l) (keys r) (keys-Ascending l s.2) (keys-Ascending r s.3)
        (Each-keys (λ x. x ≺ k) l s.0) (Each-keys (λ x. k ≺ x) r s.1)

  none_above :
      (l : Node K) (k q : K)
      → Below k l
      → o.less q k ≡ false
      → first_that (o.less q) (keys l) ≡ none
  none_above l k q b e = first_that-none (o.less q) (keys l) (
      Each-keys (λ x. o.less q x ≡ false) l
        (All-imp (λ x h. ground (arith, o.less_trans q x k, h)) l b))

  none_below :
      (r : Node K) (k q : K)
      → Above k r
      → o.less k q ≡ false
      → last_that (λ x. o.less x q) (keys r) ≡ none
  none_below r k q b e =
      last_that-none (λ x. o.less x q) (keys r)
        (Each-keys (λ x. o.less x q ≡ false) r
          (All-imp (λ x h. ground (arith, o.less_trans k x q, h)) r b))

  pub successor_from_lem :
      (t : Node K) (q : K) (succ : Option K)
      → IsOrdered t
      → successor_from t q succ ≡ or_else (first_that (o.less q) (keys t)) succ
  unfolding successor_from
  successor_from_lem leaf q succ s = refl
  successor_from_lem (node l k r) q succ s = ground (
    arith,
    successor_from_lem l q (some k) s.2,
    successor_from_lem r q succ s.3,
    first_that-append (o.less q) (keys l) (k ∷ keys r),
    none_above l k q s.0,
  )

  pub predecessor_from_lem :
      (t : Node K) (q : K) (before : Option K)
      → IsOrdered t
      → predecessor_from t q before ≡ or_else (last_that (λ x. o.less x q) (keys t)) before
  unfolding predecessor_from
  predecessor_from_lem leaf q before s = refl
  predecessor_from_lem (node l k r) q before s = ground (
    arith,
    predecessor_from_lem r q (some k) s.3,
    predecessor_from_lem l q before s.2,
    last_that-append (λ x. o.less x q) (keys l) (k ∷ keys r),
    none_below r k q s.1,
  )
