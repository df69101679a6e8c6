-- ===== src/Avl/Inorder.antt =====
-- The traversal `inorder_internal` of an ordered tree.
use awesome_dsa.Prelude.{List, [], ◌∷◌, ◌++◌, length, length-append, arith, ◌≡◌, refl, sym}
use mathlib.Core.List.{append_assoc, append-nil}
use awesome_dsa.Prelude.Order.{Order, ◌≺◌}
use awesome_dsa.Prelude.Ascending.{Each, Ascending, Each-append, Ascending-append}
use awesome_dsa.Avl.{Node, leaf, node, inorder_internal}
use awesome_dsa.Avl.Rotations.{All, IsOrdered, count}

module _ {ℓ κ} {K : Type ℓ} {V : Type κ} where
  -- the keys, left subtree first
  abbrev pub keys : Node K V → List K
  keys leaf = []
  keys (node l k v h r) = keys l ++ k ∷ keys r

  pub inorder_internal_lem : (t : Node K V) (out : List K) → inorder_internal t out ≡ out ++ keys t
  unfolding inorder_internal
  inorder_internal_lem leaf out = sym (append-nil out)
  inorder_internal_lem (node l k v h r) out =
      simp (inorder_internal_lem l out, inorder_internal_lem r, append_assoc)

  pub length-keys : (t : Node K V) → length (keys t) ≡ count t
  length-keys leaf = refl
  length-keys (node l k v h r) =
      omega (arith, length-append (keys l) (k ∷ keys r), length-keys l, length-keys r)

  pub Each-keys {μ} : (P : K → Type μ) (t : Node K V) → All P t → Each P (keys t)
  Each-keys P leaf a = tt
  Each-keys P (node l k v h r) a =
      Each-append P (keys l) (k ∷ keys r) (Each-keys P l a.0) (a.1, Each-keys P r a.2)

module _ {ℓ κ} {K : Type ℓ} {V : Type κ} ⦃o : Order K⦄ where
  pub keys-Ascending : (t : Node K V) → IsOrdered t → Ascending (keys t)
  keys-Ascending leaf s = tt
  keys-Ascending (node l k v h r) s =
      Ascending-append k (keys l) (keys r) (keys-Ascending l s.2) (keys-Ascending r s.3)
        (Each-keys (λ x. x ≺ k) l s.0) (Each-keys (λ x. k ≺ x) r s.1)
