-- ===== src/Traversals/Forest.antt =====
-- The levels of the trees in a queue.
use mathlib.Core.List.{append_assoc, append-nil}
use awesome_dsa.Prelude.{ℕ, ◌+◌, List, [], ◌∷◌, ◌++◌, arith, ◌≡◌, refl, sym, ◌∙◌, ap}
use awesome_dsa.Traversals.{TreeNode, null, node, enqueue_child, tree_size}

module _ {ℓ} {V : Type ℓ} where
  -- Two lists of levels side by side.
  abbrev pub beside : List (List V) → List (List V) → List (List V)
  beside [] bs = bs
  beside (a ∷ xs) [] = a ∷ xs
  beside (a ∷ xs) (b ∷ bs) = (a ++ b) ∷ beside xs bs

  -- The values at each depth, from left to right.
  abbrev pub depths : TreeNode V → List (List V)
  depths null = []
  depths (node v l r) = (v ∷ []) ∷ beside (depths l) (depths r)

  abbrev pub concat : List (List V) → List V
  concat [] = []
  concat (xs ∷ xss) = xs ++ concat xss

  abbrev pub IsNode : TreeNode V → Type 0
  IsNode null = ⊥
  IsNode (node v l r) = Unit

  abbrev pub AllNodes : List (TreeNode V) → Type 0
  AllNodes [] = Unit
  AllNodes (t ∷ q) = IsNode t × AllNodes q

  abbrev pub roots : List (TreeNode V) → List V
  roots [] = []
  roots (null ∷ q) = roots q
  roots (node v l r ∷ q) = v ∷ roots q

  abbrev pub front : TreeNode V → List (TreeNode V) → List (TreeNode V)
  front null q = q
  front (node v l r) q = node v l r ∷ q

  -- The children that are there, in order.
  abbrev pub children : List (TreeNode V) → List (TreeNode V)
  children [] = []
  children (null ∷ q) = children q
  children (node v l r ∷ q) = front l (front r (children q))

  abbrev pub forest : List (TreeNode V) → List (List V)
  forest [] = []
  forest (t ∷ q) = beside (depths t) (forest q)

  abbrev pub sizes : List (TreeNode V) → ℕ
  sizes [] = 0
  sizes (t ∷ q) = tree_size t + sizes q

  pub beside-nil : (xs : List (List V)) → beside xs [] ≡ xs
  beside-nil [] = refl
  beside-nil (x ∷ xs) = refl

  pub beside_assoc :
      (xs ys zs : List (List V)) → beside (beside xs ys) zs ≡ beside xs (beside ys zs)
  beside_assoc [] ys zs = refl
  beside_assoc (x ∷ xs) [] zs = refl
  beside_assoc (x ∷ xs) (y ∷ ys) [] = refl
  beside_assoc (x ∷ xs) (y ∷ ys) (z ∷ zs) =
      ap (λ k. k ∷ beside (beside xs ys) zs) (append_assoc x y z)
      ∙ ap (λ k. (x ++ (y ++ z)) ∷ k) (beside_assoc xs ys zs)

  pub front-forest :
      (t : TreeNode V) (q : List (TreeNode V)) → forest (front t q) ≡ beside (depths t) (forest q)
  front-forest null q = refl
  front-forest (node v l r) q = refl

  -- A queue of nodes shows its first level in front of those of the children.
  pub forest_lem :
      (t : TreeNode V) (q : List (TreeNode V))
      → AllNodes (t ∷ q)
      → forest (t ∷ q) ≡ roots (t ∷ q) ∷ forest (children (t ∷ q))
  forest_lem null q (h, hs) = absurd h
  forest_lem (node v l r) [] (h, hs) =
      ap (λ k. (v ∷ []) ∷ k)
        (ap (beside (depths l)) (sym (beside-nil (depths r)) ∙ sym (front-forest r []))
          ∙ sym (front-forest l (front r [])))
  forest_lem (node v l r) (t ∷ q) (h, hs) =
      ap (λ k. beside ((v ∷ []) ∷ beside (depths l) (depths r)) k) (forest_lem t q hs)
      ∙ ap (λ k. (v ∷ roots (t ∷ q)) ∷ k)
          (beside_assoc (depths l) (depths r) (forest (children (t ∷ q)))
            ∙ ap (beside (depths l)) (sym (front-forest r (children (t ∷ q))))
            ∙ sym (front-forest l (front r (children (t ∷ q)))))

  pub enqueue_child-front :
      (l r : TreeNode V) (q ks : List (TreeNode V))
      → enqueue_child r (enqueue_child l (q ++ ks)) ≡ q ++ (ks ++ front l (front r []))
  unfolding enqueue_child
  enqueue_child-front null null q ks = ap (λ k. q ++ k) (sym (append-nil ks))
  enqueue_child-front null (node w a b) q ks = append_assoc q ks (node w a b ∷ [])
  enqueue_child-front (node v c d) null q ks = append_assoc q ks (node v c d ∷ [])
  enqueue_child-front (node v c d) (node w a b) q ks =
      append_assoc (q ++ ks) (node v c d ∷ []) (node w a b ∷ [])
      ∙ append_assoc q ks (node v c d ∷ node w a b ∷ [])

  pub front-append :
      (l r : TreeNode V) (ks zs : List (TreeNode V))
      → (ks ++ front l (front r [])) ++ zs ≡ ks ++ front l (front r zs)
  front-append null null ks zs = append_assoc ks [] zs
  front-append null (node w a b) ks zs = append_assoc ks (node w a b ∷ []) zs
  front-append (node v c d) null ks zs = append_assoc ks (node v c d ∷ []) zs
  front-append (node v c d) (node w a b) ks zs = append_assoc ks (node v c d ∷ node w a b ∷ []) zs

  pub front-AllNodes : (t : TreeNode V) (q : List (TreeNode V)) → AllNodes q → AllNodes (front t q)
  front-AllNodes null q h = h
  front-AllNodes (node v l r) q h = (tt, h)

  pub children-AllNodes : (q : List (TreeNode V)) → AllNodes (children q)
  children-AllNodes [] = tt
  children-AllNodes (null ∷ q) = children-AllNodes q
  children-AllNodes (node v l r ∷ q) =
      front-AllNodes l (front r (children q)) (front-AllNodes r (children q) (children-AllNodes q))

  pub AllNodes-append : (q ks : List (TreeNode V)) → AllNodes q → AllNodes ks → AllNodes (q ++ ks)
  AllNodes-append [] ks h g = g
  AllNodes-append (t ∷ q) ks (h, hs) g = (h, AllNodes-append q ks hs g)

  pub sizes-front :
      (t : TreeNode V) (q : List (TreeNode V)) → sizes (front t q) ≡ tree_size t + sizes q
  unfolding tree_size
  sizes-front null q = omega arith
  sizes-front (node v l r) q = refl

  pub sizes-append : (q ks : List (TreeNode V)) → sizes (q ++ ks) ≡ sizes q + sizes ks
  sizes-append [] ks = omega arith
  sizes-append (t ∷ q) ks = omega (arith, sizes-append q ks)
