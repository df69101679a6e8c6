-- ===== src/Traversals/Nary/ByLevels.antt =====
-- The traversal of an n-ary tree with a queue gives the values level by level.
use mathlib.Core.List.{append_assoc, append-nil}
use awesome_dsa.Prelude.{
  ℕ, zero, suc, ◌+◌, ◌≤◌, some, List, [], ◌∷◌, ◌++◌, arith, ◌≡◌, refl, sym, ◌∙◌, ap,
}
use awesome_dsa.Traversals.Forest.{beside, beside-nil, beside_assoc, concat}
use awesome_dsa.Traversals.Nary.{
  NaryNode, null, node, Children, end, child, enqueue_children, nary_loop, nary_level_order,
}

-- The values at each depth, from left to right.
abbrev mutual
  pub nary_depths {ℓ} : {V : Type ℓ} → NaryNode V → List (List V)
  nary_depths null = []
  nary_depths (node v children) = (v ∷ []) ∷ child_depths children

  pub child_depths {ℓ} : {V : Type ℓ} → Children V → List (List V)
  child_depths end = []
  child_depths (child t children) = beside (nary_depths t) (child_depths children)

abbrev mutual
  pub nary_size {ℓ} : {V : Type ℓ} → NaryNode V → ℕ
  nary_size null = 0
  nary_size (node v children) = suc (child_sizes children)

  pub child_sizes {ℓ} : {V : Type ℓ} → Children V → ℕ
  child_sizes end = 0
  child_sizes (child t children) = nary_size t + child_sizes children

module _ {ℓ} {V : Type ℓ} where
  abbrev IsNode : NaryNode V → Type 0
  IsNode null = ⊥
  IsNode (node v children) = Unit

  abbrev AllNodes : List (NaryNode V) → Type 0
  AllNodes [] = Unit
  AllNodes (t ∷ q) = IsNode t × AllNodes q

  abbrev roots : List (NaryNode V) → List V
  roots [] = []
  roots (null ∷ q) = roots q
  roots (node v children ∷ q) = v ∷ roots q

  -- The children that are there, in order.
  abbrev kids : Children V → List (NaryNode V)
  kids end = []
  kids (child null children) = kids children
  kids (child (node v below) children) = node v below ∷ kids children

  abbrev next_level : List (NaryNode V) → List (NaryNode V)
  next_level [] = []
  next_level (null ∷ q) = next_level q
  next_level (node v children ∷ q) = kids children ++ next_level q

  abbrev forest : List (NaryNode V) → List (List V)
  forest [] = []
  forest (t ∷ q) = beside (nary_depths t) (forest q)

  abbrev sizes : List (NaryNode V) → ℕ
  sizes [] = 0
  sizes (t ∷ q) = nary_size t + sizes q

  forest-append : (q ks : List (NaryNode V)) → forest (q ++ ks) ≡ beside (forest q) (forest ks)
  forest-append [] ks = refl
  forest-append (t ∷ q) ks =
      ap (beside (nary_depths t)) (forest-append q ks)
      ∙ sym (beside_assoc (nary_depths t) (forest q) (forest ks))

  forest-kids : (cs : Children V) → forest (kids cs) ≡ child_depths cs
  forest-kids end = refl
  forest-kids (child null cs) = forest-kids cs
  forest-kids (child (node v below) cs) = ap (beside (nary_depths (node v below))) (forest-kids cs)

  forest_lem :
      (t : NaryNode V) (q : List (NaryNode V))
      → AllNodes (t ∷ q)
      → forest (t ∷ q) ≡ roots (t ∷ q) ∷ forest (next_level (t ∷ q))
  forest_lem null q (h, hs) = absurd h
  forest_lem (node v cs) [] (h, hs) =
      ap (λ k. (v ∷ []) ∷ k) (sym (forest-kids cs) ∙ ap forest (sym (append-nil (kids cs))))
  forest_lem (node v cs) (t ∷ q) (h, hs) =
      ap (beside ((v ∷ []) ∷ child_depths cs)) (forest_lem t q hs)
      ∙ ap (λ k. (v ∷ roots (t ∷ q)) ∷ k)
          (ap (λ k. beside k (forest (next_level (t ∷ q)))) (sym (forest-kids cs))
            ∙ sym (forest-append (kids cs) (next_level (t ∷ q))))

  enqueue_children-kids :
      (cs : Children V) (q : List (NaryNode V)) → enqueue_children cs q ≡ q ++ kids cs
  unfolding enqueue_children
  enqueue_children-kids end q = sym (append-nil q)
  enqueue_children-kids (child null cs) q = enqueue_children-kids cs q
  enqueue_children-kids (child (node v below) cs) q =
      enqueue_children-kids cs (q ++ node v below ∷ [])
      ∙ append_assoc q (node v below ∷ []) (kids cs)

  kids-AllNodes : (cs : Children V) → AllNodes (kids cs)
  kids-AllNodes end = tt
  kids-AllNodes (child null cs) = kids-AllNodes cs
  kids-AllNodes (child (node v below) cs) = (tt, kids-AllNodes cs)

  AllNodes-append : (q ks : List (NaryNode V)) → AllNodes q → AllNodes ks → AllNodes (q ++ ks)
  AllNodes-append [] ks h g = g
  AllNodes-append (t ∷ q) ks (h, hs) g = (h, AllNodes-append q ks hs g)

  sizes-append : (q ks : List (NaryNode V)) → sizes (q ++ ks) ≡ sizes q + sizes ks
  sizes-append [] ks = omega arith
  sizes-append (t ∷ q) ks = omega (arith, sizes-append q ks)

  sizes-kids : (cs : Children V) → sizes (kids cs) ≡ child_sizes cs
  sizes-kids end = refl
  sizes-kids (child null cs) = omega (arith, sizes-kids cs)
  sizes-kids (child (node v below) cs) = omega (arith, sizes-kids cs)

  -- With the nodes `q` of a level before the nodes `ks` of the next one in the queue, the loop gives
  -- the rest of the level, and then the levels after it.
  one_node :
      (n : ℕ) (v : V) (cs : Children V) (q ks : List (NaryNode V)) (out : List V)
      → ((q ks : List (NaryNode V)) (out : List V)
          → AllNodes q
          → AllNodes ks
          → sizes q + sizes ks ≤ n
          → nary_loop n (q ++ ks) out
            ≡ some (out ++ (roots q ++ concat (forest (ks ++ next_level q)))))
      → AllNodes q
      → AllNodes ks
      → sizes (node v cs ∷ q) + sizes ks ≤ suc n
      → nary_loop (suc n) ((node v cs ∷ q) ++ ks) out
        ≡ some
            (out ++ (roots (node v cs ∷ q) ++ concat (forest (ks ++ next_level (node v cs ∷ q)))))
  unfolding nary_loop
  one_node n v cs q ks out finishes h g le =
      let next = ks ++ kids cs in
      ap (λ k. nary_loop n k (out ++ v ∷ []))
        (enqueue_children-kids cs (q ++ ks) ∙ append_assoc q ks (kids cs))
      ∙ finishes q next (out ++ v ∷ []) h (AllNodes-append ks (kids cs) g (kids-AllNodes cs))
          (omega (arith, sizes-append ks (kids cs), sizes-kids cs))
      ∙ ap some (
          append_assoc out (v ∷ []) (roots q ++ concat (forest (next ++ next_level q)))
          ∙ ap (λ k. out ++ v ∷ (roots q ++ concat (forest k)))
              (append_assoc ks (kids cs) (next_level q)))

  nary_loop_lem :
      (n : ℕ) (q ks : List (NaryNode V)) (out : List V)
      → AllNodes q
      → AllNodes ks
      → sizes q + sizes ks ≤ n
      → nary_loop n (q ++ ks) out ≡ some (out ++ (roots q ++ concat (forest (ks ++ next_level q))))
  unfolding nary_loop
  nary_loop_lem zero [] [] out h g le = ap some (sym (append-nil out))
  nary_loop_lem zero [] (null ∷ ks) out h (g, gs) le = absurd g
  nary_loop_lem zero [] (node v cs ∷ ks) out h g le = absurd (omega arith)
  nary_loop_lem zero (null ∷ q) ks out (h, hs) g le = absurd h
  nary_loop_lem zero (node v cs ∷ q) ks out h g le = absurd (omega arith)
  nary_loop_lem (suc n) [] [] out h g le = ap some (sym (append-nil out))
  nary_loop_lem (suc n) [] (null ∷ ks) out h (g, gs) le = absurd g
  nary_loop_lem (suc n) [] (node v cs ∷ ks) out h (g, gs) le =
      let t : NaryNode V = node v cs in
      ap (λ k. nary_loop (suc n) k out) (sym (append-nil (t ∷ ks)))
      ∙ one_node n v cs ks [] out (nary_loop_lem n) gs tt (omega arith)
      ∙ ap some (
          ap (λ k. out ++ concat k)
            (sym (forest_lem t ks (g, gs)) ∙ ap forest (sym (append-nil (t ∷ ks)))))
  nary_loop_lem (suc n) (null ∷ q) ks out (h, hs) g le = absurd h
  nary_loop_lem (suc n) (node v cs ∷ q) ks out (h, hs) g le =
      one_node n v cs q ks out (nary_loop_lem n) hs g le

  -- With as many rounds as the tree has nodes, or more, the loop of `nary_level_order` ends and gives
  -- the values level by level, from left to right.
  pub nary_level_order_lem :
      (root : NaryNode V) (fuel : ℕ)
      → nary_size root ≤ fuel
      → nary_level_order fuel root ≡ some (concat (nary_depths root))
  unfolding nary_level_order
  nary_level_order_lem null fuel h = refl
  nary_level_order_lem (node v cs) fuel h =
      nary_loop_lem fuel [] (node v cs ∷ []) [] tt (tt, tt) (omega arith)
      ∙ ap (λ k. some (concat k)) (beside-nil (nary_depths (node v cs)))
