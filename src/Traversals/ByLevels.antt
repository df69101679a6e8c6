-- ===== src/Traversals/ByLevels.antt =====
-- The traversals with a queue give the values level by level.
use mathlib.Core.List.{append_assoc, append-nil}
use awesome_dsa.Prelude.{
  ℕ, zero, suc, ◌+◌, ◌≤◌, some, List, [], ◌∷◌, ◌++◌, length, arith, ◌≡◌, refl, sym, ◌∙◌, ap,
}
use awesome_dsa.Prelude.{max}
use awesome_dsa.Prelude.Int.{pos, ◌+ℤ◌, sub_ℕ}
use awesome_dsa.Traversals.{
  TreeNode, null, node, level_loop, level_order, one_level, levels_loop, level_order_by_levels,
  tree_height, max_ℤ, tree_size,
}
use awesome_dsa.Traversals.Forest.{
  beside, depths, concat, AllNodes, roots, front, children, forest, sizes, forest_lem,
  enqueue_child-front, front-append, front-AllNodes, children-AllNodes, AllNodes-append,
  sizes-front, sizes-append,
}

one_more : (a b : ℕ) → pos 1 +ℤ max_ℤ (sub_ℕ a 1) (sub_ℕ b 1) ≡ sub_ℕ (suc (max a b)) 1
unfolding ◌+ℤ◌
one_more a b = ground arith

-- With the nodes `q` of a level before the nodes `ks` of the next one, in the queue, the loop with
-- `n` rounds gives the rest of the level, and then the levels after it.
abbrev Finishes {ℓ} : Type ℓ → ℕ → Type ℓ
Finishes V n =
    (q ks : List (TreeNode V)) (out : List V)
    → AllNodes q
    → AllNodes ks
    → sizes q + sizes ks ≤ n
    → level_loop n (q ++ ks) out ≡ some (out ++ (roots q ++ concat (forest (ks ++ children q))))

module _ {ℓ} {V : Type ℓ} where
  one_round :
      (n : ℕ) (v : V) (l r : TreeNode V) (q ks : List (TreeNode V)) (out : List V)
      → Finishes V n
      → AllNodes q
      → AllNodes ks
      → sizes (node v l r ∷ q) + sizes ks ≤ suc n
      → level_loop (suc n) ((node v l r ∷ q) ++ ks) out
        ≡ some
            (out ++ (roots (node v l r ∷ q) ++ concat (forest (ks ++ children (node v l r ∷ q)))))
  unfolding level_loop tree_size
  one_round n v l r q ks out finishes h g le =
      let next = ks ++ front l (front r []) in
      let count = sizes-append ks (front l (front r [])) in
      let count_l = sizes-front l (front r []) in
      let count_r = sizes-front r [] in
      ap (λ k. level_loop n k (out ++ v ∷ [])) (enqueue_child-front l r q ks)
      ∙ finishes q next (out ++ v ∷ []) h
          (AllNodes-append ks (front l (front r [])) g
            (front-AllNodes l (front r []) (front-AllNodes r [] tt)))
          (omega arith)
      ∙ ap some (
          append_assoc out (v ∷ []) (roots q ++ concat (forest (next ++ children q)))
          ∙ ap (λ k. out ++ v ∷ (roots q ++ concat (forest k))) (front-append l r ks (children q)))

  level_loop_lem : (n : ℕ) → Finishes V n
  unfolding level_loop tree_size
  level_loop_lem zero [] [] out h g le = ap some (sym (append-nil out))
  level_loop_lem zero [] (null ∷ ks) out h (g, gs) le = absurd g
  level_loop_lem zero [] (node v l r ∷ ks) out h g le = absurd (omega arith)
  level_loop_lem zero (null ∷ q) ks out (h, hs) g le = absurd h
  level_loop_lem zero (node v l r ∷ q) ks out h g le = absurd (omega arith)
  level_loop_lem (suc n) [] [] out h g le = ap some (sym (append-nil out))
  level_loop_lem (suc n) [] (null ∷ ks) out h (g, gs) le = absurd g
  level_loop_lem (suc n) [] (node v l r ∷ ks) out h (g, gs) le =
      let t : TreeNode V = node v l r in
      ap (λ k. level_loop (suc n) k out) (sym (append-nil (t ∷ ks)))
      ∙ one_round n v l r ks [] out (level_loop_lem n) gs tt (omega arith)
      ∙ ap some (
          ap (λ k. out ++ concat k)
            (sym (forest_lem t ks (g, gs)) ∙ ap forest (sym (append-nil (t ∷ ks)))))
  level_loop_lem (suc n) (null ∷ q) ks out (h, hs) g le = absurd h
  level_loop_lem (suc n) (node v l r ∷ q) ks out (h, hs) g le =
      one_round n v l r q ks out (level_loop_lem n) hs g le

  one_level_lem :
      (q ks : List (TreeNode V)) (level : List V)
      → AllNodes q
      → one_level (length q) (q ++ ks) level ≡ some (ks ++ children q, level ++ roots q)
  unfolding one_level
  one_level_lem [] ks level h =
      ap (λ k. some (k, level)) (sym (append-nil ks))
      ∙ ap (λ k. some (ks ++ [], k)) (sym (append-nil level))
  one_level_lem (null ∷ q) ks level (h, hs) = absurd h
  one_level_lem (node v l r ∷ q) ks level (h, hs) =
      ap (λ k. one_level (length q) k (level ++ v ∷ [])) (enqueue_child-front l r q ks)
      ∙ one_level_lem q (ks ++ front l (front r [])) (level ++ v ∷ []) hs
      ∙ ap (λ k. some (k, (level ++ v ∷ []) ++ roots q)) (front-append l r ks (children q))
      ∙ ap (λ k. some (ks ++ front l (front r (children q)), k))
          (append_assoc level (v ∷ []) (roots q))

  levels_loop_lem :
      (n : ℕ) (q : List (TreeNode V)) (levels : List (List V))
      → AllNodes q
      → length (forest q) ≤ n
      → levels_loop n q levels ≡ some (levels ++ forest q)
  unfolding levels_loop
  levels_loop_lem zero [] levels h le = ap some (sym (append-nil levels))
  levels_loop_lem zero (t ∷ q) levels h le = absurd (omega (arith, ap length (forest_lem t q h)))
  levels_loop_lem (suc n) [] levels h le = ap some (sym (append-nil levels))
  levels_loop_lem (suc n) (t ∷ q) levels h le =
      let split = forest_lem t q h in
      let level =
        ap (λ k. one_level (length (t ∷ q)) k []) (sym (append-nil (t ∷ q)))
        ∙ one_level_lem (t ∷ q) [] [] h in
      rw (levels_loop, level)
        (levels_loop_lem n (children (t ∷ q)) (levels ++ roots (t ∷ q) ∷ [])
            (children-AllNodes (t ∷ q)) (omega (arith, ap length split))
          ∙ ap some (
              append_assoc levels (roots (t ∷ q) ∷ []) (forest (children (t ∷ q)))
              ∙ ap (λ k. levels ++ k) (sym split)))

  length-beside : (xs ys : List (List V)) → length (beside xs ys) ≡ max (length xs) (length ys)
  length-beside [] ys = omega arith
  length-beside (x ∷ xs) [] = omega arith
  length-beside (x ∷ xs) (y ∷ ys) = omega (arith, length-beside xs ys)

  -- The height is one less than the number of levels.
  tree_height_lem : (t : TreeNode V) → tree_height t ≡ sub_ℕ (length (depths t)) 1
  unfolding tree_height
  tree_height_lem null = ground arith
  tree_height_lem (node v l r) =
      ap (λ k. pos 1 +ℤ max_ℤ k (tree_height r)) (tree_height_lem l)
      ∙ ap (λ k. pos 1 +ℤ max_ℤ (sub_ℕ (length (depths l)) 1) k) (tree_height_lem r)
      ∙ one_more (length (depths l)) (length (depths r))
      ∙ ap (λ k. sub_ℕ (suc k) 1) (sym (length-beside (depths l) (depths r)))

  -- With as many rounds as there are nodes, or more, `level_order` gives the values level by level, from
  -- left to right; with as many as there are levels, `level_order_by_levels` gives the list of
  -- levels, and the height is one less than their number.
  pub level_orders_lem :
      (root : TreeNode V) (fuel rounds : ℕ)
      → tree_size root ≤ fuel
      → length (depths root) ≤ rounds
      → (level_order fuel root ≡ some (concat (depths root)))
        × (level_order_by_levels rounds root ≡ some (depths root))
        × (tree_height root ≡ sub_ℕ (length (depths root)) 1)
  unfolding level_order level_order_by_levels tree_size
  level_orders_lem null fuel rounds h g = (refl, refl, tree_height_lem null)
  level_orders_lem (node v l r) fuel rounds h g =
      let t : TreeNode V = node v l r in
      (
        level_loop_lem fuel [] (t ∷ []) [] tt (tt, tt) (omega arith),
        levels_loop_lem rounds (t ∷ []) [] (tt, tt) g,
        tree_height_lem t,
      )
