-- ===== src/Traversals/Iterative.antt =====
-- The traversals with stacks give what the recursive ones give.
use awesome_dsa.Prelude.{
  ℕ, zero, suc, ◌+◌, ◌-◌, ◌≤◌, some, List, [], ◌∷◌, ◌++◌, arith, ◌≡◌, refl, ◌∙◌, ap,
}
use awesome_dsa.Traversals.{
  TreeNode, null, node, preorder_recursive, inorder_recursive, postorder_recursive, push_child,
  preorder_loop, preorder_iterative, push_left, inorder_loop, inorder_iterative, fill_second,
  pop_second, postorder_iterative,
}

module _ {ℓ} {V : Type ℓ} where
  abbrev pub count : TreeNode V → ℕ
  count null = 0
  count (node v l r) = count l + count r + 1

  preorder_loop_lem :
      (t : TreeNode V) (m n : ℕ) (st : List (TreeNode V)) (out : List V)
      → m ≡ n + count t
      → preorder_loop m (push_child t st) out ≡ preorder_loop n st (preorder_recursive t out)
  unfolding push_child preorder_recursive preorder_loop
  preorder_loop_lem null m n st out e = ap (λ k. preorder_loop k st out) (omega (arith, e))
  preorder_loop_lem (node v l r) zero n st out e = absurd (omega (arith, e))
  preorder_loop_lem (node v l r) (suc m) n st out e =
      preorder_loop_lem l m (n + count r) (push_child r st) (out ++ v ∷ []) (omega (arith, e))
      ∙ preorder_loop_lem r (n + count r) n st (preorder_recursive l (out ++ v ∷ [])) refl

  preorder_done : (n : ℕ) (out : List V) → preorder_loop n [] out ≡ some out
  unfolding preorder_loop
  preorder_done zero out = refl
  preorder_done (suc n) out = refl

  -- With the number of nodes as fuel, or more, the loop ends, and `preorder_iterative` gives the order
  -- of `preorder_recursive`.
  preorder_iterative_lem :
      (root : TreeNode V) (fuel : ℕ)
      → count root ≤ fuel
      → preorder_iterative fuel root ≡ some (preorder_recursive root [])
  unfolding preorder_iterative preorder_recursive push_child
  preorder_iterative_lem null fuel h = refl
  preorder_iterative_lem (node v l r) fuel h =
      preorder_loop_lem (node v l r) fuel (fuel - count (node v l r)) [] [] (omega arith)
      ∙ preorder_done (fuel - count (node v l r)) (preorder_recursive (node v l r) [])

  inorder_loop_left :
      (v : V) (l r : TreeNode V) (m : ℕ) (st : List (TreeNode V)) (out : List V)
      → inorder_loop (suc m) (node v l r) st out ≡ inorder_loop (suc m) l (node v l r ∷ st) out
  unfolding inorder_loop push_left
  inorder_loop_left v null r m st out = refl
  inorder_loop_left v (node w a b) r m st out = refl

  inorder_loop_lem :
      (t : TreeNode V) (m n : ℕ) (st : List (TreeNode V)) (out : List V)
      → m ≡ n + count t
      → inorder_loop m t st out ≡ inorder_loop n null st (inorder_recursive t out)
  unfolding inorder_recursive inorder_loop
  inorder_loop_lem null m n st out e = ap (λ k. inorder_loop k null st out) (omega (arith, e))
  inorder_loop_lem (node v l r) zero n st out e = absurd (omega (arith, e))
  inorder_loop_lem (node v l r) (suc m) n st out e =
      inorder_loop_left v l r m st out
      ∙ inorder_loop_lem l (suc m) (suc (n + count r)) (node v l r ∷ st) out (omega (arith, e))
      ∙ inorder_loop_lem r (n + count r) n st (inorder_recursive l out ++ v ∷ []) refl

  inorder_done : (n : ℕ) (out : List V) → inorder_loop n null [] out ≡ some out
  unfolding inorder_loop
  inorder_done zero out = refl
  inorder_done (suc n) out = refl

  -- With the number of nodes as fuel, or more, the loop ends, and `inorder_iterative` gives the order
  -- of `inorder_recursive`.
  inorder_iterative_lem :
      (root : TreeNode V) (fuel : ℕ)
      → count root ≤ fuel
      → inorder_iterative fuel root ≡ some (inorder_recursive root [])
  unfolding inorder_iterative
  inorder_iterative_lem root fuel h =
      inorder_loop_lem root fuel (fuel - count root) [] [] (omega arith)
      ∙ inorder_done (fuel - count root) (inorder_recursive root [])

  -- what the first loop adds to the second stack for a tree
  abbrev filled : TreeNode V → List (TreeNode V) → List (TreeNode V)
  filled null st2 = st2
  filled (node v l r) st2 = filled l (filled r (node v l r ∷ st2))

  fill_second_lem :
      (t : TreeNode V) (m n : ℕ) (st1 st2 : List (TreeNode V))
      → m ≡ n + count t
      → fill_second m (push_child t st1) st2 ≡ fill_second n st1 (filled t st2)
  unfolding push_child fill_second
  fill_second_lem null m n st1 st2 e = ap (λ k. fill_second k st1 st2) (omega (arith, e))
  fill_second_lem (node v l r) zero n st1 st2 e = absurd (omega (arith, e))
  fill_second_lem (node v l r) (suc m) n st1 st2 e =
      fill_second_lem r m (n + count l) (push_child l st1) (node v l r ∷ st2) (omega (arith, e))
      ∙ fill_second_lem l (n + count l) n st1 (filled r (node v l r ∷ st2)) refl

  fill_done : (n : ℕ) (st2 : List (TreeNode V)) → fill_second n [] st2 ≡ some st2
  unfolding fill_second
  fill_done zero st2 = refl
  fill_done (suc n) st2 = refl

  pop_filled :
      (t : TreeNode V) (st2 : List (TreeNode V)) (out : List V)
      → pop_second (filled t st2) out ≡ pop_second st2 (postorder_recursive t out)
  unfolding pop_second postorder_recursive
  pop_filled null st2 out = refl
  pop_filled (node v l r) st2 out =
      pop_filled l (filled r (node v l r ∷ st2)) out
      ∙ pop_filled r (node v l r ∷ st2) (postorder_recursive l out)

  -- With the number of nodes as fuel, or more, the loops end, and `postorder_iterative` gives the
  -- order of `postorder_recursive`.
  postorder_iterative_lem :
      (root : TreeNode V) (fuel : ℕ)
      → count root ≤ fuel
      → postorder_iterative fuel root ≡ some (postorder_recursive root [])
  unfolding postorder_iterative postorder_recursive push_child pop_second
  postorder_iterative_lem null fuel h = refl
  postorder_iterative_lem (node v l r) fuel h =
      let t = node v l r in
      let run : fill_second fuel (node v l r ∷ []) [] ≡ some (filled t []) =
        fill_second_lem t fuel (fuel - count t) [] [] (omega arith)
        ∙ fill_done (fuel - count t) (filled t []) in
      rw (postorder_iterative, run) (pop_filled t [] [])

  -- With the number of nodes as fuel, or more, the loops of the three traversals with stacks end, and
  -- each gives the order of the recursive traversal of its name.
  pub iterative_traversals_lem :
      (root : TreeNode V) (fuel : ℕ)
      → count root ≤ fuel
      → (preorder_iterative fuel root ≡ some (preorder_recursive root []))
        × (inorder_iterative fuel root ≡ some (inorder_recursive root []))
        × (postorder_iterative fuel root ≡ some (postorder_recursive root []))
  iterative_traversals_lem root fuel h = (
    preorder_iterative_lem root fuel h,
    inorder_iterative_lem root fuel h,
    postorder_iterative_lem root fuel h,
  )
