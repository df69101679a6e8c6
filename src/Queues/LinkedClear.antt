-- ===== src/Queues/LinkedClear.antt =====
-- What `clear` of a LinkedQueue frees.
use awesome_dsa.Prelude.{
  ℕ, zero, suc, ◌≤◌, Option, none, some, List, [], ◌∷◌, length, arith, ◌≡◌, ◌≢◌, refl, sym, ◌∙◌, ap,
}
use awesome_dsa.Prelude.Ascending.{Each}
use awesome_dsa.Prelude.Outcome.{returns}
use awesome_dsa.Queues.LinkedQueue.{Node, LinkedQueue, update, free_nodes, clear}
use awesome_dsa.Queues.LinkedChain.{update_here, update_there, Chain, Apart, Chain-update}
use awesome_dsa.Queues.LinkedLaws.{Holds, values}

module _ {ℓ} {T : Type ℓ} where
  free_nodes_lem :
      (l : List (ℕ × T)) (q : LinkedQueue T) (n : ℕ)
      → Chain q.cells q.head l
      → Apart l
      → length l ≤ n
      → (m : ℕ → Option (Node T)) × (free_nodes n q
          ≡ some (returns (record q { cells = m; head = none })))
        × ((a : ℕ) → Each (λ x. a ≢ x.0) l → m a ≡ q.cells a)
        × Each {A = ℕ × T} (λ x. m x.0 ≡ none) l
  unfolding free_nodes
  free_nodes_lem [] q zero (e, u) apart h = (
    q.cells,
    rw (free_nodes, e) (ap (λ k. some (returns (record q { head = k }))) e),
    λ a away. refl,
    tt,
  )
  free_nodes_lem [] q (suc n) (e, u) apart h = (
    q.cells,
    rw (free_nodes, e) (ap (λ k. some (returns (record q { head = k }))) e),
    λ a away. refl,
    tt,
  )
  free_nodes_lem ((a, v) ∷ r) q zero chain apart h = absurd (omega arith)
  free_nodes_lem ((a, v) ∷ r) q (suc n) chain (apart, others) h =
      let cells = update q.cells a none in
      let q' : LinkedQueue T = record q { cells = cells; head = chain.0 } in
      let (m, run, same, gone) =
        free_nodes_lem r q' n (Chain-update q.cells chain.0 r a none apart chain.3) others
          (omega arith) in
      (
        m,
        rw (free_nodes, chain.1, chain.2) run,
        λ b away. same b away.1 ∙ update_there q.cells a b none (λ e. away.0 (sym e)),
        (same a apart ∙ update_here q.cells a none, gone),
      )

  length-values : (l : List (ℕ × T)) → length (values l) ≡ length l
  length-values [] = refl
  length-values (x ∷ l) = ap suc (length-values l)

  -- With as many rounds as the queue has values, or more, the loop of `clear` ends and no pointer is
  -- followed after its node has been freed; the queue is then empty, and every node that it had is freed.
  pub clear_lem :
      (q : LinkedQueue T) (xs : List T) (fuel : ℕ) (h : Holds q xs)
      → length xs ≤ fuel
      → (q' : LinkedQueue T) × (clear fuel q ≡ some (returns q'))
        × Holds q' []
        × Each {A = ℕ × T} (λ x. q'.cells x.0 ≡ none) h.nodes
  unfolding clear
  clear_lem q xs fuel h le =
      let (chain, apart, below, ends) = h.linked in
      let (m, run, same, gone) =
        free_nodes_lem h.nodes q fuel chain apart
          (omega (arith, length-values h.nodes, ap length h.listed)) in
      (
        record { cells = m; fresh = q.fresh; head = none; tail = none; size = 0 },
        rw (clear, run) refl,
        record { nodes = []; linked = ((refl, tt), tt, tt, refl); listed = refl; counted = refl },
        gone,
      )
