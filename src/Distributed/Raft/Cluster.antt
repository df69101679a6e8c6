-- ===== src/Distributed/Raft/Cluster.antt =====
-- Class RaftClusterSimulation. The leader is a place in the vector of servers; its reference is to the
-- server there.
use Prim.Native.Nat.{min}
use awesome_dsa.Prelude.{
  ℕ, zero, suc, ◌+◌, ◌-◌, ◌/◌, Bool, true, false, none, some, List, [], ◌∷◌, ◌++◌, get_elem?, set,
  length, ◌==◌, ltb, if◌then◌else◌,
}
use awesome_dsa.Prelude.Outcome.{Outcome, returns, faults, ◌>>=◌}
use awesome_dsa.Distributed.Raft.{
  LogEntry, RaftServer, new_server, last_log_index, append_entries, apply_to_state_machine,
}

pub record RaftClusterSimulation {ℓ} (I C : Type ℓ) : Type ℓ where
  pub nodes : List (RaftServer I C)
  pub leader_idx : ℕ

module _ {ℓ} {I C : Type ℓ} where
  -- The constructor's loop from `i` on, for `n` nodes; `name` is `"node_" + std::to_string(i)`.
  unfoldable pub new_nodes : C → (ℕ → I) → ℕ → ℕ → List (RaftServer I C)
  unfolding new_server
  new_nodes no_command name zero i = []
  new_nodes no_command name (suc n) i =
      new_server no_command (name i) ∷ new_nodes no_command name n (suc i)

  unfoldable pub new_cluster : C → (ℕ → I) → ℕ → RaftClusterSimulation I C
  unfolding new_nodes
  new_cluster no_command name node_count = record {
    nodes = new_nodes no_command name node_count 0;
    leader_idx = 0;
  }

  -- The loop of `elect_leader`.
  unfoldable pub vote_all : I → ℕ → List (RaftServer I C) → List (RaftServer I C)
  vote_all leader term [] = []
  vote_all leader term (n ∷ nodes) =
      record n { current_term = term; voted_for = some leader } ∷ vote_all leader term nodes

  unfoldable pub elect_leader :
      ℕ → ℕ → RaftClusterSimulation I C → Outcome (RaftClusterSimulation I C)
  unfolding vote_all
  elect_leader idx term c = elim (get_elem? c.nodes idx) [
    | none ↦ elim c.nodes [ [] ↦ returns (record c { leader_idx = idx }) | n ∷ nodes ↦ faults ]
    | some leader ↦ returns (record { nodes = vote_all leader.id term c.nodes; leader_idx = idx })
  ]

  -- The loop that replicates `entry` from the place `i` on: the servers after it, and the number that
  -- accepted.
  unfoldable pub replicate_entry :
      ℕ
      → ℕ
      → RaftServer I C
      → LogEntry C
      → List (RaftServer I C)
      → Outcome (List (RaftServer I C) × ℕ)
  unfolding append_entries
  replicate_entry i leader_idx leader entry [] = returns ([], 0)
  replicate_entry i leader_idx leader entry (n ∷ nodes) =
      let rest = replicate_entry (suc i) leader_idx leader entry nodes in
      if i == leader_idx
      then rest >>= (λ r. returns (n ∷ r.0, r.1))
      else elim (get_elem? leader.log (entry.index - 1)) [
        | none ↦ faults
        | some prev ↦
            append_entries leader.current_term (entry.index - 1) prev.term (entry ∷ [])
              leader.commit_index n
            >>= λ answer. rest >>= λ r. returns (answer.1 ∷ r.0, if answer.0 then r.1 + 1 else r.1)
      ]

  -- The loop that tells the followers of the commit index.
  unfoldable pub notify_followers :
      ℕ → ℕ → ℕ → List (RaftServer I C) → Outcome (List (RaftServer I C))
  unfolding apply_to_state_machine last_log_index
  notify_followers i leader_idx commit [] = returns []
  notify_followers i leader_idx commit (n ∷ nodes) =
      let rest = notify_followers (suc i) leader_idx commit nodes in
      if i == leader_idx
      then rest >>= (λ r. returns (n ∷ r))
      else apply_to_state_machine (record n { commit_index = min commit (last_log_index n.log) })
        >>= λ n'. rest >>= λ r. returns (n' ∷ r)

  unfoldable pub client_request :
      C → RaftClusterSimulation I C → Outcome (Bool × RaftClusterSimulation I C)
  unfolding last_log_index replicate_entry notify_followers apply_to_state_machine
  client_request cmd c = elim (get_elem? c.nodes c.leader_idx) [
    | none ↦ faults
    | some l ↦
        let entry_index = last_log_index l.log + 1 in
        let entry : LogEntry C = record {
          term = l.current_term;
          index = entry_index;
          command = cmd;
        } in
        let leader : RaftServer I C = record l { log = l.log ++ entry ∷ [] } in
        replicate_entry 0 c.leader_idx leader entry (set c.nodes c.leader_idx leader) >>= λ r.
        if ltb (length c.nodes / 2) (r.1 + 1)
        then apply_to_state_machine (record leader { commit_index = entry_index }) >>= (λ leader'.
          notify_followers 0 c.leader_idx entry_index (set r.0 c.leader_idx leader') >>= λ nodes.
          returns (true, record c { nodes = nodes }))
        else returns (false, record c { nodes = r.0 })
  ]
