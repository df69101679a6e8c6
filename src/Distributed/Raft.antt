-- ===== src/Distributed/Raft.antt =====
-- Classes RaftServer and RaftClusterSimulation. A read outside a vector faults. The ids are a type
-- `I`; a vote is `none` where the code has "". `C` is the type of the commands.
pub mod Log
pub mod Insert
pub mod Append
pub mod Entries
pub mod Accept
pub mod Cluster
pub mod Synced
pub mod Requests
pub mod Service
use awesome_dsa.Prelude.{
  ℕ, zero, suc, ◌+◌, ◌-◌, ◌/◌, Bool, true, false, ◌&&◌, not, Option, none, some, List, [], ◌∷◌,
  ◌++◌, length, get_elem?, set, take, map, ◌==◌, ltb, leb, if◌then◌else◌,
}
use Prim.Native.Nat.{min}
use awesome_dsa.Prelude.Outcome.{Outcome, returns, throws, faults, ◌>>=◌}

pub record LogEntry {ℓ} (C : Type ℓ) : Type ℓ where
  pub term : ℕ
  pub index : ℕ
  pub command : C

pub record RaftServer {ℓ} (I C : Type ℓ) : Type ℓ where
  pub id : I
  pub current_term : ℕ
  pub voted_for : Option I
  pub log : List (LogEntry C)
  pub commit_index : ℕ
  pub last_applied : ℕ
  pub applied_commands : List C

module _ {ℓ} {C : Type ℓ} where
  -- `log.empty() ? 0 : log.back().index`, and the same for `term`
  unfoldable pub last_log_index : List (LogEntry C) → ℕ
  last_log_index [] = 0
  last_log_index (e ∷ []) = e.index
  last_log_index (e ∷ f ∷ log) = last_log_index (f ∷ log)

  unfoldable pub last_log_term : List (LogEntry C) → ℕ
  last_log_term [] = 0
  last_log_term (e ∷ []) = e.term
  last_log_term (e ∷ f ∷ log) = last_log_term (f ∷ log)

  -- The loop over `entries` from `insert_idx` on: the log after it.
  unfoldable pub insert_entries :
      List (LogEntry C) → ℕ → List (LogEntry C) → Outcome (List (LogEntry C))
  unfolding last_log_index
  insert_entries [] insert_idx log = returns log
  insert_entries (entry ∷ entries) insert_idx log =
      let next = insert_entries entries (suc insert_idx) in
      if leb insert_idx (last_log_index log)
      then elim (get_elem? log insert_idx) [
        | none ↦ faults
        | some old ↦
            if old.term == entry.term then next log else next (take insert_idx log ++ entry ∷ [])
      ]
      else next (log ++ entry ∷ [])

  -- `prev_log_index > 0 && log[prev_log_index].term != prev_log_term`
  unfoldable pub prev_conflicts : List (LogEntry C) → ℕ → ℕ → Outcome Bool
  prev_conflicts log zero prev_log_term = returns false
  prev_conflicts log (suc i) prev_log_term = elim (get_elem? log (suc i)) [
    | none ↦ faults
    | some e ↦ returns (not (e.term == prev_log_term))
  ]

module _ {ℓ} {I C : Type ℓ} where
  -- The constructor; `no_command` is the dummy entry's "".
  unfoldable pub new_server : C → I → RaftServer I C
  new_server no_command server_id = record {
    id = server_id;
    current_term = 0;
    voted_for = none;
    log = record { term = 0; index = 0; command = no_command } ∷ [];
    commit_index = 0;
    last_applied = 0;
    applied_commands = [];
  }

  -- The loop of `apply_to_state_machine`, for `n` entries.
  unfoldable pub apply_entries : ℕ → RaftServer I C → Outcome (RaftServer I C)
  apply_entries zero s = returns s
  apply_entries (suc n) s = elim (get_elem? s.log (s.last_applied + 1)) [
    | none ↦ faults
    | some e ↦ apply_entries n (record s {
      last_applied = s.last_applied + 1;
      applied_commands = s.applied_commands ++ e.command ∷ [];
    })
  ]

  unfoldable pub apply_to_state_machine : RaftServer I C → Outcome (RaftServer I C)
  unfolding apply_entries
  apply_to_state_machine s = apply_entries (s.commit_index - s.last_applied) s

  -- The third and the fourth step: new entries, then the commit index.
  unfoldable pub accept_entries :
      ℕ → List (LogEntry C) → ℕ → RaftServer I C → Outcome (Bool × RaftServer I C)
  unfolding insert_entries apply_to_state_machine last_log_index
  accept_entries prev_log_index entries leader_commit s =
      insert_entries entries (prev_log_index + 1) s.log >>= λ log.
      if ltb s.commit_index leader_commit
      then apply_to_state_machine
          (record s { log = log; commit_index = min leader_commit (last_log_index log) })
        >>= (λ s'. returns (true, s'))
      else returns (true, record s { log = log })

  -- The first step, where the term is not older: a new term clears the vote.
  unfoldable pub see_term : ℕ → RaftServer I C → RaftServer I C
  see_term term s =
      if ltb s.current_term term then record s { current_term = term; voted_for = none } else s

  unfoldable pub append_entries :
      ℕ → ℕ → ℕ → List (LogEntry C) → ℕ → RaftServer I C → Outcome (Bool × RaftServer I C)
  unfolding see_term prev_conflicts accept_entries last_log_index
  append_entries term prev_log_index prev_log_term entries leader_commit s =
      let s' = see_term term s in
      if ltb term s.current_term
      then returns (false, s)
      else if ltb (last_log_index s.log) prev_log_index
      then returns (false, s')
      else prev_conflicts s.log prev_log_index prev_log_term >>= λ conflict.
          if conflict
          then returns (false, s')
          else accept_entries prev_log_index entries leader_commit s'
