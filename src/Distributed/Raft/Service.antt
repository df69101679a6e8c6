-- ===== src/Distributed/Raft/Service.antt =====
-- A cluster as a service: what its servers have put out after a sequence of requests.
use awesome_dsa.Prelude.{List, [], ◌∷◌, map}
use awesome_dsa.Prelude.Outcome.{Outcome, returns, ◌>>=◌}
use awesome_dsa.Distributed.Raft.{LogEntry}
use awesome_dsa.Distributed.Raft.Cluster.{RaftClusterSimulation, client_request}

module _ {ℓ} {C : Type ℓ} where
  -- the commands of the whole log, the dummy's left out
  abbrev output : List (LogEntry C) → List C
  output [] = []
  output (d ∷ log) = map (λ (e : LogEntry C). e.command) log

module _ {ℓ} {I C : Type ℓ} where
  -- The requests one after the other.
  abbrev pub serve : List C → RaftClusterSimulation I C → Outcome (RaftClusterSimulation I C)
  serve [] c = returns c
  serve (cmd ∷ cmds) c = client_request cmd c >>= (λ r. serve cmds r.1)
