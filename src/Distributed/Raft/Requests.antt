-- ===== src/Distributed/Raft/Requests.antt =====
-- `client_request` on a cluster whose servers agree, from the election on.
use mathlib.Core.Path.{subst}
use awesome_dsa.Prelude.{
  ℕ, zero, suc, ◌+◌, ◌/◌, ◌<◌, true, some, List, [], ◌∷◌, ◌++◌, get_elem?, set, length,
  length-append, length-set, ltb, arith, ◌≡◌, refl, sym, ◌∙◌, ap,
}
use awesome_dsa.Prelude.Ascending.{Each}
use awesome_dsa.Prelude.Outcome.{returns}
use awesome_dsa.Distributed.Raft.{
  LogEntry, RaftServer, new_server, last_log_index, apply_to_state_machine,
}
use awesome_dsa.Distributed.Raft.Log.{get_elem?-some, IsLog, last_log_index_lem, IndexedFrom-snoc}
use awesome_dsa.Distributed.Raft.Cluster.{
  RaftClusterSimulation, new_nodes, new_cluster, vote_all, elect_leader, replicate_entry,
  notify_followers, client_request,
}
use awesome_dsa.Distributed.Raft.Append.{commands-append}
use awesome_dsa.Distributed.Raft.Synced.{
  Has, Has', Mixed-set, Sends, replicate_lem, notify_lem, apply-Has,
}

module _ {ℓ μ} {A : Type ℓ} where
  Each-get_elem? :
      (P : A → Type μ) (xs : List A) (i : ℕ) (x : A) → Each P xs → get_elem? xs i ≡ some x → P x
  Each-get_elem? P [] i x e h = absurd (ground arith)
  Each-get_elem? P (y ∷ xs) zero x e h = let eq : x ≡ y = ground arith in rw eq e.0
  Each-get_elem? P (y ∷ xs) (suc i) x e h = Each-get_elem? P xs i x e.1 h

module _ {ℓ} {I C : Type ℓ} where
  -- All the servers have the log `log` and the term `term`, and its entries after the dummy are
  -- committed and applied.
  pub record Synced (log : List (LogEntry C)) (term : ℕ) (c : RaftClusterSimulation I C)
      : Type ℓ where
    pub last : ℕ
    pub is_log : IsLog log
    pub all_applied : suc last ≡ length log
    pub has_leader : c.leader_idx < length c.nodes
    pub servers : Each (Has log term last) c.nodes

  abbrev sent_entry : C → RaftServer I C → LogEntry C
  sent_entry cmd l = record {
    term = l.current_term;
    index = last_log_index l.log + 1;
    command = cmd;
  }

  client_request-run :
      (cmd : C) (c : RaftClusterSimulation I C) (l : RaftServer I C) (r : List (RaftServer I C) × ℕ)
      (leader : RaftServer I C) (after : List (RaftServer I C))
      → get_elem? c.nodes c.leader_idx ≡ some l
      → let sender : RaftServer I C = record l { log = l.log ++ sent_entry cmd l ∷ [] } in
        replicate_entry 0 c.leader_idx sender (sent_entry cmd l) (set c.nodes c.leader_idx sender)
          ≡ returns r
        → ltb (length c.nodes / 2) (r.1 + 1) ≡ true
        → apply_to_state_machine (record sender { commit_index = last_log_index l.log + 1 })
          ≡ returns leader
        → notify_followers 0 c.leader_idx (last_log_index l.log + 1) (set r.0 c.leader_idx leader)
          ≡ returns after
        → client_request cmd c ≡ returns (true, record c { nodes = after })
  unfolding client_request
  client_request-run cmd c l r leader after at sent most took told =
      rw (client_request, at, sent, most, took, told) refl

  client_request-sent :
      (cmd : C) (log : List (LogEntry C)) (term : ℕ) (c : RaftClusterSimulation I C)
      (l : RaftServer I C)
      → Synced log term c
      → get_elem? c.nodes c.leader_idx ≡ some l
      → (c' : RaftClusterSimulation I C) × (client_request cmd c ≡ returns (true, c'))
        × Synced (log ++ sent_entry cmd l ∷ []) term c'
  client_request-sent cmd log term c l s at =
      let n = s.last in
      let e = sent_entry cmd l in
      let own = Each-get_elem? (Has log term n) c.nodes c.leader_idx l s.servers at in
      let fine : IsLog l.log = rw own.same_log s.is_log in
      let size : last_log_index l.log + 1 ≡ length log =
        omega (arith, last_log_index_lem l.log fine, ap length own.same_log) in
      let idx : last_log_index l.log + 1 ≡ suc n = omega (arith, size, s.all_applied) in
      let leader : RaftServer I C = record l { log = l.log ++ e ∷ [] } in
      let sends : Sends log term n leader e = record {
        is_log = s.is_log;
        all_applied = s.all_applied;
        next_index = size;
        own_term = own.same_term;
        own_commit = own.commits;
        own_log = ap (λ xs. xs ++ e ∷ []) own.same_log;
      } in
      let has : Has' log e term n leader = record {
        same_log = ap (λ xs. xs ++ e ∷ []) own.same_log;
        same_term = own.same_term;
        commits = own.commits;
        applies = own.applies;
        outputs = own.outputs ∙ sym (commands-append log (e ∷ []) n (omega (arith, s.all_applied)));
      } in
      let nodes = set c.nodes c.leader_idx leader in
      let len = length-set c.nodes c.leader_idx leader in
      let mixed =
        Mixed-set (Has log term n) (Has' log e term n) c.leader_idx 0 c.leader_idx c.nodes leader
          (omega arith) s.servers has in
      let (r, run, each, same, counted) =
        replicate_lem log term n c.leader_idx 0 leader e sends nodes mixed in
      let count : r.1 + 1 ≡ length c.nodes = ground (arith, counted, len, s.has_leader) in
      let most : ltb (length c.nodes / 2) (r.1 + 1) ≡ true = ground (arith, count, s.has_leader) in
      let long : length (log ++ e ∷ []) ≡ suc (suc n) =
        omega (arith, length-append log (e ∷ []), s.all_applied) in
      let good : IsLog (log ++ e ∷ []) =
        (omega (arith, long), IndexedFrom-snoc log 0 e s.is_log.1 (omega (arith, size))) in
      let (leader', took, now) =
        apply-Has (log ++ e ∷ []) term n (suc n) leader good has
          (omega arith, omega (arith, long)) in
      let mixed' =
        Mixed-set (Has' log e term n) (Has (log ++ e ∷ []) term (suc n)) c.leader_idx 0 c.leader_idx
          r.0 leader' (omega arith) each now in
      let (after, told, all, len') =
        notify_lem (log ++ e ∷ []) term n c.leader_idx 0 good long (set r.0 c.leader_idx leader')
          mixed' in
      (
        record c { nodes = after },
        client_request-run cmd c l r leader' after at run most
            (ap (λ k. apply_to_state_machine (record leader { commit_index = k })) idx ∙ took)
            (ap (λ k. notify_followers 0 c.leader_idx k (set r.0 c.leader_idx leader')) idx ∙ told),
        record {
          last = suc n;
          is_log = good;
          all_applied = omega (arith, long);
          has_leader =
              omega (arith, len, len', same, length-set r.0 c.leader_idx leader', s.has_leader);
          servers = all;
        },
      )

  -- On a cluster whose servers agree, `client_request` returns true, with one more entry that carries
  -- the command, the term and the next index, and the servers agree again.
  pub client_request_lem :
      (cmd : C) (log : List (LogEntry C)) (term : ℕ) (c : RaftClusterSimulation I C)
      → Synced log term c
      → (c' : RaftClusterSimulation I C) × (client_request cmd c ≡ returns (true, c'))
        × Synced (log ++ record { term = term; index = length log; command = cmd } ∷ []) term c'
  client_request_lem cmd log term c s =
      let (l, at) = get_elem?-some c.nodes c.leader_idx s.has_leader in
      let own = Each-get_elem? (Has log term s.last) c.nodes c.leader_idx l s.servers at in
      let size : last_log_index l.log + 1 ≡ length log =
        omega
          (arith, last_log_index_lem l.log (rw own.same_log s.is_log), ap length own.same_log) in
      let entry : sent_entry cmd l ≡ record { term = term; index = length log; command = cmd } =
        rw (sent_entry, own.same_term, size) refl in
      let (c', run, good) = client_request-sent cmd log term c l s at in
      (c', run, subst (λ e. Synced (log ++ e ∷ []) term c') entry good)

module _ {ℓ} {C : Type ℓ} where
  abbrev pub dummy_log : C → List (LogEntry C)
  dummy_log no_command = record { term = 0; index = 0; command = no_command } ∷ []

module _ {ℓ} {I C : Type ℓ} where
  new_nodes-length : (d : C) (name : ℕ → I) (n i : ℕ) → length (new_nodes d name n i) ≡ n
  unfolding new_nodes
  new_nodes-length d name zero i = refl
  new_nodes-length d name (suc n) i = ap suc (new_nodes-length d name n (suc i))

  vote_all-length :
      (l : I) (t : ℕ) (ns : List (RaftServer I C)) → length (vote_all l t ns) ≡ length ns
  unfolding vote_all
  vote_all-length l t [] = refl
  vote_all-length l t (n ∷ ns) = ap suc (vote_all-length l t ns)

  elected :
      (d : C) (name : ℕ → I) (l : I) (t n i : ℕ)
      → Each (Has (dummy_log d) t 0) (vote_all l t (new_nodes d name n i))
  unfolding new_nodes vote_all new_server
  elected d name l t zero i = tt
  elected d name l t (suc n) i = (
    record { same_log = refl; same_term = refl; commits = refl; applies = refl; outputs = refl },
    elected d name l t n (suc i),
  )

  -- A new cluster whose servers elect one of themselves agrees, on a log with the dummy entry alone.
  pub elect_leader_lem :
      (no_command : C) (name : ℕ → I) (node_count idx term : ℕ)
      → idx < node_count
      → (c : RaftClusterSimulation I C) × (elect_leader idx term
            (new_cluster no_command name node_count)
          ≡ returns c)
        × Synced (dummy_log no_command) term c
  unfolding elect_leader new_cluster
  elect_leader_lem d name n idx term lt =
      let len = new_nodes-length d name n 0 in
      let (l, at) = get_elem?-some (new_nodes d name n 0) idx (omega (arith, len)) in
      (
        record { nodes = vote_all l.id term (new_nodes d name n 0); leader_idx = idx },
        rw (elect_leader, at) refl,
        record {
          last = 0;
          is_log = (omega arith, (refl, tt));
          all_applied = refl;
          has_leader = omega (arith, len, vote_all-length l.id term (new_nodes d name n 0));
          servers = elected d name l.id term n 0;
        },
      )
