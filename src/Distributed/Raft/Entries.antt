-- ===== src/Distributed/Raft/Entries.antt =====
-- What `append_entries` does once it takes the entries, and when it does.
use Prim.Native.Nat.{min}
use awesome_dsa.Prelude.{
  ℕ, zero, suc, ◌+◌, ◌≤◌, ◌<◌, Bool, true, false, ◌||◌, not, none, some, List, [], ◌∷◌, length,
  get_elem?, length-take, take, map, ◌==◌, ltb, max, arith, ◌≡◌, refl, sym, ◌∙◌, ap, Bool-cases,
  inl, inr,
}
use awesome_dsa.Prelude.Outcome.{returns}
use awesome_dsa.Prelude.Slices.{take-take}
use awesome_dsa.Distributed.Raft.{
  LogEntry, RaftServer, last_log_index, prev_conflicts, accept_entries,
}
use awesome_dsa.Distributed.Raft.Append.{commands, IsServer, applied_to, apply_lem}
use awesome_dsa.Distributed.Raft.Log.{
  get_elem?-some, get_elem?-none, IndexedFrom, last_log_index_lem, Agrees, Compatible,
  Compatible-of_lt,
}
use awesome_dsa.Distributed.Raft.Insert.{insert_entries_lem}

module _ {ℓ} {C : Type ℓ} where
  commands_prefix :
      (log : List (LogEntry C)) (n c : ℕ) → n ≤ c → commands (take (suc c) log) n ≡ commands log n
  commands_prefix [] n c le = refl
  commands_prefix (e ∷ log) n c le = ap (map _) (take-take log n c le)

  longer_than :
      (xs ys : List (LogEntry C)) (c : ℕ)
      → take (suc c) ys ≡ take (suc c) xs
      → c < length xs
      → c < length ys
  longer_than xs ys c h lt =
      omega (arith, length-take (suc c) xs, length-take (suc c) ys, ap length h)

  -- the log has an entry at `prev_log_index`, and of that term unless it is the dummy
  abbrev pub has_prev : List (LogEntry C) → ℕ → ℕ → Bool
  has_prev log i t = elim (get_elem? log i) [ none ↦ false | some e ↦ (i == 0) || (e.term == t) ]

  pub has_prev-beyond :
      (log : List (LogEntry C)) (i t : ℕ) → length log ≤ i → has_prev log i t ≡ false
  has_prev-beyond log i t h = rw (has_prev, get_elem?-none log i h) refl

  pub prev_conflicts_lem :
      (log : List (LogEntry C)) (i t : ℕ)
      → i < length log
      → prev_conflicts log i t ≡ returns (not (has_prev log i t))
  unfolding prev_conflicts
  prev_conflicts_lem [] i t h = elim h [ ]
  prev_conflicts_lem (e ∷ log) zero t h = refl
  prev_conflicts_lem (e ∷ log) (suc i) t h =
      let (f, at) = get_elem?-some log i (omega arith) in
      rw (prev_conflicts, has_prev, at) (ground arith)

module _ {ℓ} {I C : Type ℓ} where
  -- What an answer says of the server after it: accepted, its log has the new entries and up to
  -- `prev_log_index` the old ones, and its commit index follows the leader's; refused, log and commit
  -- index and state machine are as they were.
  abbrev pub Answers : Bool → ℕ → List (LogEntry C) → ℕ → RaftServer I C → RaftServer I C → Type ℓ
  Answers true prev_log_index entries leader_commit s s' =
      Agrees entries (prev_log_index + 1) s'.log
      × (take (suc prev_log_index) s'.log ≡ take (suc prev_log_index) s.log)
      × (s'.commit_index ≡ max s.commit_index (min leader_commit (last_log_index s'.log)))
  Answers false prev_log_index entries leader_commit s s' =
      (s'.log ≡ s.log)
      × (s'.commit_index ≡ s.commit_index)
      × (s'.last_applied ≡ s.last_applied)
      × (s'.applied_commands ≡ s.applied_commands)

  pub record Kept (term : ℕ) (s s' : RaftServer I C) : Type ℓ where
    pub is_server : IsServer s'
    pub at_term : s'.current_term ≡ max s.current_term term
    pub committed_log : take (suc s.commit_index) s'.log ≡ take (suc s.commit_index) s.log

  pub accept_entries_lem :
      (prev_log_index : ℕ) (entries : List (LogEntry C)) (leader_commit : ℕ) (s : RaftServer I C)
      → IsServer s
      → prev_log_index < length s.log
      → IndexedFrom (prev_log_index + 1) entries
      → Compatible s.commit_index entries (prev_log_index + 1) s.log
      → (s' : RaftServer I C) × (accept_entries prev_log_index entries leader_commit s
          ≡ returns (true, s'))
        × IsServer s'
        × (s'.current_term ≡ s.current_term)
        × (take (suc s.commit_index) s'.log ≡ take (suc s.commit_index) s.log)
        × Answers true prev_log_index entries leader_commit s s'
  unfolding accept_entries
  accept_entries_lem prev entries leader s h lt i ok =
      let (log, run, r) = insert_entries_lem entries (prev + 1) s.log h.is_log (omega arith) i in
      let old = r.keeps s.commit_index h.committed ok in
      let long = longer_than s.log log s.commit_index old h.committed in
      let last = last_log_index_lem log r.is_log in
      let applied =
        h.applied
        ∙ sym (commands_prefix s.log s.last_applied s.commit_index h.last_committed)
        ∙ ap (λ xs. commands xs s.last_applied) (sym old)
        ∙ commands_prefix log s.last_applied s.commit_index h.last_committed in
      let before = r.keeps prev lt (Compatible-of_lt prev entries (prev + 1) s.log (omega arith)) in
      elim (Bool-cases (ltb s.commit_index leader)) [
        | inl less ↦
            let to = min leader (last_log_index log) in
            let mid = record s { log = log; commit_index = to } in
            let app =
              apply_lem mid (omega (arith, last)) (ground (arith, last, long, h.last_committed))
                applied in
            (
              applied_to mid to,
              rw (run, less, app) refl,
              record {
                is_log = r.is_log;
                committed = omega (arith, last);
                last_committed = omega arith;
                applied = refl;
              },
              refl,
              old,
              (r.agrees, before, ground (arith, last, long)),
            )
        | inr more ↦ (
          record s { log = log },
          rw (run, more) refl,
          record {
            is_log = r.is_log;
            committed = long;
            last_committed = h.last_committed;
            applied = applied;
          },
          refl,
          old,
          (r.agrees, before, ground (arith, last, long)),
        )
      ]
