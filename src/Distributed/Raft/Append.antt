-- ===== src/Distributed/Raft/Append.antt =====
-- The invariant of a server, `apply_to_state_machine`, and the term that a message brings.
use awesome_dsa.Prelude.{
  ℕ, zero, suc, ◌+◌, ◌-◌, ◌≤◌, ◌<◌, none, some, List, [], ◌∷◌, ◌++◌, length, get_elem?, take, map,
  ltb, max, arith, ◌≡◌, refl, sym, ◌∙◌, ap, if◌then◌else◌, Bool-cases, inl, inr,
}
use awesome_dsa.Prelude.Outcome.{returns}
use awesome_dsa.Distributed.Raft.{
  LogEntry, RaftServer, apply_entries, apply_to_state_machine, see_term,
}
use awesome_dsa.Distributed.Raft.Log.{get_elem?-some, take-suc, take-append, IsLog}

module _ {ℓ} {A B : Type ℓ} where
  map-append : (f : A → B) (xs ys : List A) → map f (xs ++ ys) ≡ map f xs ++ map f ys
  map-append f [] ys = refl
  map-append f (x ∷ xs) ys = ap (◌∷◌ (f x)) (map-append f xs ys)

module _ {ℓ} {C : Type ℓ} where
  -- the commands of the `n` entries after the dummy
  abbrev pub commands : List (LogEntry C) → ℕ → List C
  commands [] n = []
  commands (e ∷ log) n = map (λ (f : LogEntry C). f.command) (take n log)

  commands-suc :
      (log : List (LogEntry C)) (n : ℕ) (e : LogEntry C)
      → get_elem? log (suc n) ≡ some e
      → commands log (suc n) ≡ commands log n ++ e.command ∷ []
  commands-suc [] n e h = absurd (ground arith)
  commands-suc (d ∷ log) n e h = rw (take-suc log n h) (map-append _ (take n log) (e ∷ []))

  pub commands-append :
      (log more : List (LogEntry C)) (n : ℕ)
      → suc n ≤ length log
      → commands (log ++ more) n ≡ commands log n
  commands-append [] more n h = elim h [ ]
  commands-append (e ∷ log) more n h = ap (map _) (take-append log more n (omega arith))

module _ {ℓ} {I C : Type ℓ} where
  -- The invariant of a server: the applied commands are those of the log up to `last_applied`, which
  -- is committed, and what is committed is in the log.
  pub record IsServer (s : RaftServer I C) : Type ℓ where
    pub is_log : IsLog s.log
    pub committed : s.commit_index < length s.log
    pub last_committed : s.last_applied ≤ s.commit_index
    pub applied : s.applied_commands ≡ commands s.log s.last_applied

  abbrev pub applied_to : RaftServer I C → ℕ → RaftServer I C
  applied_to s n = record s { last_applied = n; applied_commands = commands s.log n }

  apply_entries_lem :
      (n m : ℕ) (s : RaftServer I C)
      → s.applied_commands ≡ commands s.log s.last_applied
      → m ≡ s.last_applied + n
      → m < length s.log
      → apply_entries n s ≡ returns (applied_to s m)
  unfolding apply_entries
  apply_entries_lem zero m s h p lt =
      let q : m ≡ s.last_applied = omega (arith, p) in rw q (rw (sym h) refl)
  apply_entries_lem (suc n) m s h p lt =
      let (e, at) = get_elem?-some s.log (s.last_applied + 1) (omega arith) in
      let one : s.last_applied + 1 ≡ suc s.last_applied = omega arith in
      let next = record s {
        last_applied = s.last_applied + 1;
        applied_commands = s.applied_commands ++ e.command ∷ [];
      } in
      let grown =
        ap (λ xs. xs ++ e.command ∷ []) h
        ∙ sym (commands-suc s.log s.last_applied e (ap (get_elem? s.log) (sym one) ∙ at))
        ∙ ap (commands s.log) (sym one) in
      rw (apply_entries, at) (apply_entries_lem n m next grown (omega (arith, p)) lt)

  pub apply_lem :
      (s : RaftServer I C)
      → s.commit_index < length s.log
      → s.last_applied ≤ s.commit_index
      → s.applied_commands ≡ commands s.log s.last_applied
      → apply_to_state_machine s ≡ returns (applied_to s s.commit_index)
  unfolding apply_to_state_machine
  apply_lem s c le a =
      apply_entries_lem (s.commit_index - s.last_applied) s.commit_index s a (omega arith) c

  pub see_term_lem :
      (term : ℕ) (s : RaftServer I C)
      → see_term term s ≡ record s {
        current_term = max s.current_term term;
        voted_for = if ltb s.current_term term then none else s.voted_for;
      }
  unfolding see_term
  see_term_lem term s = elim (Bool-cases (ltb s.current_term term)) [
    | inl newer ↦ let m : max s.current_term term ≡ term = ground arith in rw (newer, m) refl
    | inr older ↦
        let m : max s.current_term term ≡ s.current_term = ground arith in rw (older, m) refl
  ]
