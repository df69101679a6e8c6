-- ===== src/Distributed/Raft/Accept.antt =====
-- `append_entries` on every branch.
use awesome_dsa.Prelude.{
  ltb→lt, lt→ltb, ℕ, ◌+◌, ◌<◌, Bool, true, false, ◌&&◌, none, List, length, leb, ltb, max, arith,
  ◌≡◌, refl, ◌∙◌, ap, if◌then◌else◌, Bool-cases, inl, inr,
}
use awesome_dsa.Prelude.Outcome.{returns}
use awesome_dsa.Distributed.Raft.{
  LogEntry, RaftServer, last_log_index, accept_entries, see_term, append_entries,
}
use awesome_dsa.Distributed.Raft.Append.{IsServer, see_term_lem}
use awesome_dsa.Distributed.Raft.Log.{IndexedFrom, IsLog, last_log_index_lem, Compatible}
use awesome_dsa.Distributed.Raft.Entries.{
  has_prev, has_prev-beyond, prev_conflicts_lem, Answers, Kept, accept_entries_lem,
}

module _ {ℓ} {I C : Type ℓ} where
  -- the server once it has seen the term
  abbrev seen : ℕ → RaftServer I C → RaftServer I C
  seen term s = record s {
    current_term = max s.current_term term;
    voted_for = if ltb s.current_term term then none else s.voted_for;
  }

  seen-Kept : (term : ℕ) (s : RaftServer I C) → IsServer s → Kept term s (seen term s)
  seen-Kept term s h = record {
    is_server = record {
      is_log = h.is_log;
      committed = h.committed;
      last_committed = h.last_committed;
      applied = h.applied;
    };
    at_term = refl;
    committed_log = refl;
  }

  -- The call returns the answer `ok`, which is so, and a server of which the two hold.
  abbrev pub Returns : Bool → ℕ → ℕ → ℕ → List (LogEntry C) → ℕ → RaftServer I C → Type ℓ
  Returns ok term prev t entries leader s =
      (s' : RaftServer I C) × (append_entries term prev t entries leader s ≡ returns (ok, s'))
      × Kept term s s'
      × Answers ok prev entries leader s s'

  old_term :
      (term prev t : ℕ) (entries : List (LogEntry C)) (leader : ℕ) (s : RaftServer I C)
      → IsServer s
      → term < s.current_term
      → Returns false term prev t entries leader s
  unfolding append_entries
  old_term term prev t entries leader s h lt =
      let less = lt→ltb term s.current_term lt in
      (
        s,
        rw less refl,
        record { is_server = h; at_term = omega arith; committed_log = refl },
        (refl, refl, refl, refl),
      )

  no_match :
      (term prev t : ℕ) (entries : List (LogEntry C)) (leader : ℕ) (s : RaftServer I C)
      → IsServer s
      → ltb term s.current_term ≡ false
      → has_prev s.log prev t ≡ false
      → Returns false term prev t entries leader s
  unfolding append_entries
  no_match term prev t entries leader s h new lacks =
      let last = last_log_index_lem s.log h.is_log in
      (
        seen term s,
        elim (Bool-cases (ltb (last_log_index s.log) prev)) [
          | inl beyond ↦ rw (new, beyond, see_term_lem term s) refl
          | inr within ↦
              let run = prev_conflicts_lem s.log prev t (ground (arith, last)) in
              rw (new, within, run, lacks, see_term_lem term s) refl
        ],
        seen-Kept term s h,
        (refl, refl, refl, refl),
      )

  pub append-accept_entries :
      (term prev t : ℕ) (entries : List (LogEntry C)) (leader : ℕ) (s : RaftServer I C)
      → IsLog s.log
      → prev < length s.log
      → ltb term s.current_term ≡ false
      → has_prev s.log prev t ≡ true
      → append_entries term prev t entries leader s
        ≡ accept_entries prev entries leader (see_term term s)
  unfolding append_entries
  append-accept_entries term prev t entries leader s h lt new holds =
      let last = last_log_index_lem s.log h in
      let within : ltb (last_log_index s.log) prev ≡ false = ground (arith, last) in
      rw (new, within, prev_conflicts_lem s.log prev t lt, holds) refl

  a_match :
      (term prev t : ℕ) (entries : List (LogEntry C)) (leader : ℕ) (s : RaftServer I C)
      → IsServer s
      → IndexedFrom (prev + 1) entries
      → Compatible s.commit_index entries (prev + 1) s.log
      → ltb term s.current_term ≡ false
      → has_prev s.log prev t ≡ true
      → Returns true term prev t entries leader s
  a_match term prev t entries leader s h i ok new holds =
      let last = last_log_index_lem s.log h.is_log in
      let lt : prev < length s.log = elim (Bool-cases (ltb prev (length s.log))) [
        | inl lt ↦ ltb→lt prev (length s.log) lt
        | inr ge ↦ absurd (ground (arith, has_prev-beyond s.log prev t (ground arith)))
      ] in
      let k = seen-Kept term s h in
      let (s', run, good, at, old, fine) =
        accept_entries_lem prev entries leader (seen term s) k.is_server lt i ok in
      (
        s',
        append-accept_entries term prev t entries leader s h.is_log lt new holds
            ∙ ap (accept_entries prev entries leader) (see_term_lem term s)
            ∙ run,
        record { is_server = good; at_term = at; committed_log = old },
        fine,
      )

  -- On a server whose invariant holds, and with entries that are numbered on from `prev_log_index` and
  -- contradict nothing that is committed, `append_entries` always returns. It accepts exactly when the
  -- term is not older than the server's and the log has an entry at `prev_log_index`, of
  -- `prev_log_term` unless that is 0. The invariant holds again: what is applied is what the log has up
  -- to `last_applied`. The term is the greater of the two and the committed part of the log is kept.
  -- Accepted, the log has the new entries' terms at their places and is unchanged up to
  -- `prev_log_index`, and the commit index is the leader's, at most the last index, unless that is
  -- less. Refused, log, commit index and state machine are unchanged.
  pub append_entries_lem :
      (term prev_log_index prev_log_term : ℕ) (entries : List (LogEntry C)) (leader_commit : ℕ)
      (s : RaftServer I C)
      → IsServer s
      → IndexedFrom (prev_log_index + 1) entries
      → Compatible s.commit_index entries (prev_log_index + 1) s.log
      → Returns
          (leb s.current_term term && has_prev s.log prev_log_index prev_log_term)
          term
          prev_log_index
          prev_log_term
          entries
          leader_commit
          s
  append_entries_lem term prev t entries leader s h i ok =
      elim (Bool-cases (ltb term s.current_term)) [
        | inl old ↦
            let lacks : leb s.current_term term ≡ false = ground arith in
            rw lacks (old_term term prev t entries leader s h (ltb→lt term s.current_term old))
        | inr new ↦
            let le : leb s.current_term term ≡ true = ground arith in
            elim (Bool-cases (has_prev s.log prev t)) [
              | inl holds ↦ rw (le, holds) (a_match term prev t entries leader s h i ok new holds)
              | inr lacks ↦ rw (le, lacks) (no_match term prev t entries leader s h new lacks)
            ]
      ]
