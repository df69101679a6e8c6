-- ===== src/Distributed/Raft/Synced.antt =====
-- A cluster whose servers have the same log, all of it applied, stays so under client requests.
use Prim.Native.Nat.{min}
use awesome_dsa.Prelude.{
  ℕ, zero, suc, ◌+◌, ◌-◌, ◌≤◌, ◌<◌, Bool, true, false, some, List, [], ◌∷◌, ◌++◌, get_elem?,
  get_elem?-snoc_old, set, length, ◌==◌, ◌&&◌, leb, ltb, if◌then◌else◌, arith, ◌≡◌, refl, sym, ◌∙◌,
  ap, Bool-cases, inl, inr,
}
use awesome_dsa.Prelude.Ascending.{Each}
use awesome_dsa.Prelude.Outcome.{returns}
use awesome_dsa.Distributed.Raft.{
  LogEntry, RaftServer, last_log_index, insert_entries, accept_entries, see_term, append_entries,
  apply_to_state_machine,
}
use awesome_dsa.Distributed.Raft.Log.{get_elem?-some, IsLog, last_log_index_lem}
use awesome_dsa.Distributed.Raft.Append.{commands, commands-append, applied_to, apply_lem}
use awesome_dsa.Distributed.Raft.Accept.{append-accept_entries}
use awesome_dsa.Distributed.Raft.Entries.{has_prev}
use awesome_dsa.Distributed.Raft.Cluster.{replicate_entry, notify_followers}

module _ {ℓ} {C : Type ℓ} where
  insert_new :
      (log : List (LogEntry C)) (entry : LogEntry C) (k : ℕ)
      → leb k (last_log_index log) ≡ false
      → insert_entries (entry ∷ []) k log ≡ returns (log ++ entry ∷ [])
  unfolding insert_entries
  insert_new log entry k h = rw h refl

module _ {ℓ} {I C : Type ℓ} where
  -- The server has the log `log` and the term `term`, and `n` entries are committed and applied.
  pub record Has (log : List (LogEntry C)) (term n : ℕ) (s : RaftServer I C) : Type ℓ where
    pub same_log : s.log ≡ log
    pub same_term : s.current_term ≡ term
    pub commits : s.commit_index ≡ n
    pub applies : s.last_applied ≡ n
    pub outputs : s.applied_commands ≡ commands log n

  -- The same with one more entry, which is not committed.
  abbrev pub Has' : List (LogEntry C) → LogEntry C → ℕ → ℕ → RaftServer I C → Type ℓ
  Has' log entry term n s = Has (log ++ entry ∷ []) term n s

  see_same : (s : RaftServer I C) → see_term s.current_term s ≡ s
  unfolding see_term
  see_same s = let a : ltb s.current_term s.current_term ≡ false = ground arith in rw a refl

  accept_new :
      (s : RaftServer I C) (k : ℕ) (entry : LogEntry C)
      → leb (k + 1) (last_log_index s.log) ≡ false
      → accept_entries k (entry ∷ []) s.commit_index s
        ≡ returns (true, record s { log = s.log ++ entry ∷ [] })
  unfolding accept_entries
  accept_new s k entry h =
      let c : ltb s.commit_index s.commit_index ≡ false = ground arith in
      rw (insert_new s.log entry (k + 1) h, c) refl

  -- A server whose log ends before the new entry accepts it.
  append_new :
      (s : RaftServer I C) (prev : ℕ) (entry : LogEntry C)
      → suc prev ≡ length s.log
      → IsLog s.log
      → (d : LogEntry C) → get_elem? s.log prev ≡ some d
      → append_entries s.current_term prev d.term (entry ∷ []) s.commit_index s
        ≡ returns (true, record s { log = s.log ++ entry ∷ [] })
  unfolding append_entries
  append_new s prev entry e h d at =
      let last = last_log_index_lem s.log h in
      let m : has_prev s.log prev d.term ≡ true = rw (has_prev, at) (ground arith) in
      append-accept_entries s.current_term prev d.term (entry ∷ []) s.commit_index s h
        (omega (arith, e)) (ground arith) m
      ∙ ap (accept_entries prev (entry ∷ []) s.commit_index) (see_same s)
      ∙ accept_new s prev entry (ground (arith, last))

-- What holds of the elements when the one at the place `at` differs, counted from `i`.
abbrev pub Mixed {ℓ μ} : {A : Type ℓ} → (A → Type μ) → (A → Type μ) → ℕ → ℕ → List A → Type μ
Mixed P Q at i [] = Unit
Mixed P Q at i (x ∷ xs) = (if i == at then Q x else P x) × Mixed P Q at (suc i) xs

Mixed-after {ℓ μ} :
    {A : Type ℓ} (P Q : A → Type μ) (at i : ℕ) (xs : List A)
    → at < i
    → Each P xs
    → Mixed P Q at i xs
Mixed-after P Q at i [] h e = tt
Mixed-after P Q at i (x ∷ xs) h e =
    let ne : (i == at) ≡ false = ground arith in
    (rw ne e.0, Mixed-after P Q at (suc i) xs (omega arith) e.1)

pub Mixed-set {ℓ μ} :
    {A : Type ℓ} (P Q : A → Type μ) (at i k : ℕ) (xs : List A) (x : A)
    → at ≡ i + k
    → Each P xs
    → Q x
    → Mixed P Q at i (set xs k x)
Mixed-set P Q at i k [] x h e q = tt
Mixed-set P Q at i zero (y ∷ xs) x h e q =
    let eq : (i == at) ≡ true = ground arith in
    (rw eq q, Mixed-after P Q at (suc i) xs (omega arith) e.1)
Mixed-set P Q at i (suc k) (y ∷ xs) x h e q =
    let ne : (i == at) ≡ false = ground arith in
    (rw ne e.0, Mixed-set P Q at (suc i) k xs x (omega arith) e.1 q)

if_true {μ} : (b : Bool) (P Q : Type μ) → b ≡ true → (if b then Q else P) → Q
if_true true P Q e m = m
if_true false P Q e m = absurd (ground arith)

if_false {μ} : (b : Bool) (P Q : Type μ) → b ≡ false → (if b then Q else P) → P
if_false true P Q e m = absurd (ground arith)
if_false false P Q e m = m

-- 1 where the place `at` is among the `n` places from `i` on
abbrev pub here : ℕ → ℕ → ℕ → ℕ
here at i n = if leb i at && ltb at (i + n) then 1 else 0

module _ {ℓ} {I C : Type ℓ} where
  -- what the leader sends
  pub record Sends (log : List (LogEntry C)) (term n : ℕ) (leader : RaftServer I C)
      (entry : LogEntry C) : Type ℓ where
    pub is_log : IsLog log
    pub all_applied : suc n ≡ length log
    pub next_index : entry.index ≡ length log
    pub own_term : leader.current_term ≡ term
    pub own_commit : leader.commit_index ≡ n
    pub own_log : leader.log ≡ log ++ entry ∷ []

  append-Has :
      (log : List (LogEntry C)) (term n : ℕ) (leader : RaftServer I C) (entry : LogEntry C)
      (s : RaftServer I C) (d : LogEntry C)
      → Sends log term n leader entry
      → Has log term n s
      → get_elem? log (entry.index - 1) ≡ some d
      → (s' : RaftServer I C) × (append_entries leader.current_term
            (entry.index - 1)
            d.term
            (entry ∷ [])
            leader.commit_index
            s
          ≡ returns (true, s'))
        × Has' log entry term n s'
  append-Has log term n leader entry s d l h at = (
    record s { log = s.log ++ entry ∷ [] },
    rw (l.own_term ∙ sym h.same_term, l.own_commit ∙ sym h.commits)
        (append_new s (entry.index - 1) entry
          (omega (arith, ap length h.same_log, l.next_index, l.all_applied))
          (rw h.same_log l.is_log) d (ap (λ xs. get_elem? xs (entry.index - 1)) h.same_log ∙ at)),
    record {
      same_log = ap (λ xs. xs ++ entry ∷ []) h.same_log;
      same_term = h.same_term;
      commits = h.commits;
      applies = h.applies;
      outputs = h.outputs ∙ sym (commands-append log (entry ∷ []) n (omega (arith, l.all_applied)));
    },
  )

  -- Replicating an entry to servers that all have the log, but for the leader at the place `at`, which
  -- has it with the entry: all the others accept.
  pub replicate_lem :
      (log : List (LogEntry C)) (term n at i : ℕ) (leader : RaftServer I C) (entry : LogEntry C)
      → Sends log term n leader entry
      → (nodes : List (RaftServer I C)) → Mixed (Has log term n) (Has' log entry term n) at i nodes
      → (r : List (RaftServer I C) × ℕ) × (replicate_entry i at leader entry nodes ≡ returns r)
        × Each (Has' log entry term n) r.0
        × (length r.0 ≡ length nodes)
        × (r.1 + here at i (length nodes) ≡ length nodes)
  unfolding replicate_entry
  replicate_lem log term n at i leader entry l [] m = (([], 0), refl, tt, refl, ground arith)
  replicate_lem log term n at i leader entry l (s ∷ nodes) m =
      let ((after, count), run, each, len, counted) =
        replicate_lem log term n at (suc i) leader entry l nodes m.1 in
      elim (Bool-cases (i == at)) [
        | inl same ↦
            let own : Has' log entry term n s =
              if_true (i == at) (Has log term n s) (Has' log entry term n s) same m.0 in
            ((s ∷ after, count), rw (same, run) refl, (own, each), omega (arith, len), ground arith)
        | inr other ↦
            let own : Has log term n s =
              if_false (i == at) (Has log term n s) (Has' log entry term n s) other m.0 in
            let (d, there) =
              get_elem?-some log (entry.index - 1) (omega (arith, l.next_index, l.all_applied)) in
            let sent : get_elem? leader.log (entry.index - 1) ≡ some d =
              ap (λ xs. get_elem? xs (entry.index - 1)) l.own_log
              ∙ get_elem?-snoc_old log entry (entry.index - 1)
                  (omega (arith, l.next_index, l.all_applied))
              ∙ there in
            let (s', took, new) = append-Has log term n leader entry s d l own there in
            (
              (s' ∷ after, count + 1),
              rw (other, sent, took, run) refl,
              (new, each),
              omega (arith, len),
              ground arith,
            )
      ]

  pub apply-Has :
      (log : List (LogEntry C)) (term n to : ℕ) (s : RaftServer I C)
      → IsLog log
      → Has log term n s
      → (n ≤ to) × (to < length log)
      → (s' : RaftServer I C) × (apply_to_state_machine (record s { commit_index = to })
          ≡ returns s')
        × Has log term to s'
  apply-Has log term n to s h own le = (
    applied_to (record s { commit_index = to }) to,
    apply_lem (record s { commit_index = to }) (omega (arith, ap length own.same_log, le.1))
        (omega (arith, own.applies, le.0))
        (own.outputs
          ∙ sym (ap (commands log) own.applies)
          ∙ sym (ap (λ xs. commands xs s.last_applied) own.same_log)),
    record {
      same_log = own.same_log;
      same_term = own.same_term;
      commits = refl;
      applies = refl;
      outputs = ap (λ xs. commands xs to) own.same_log;
    },
  )

  -- Telling the followers of the commit index: they apply the new entry.
  pub notify_lem :
      (log : List (LogEntry C)) (term n at i : ℕ)
      → IsLog log
      → length log ≡ suc (suc n)
      → (nodes : List (RaftServer I C)) → Mixed (Has log term n) (Has log term (suc n)) at i nodes
      → (after : List (RaftServer I C)) × (notify_followers i at (suc n) nodes ≡ returns after)
        × Each (Has log term (suc n)) after
        × (length after ≡ length nodes)
  unfolding notify_followers
  notify_lem log term n at i h e [] m = ([], refl, tt, refl)
  notify_lem log term n at i h e (s ∷ nodes) m =
      let (after, run, each, len) = notify_lem log term n at (suc i) h e nodes m.1 in
      elim (Bool-cases (i == at)) [
        | inl same ↦
            let own = if_true (i == at) (Has log term n s) (Has log term (suc n) s) same m.0 in
            (s ∷ after, rw (same, run) refl, (own, each), omega (arith, len))
        | inr other ↦
            let own = if_false (i == at) (Has log term n s) (Has log term (suc n) s) other m.0 in
            let (s', took, new) =
              apply-Has log term n (suc n) s h own (omega arith, omega (arith, e)) in
            let last : min (suc n) (last_log_index s.log) ≡ suc n =
              omega
                (arith, e, ap length own.same_log, last_log_index_lem s.log (rw own.same_log h)) in
            (s' ∷ after, rw (other, last, took, run) refl, (new, each), omega (arith, len))
      ]
