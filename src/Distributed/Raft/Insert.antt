-- ===== src/Distributed/Raft/Insert.antt =====
-- The loop over the entries of an AppendEntries message.
use awesome_dsa.Prelude.{
  ℕ, suc, ◌≤◌, ◌<◌, true, false, some, List, [], ◌∷◌, ◌++◌, length, length-append, length-take,
  get_elem?, get_elem?-snoc_new, take, ◌==◌, leb, arith, ◌≡◌, refl, sym, ◌∙◌, ap, if◌then◌else◌,
  Bool-cases, inl, inr,
}
use awesome_dsa.Prelude.Outcome.{returns}
use awesome_dsa.Prelude.Slices.{take-take}
use awesome_dsa.Distributed.Raft.{LogEntry, last_log_index, insert_entries}
use awesome_dsa.Distributed.Raft.Log.{
  get_elem?-some, get_elem?-take, take-append, take-length, IndexedFrom, IsLog, last_log_index_lem,
  IndexedFrom-snoc, IndexedFrom-take, Matches, Agrees, Compatible, Compatible-of_lt,
}

module _ {ℓ} {C : Type ℓ} where
  -- What the loop leaves: `after` has the entries from `k` on, and up to an index that no entry
  -- contradicts it is the old log.
  pub record Inserted (entries : List (LogEntry C)) (k : ℕ) (log after : List (LogEntry C))
      : Type ℓ where
    pub is_log : IsLog after
    pub agrees : Agrees entries k after
    pub keeps :
        (c : ℕ)
        → c < length log
        → Compatible c entries k log
        → take (suc c) after ≡ take (suc c) log

  get_elem?-of_take :
      (xs ys : List (LogEntry C)) (k : ℕ)
      → take (suc k) xs ≡ take (suc k) ys
      → get_elem? xs k ≡ get_elem? ys k
  get_elem?-of_take xs ys k h =
      sym (get_elem?-take xs (suc k) k (omega arith))
      ∙ ap (λ zs. get_elem? zs k) h
      ∙ get_elem?-take ys (suc k) k (omega arith)

  -- One step that leaves `mid`, which has the entry at `k`, and the rest of the loop.
  insert_step :
      (e : LogEntry C) (entries : List (LogEntry C)) (k : ℕ) (log mid after : List (LogEntry C))
      → Matches e k mid
      → k < length mid
      → ((c : ℕ)
          → c < length log
          → Compatible c (e ∷ entries) k log
          → (c < length mid)
            × (take (suc c) mid ≡ take (suc c) log)
            × Compatible c entries (suc k) mid)
      → Inserted entries (suc k) mid after
      → Inserted (e ∷ entries) k log after
  insert_step e entries k log mid after (f, at, same) lt keep r = record {
    is_log = r.is_log;
    agrees = (
      (
        f,
        get_elem?-of_take after mid k
              (r.keeps k lt (Compatible-of_lt k entries (suc k) mid (omega arith)))
            ∙ at,
        same,
      ),
      r.agrees,
    );
    keeps = λ c h i. let (below, old, ok) = keep c h i in r.keeps c below ok ∙ old;
  }

  -- an entry put at the index `k`, after the first `k` of the log
  put_step :
      (e : LogEntry C) (entries : List (LogEntry C)) (k : ℕ) (log : List (LogEntry C))
      → k ≤ length log
      → e.index ≡ k
      → IsLog log
      → ((c : ℕ) → c < length log → Compatible c (e ∷ entries) k log → c < k)
      → IsLog (take k log ++ e ∷ [])
        × Matches e k (take k log ++ e ∷ [])
        × (length (take k log ++ e ∷ []) ≡ suc k)
        × ((c : ℕ)
            → c < length log
            → Compatible c (e ∷ entries) k log
            → (c < length (take k log ++ e ∷ []))
              × (take (suc c) (take k log ++ e ∷ []) ≡ take (suc c) log)
              × Compatible c entries (suc k) (take k log ++ e ∷ []))
  put_step e entries k log le at h lower =
      let size : length (take k log) ≡ k = omega (arith, length-take k log) in
      let sizes : length (take k log ++ e ∷ []) ≡ suc k =
        omega (arith, length-append (take k log) (e ∷ []), size) in
      (
        (
          omega (arith, sizes),
          IndexedFrom-snoc (take k log) 0 e (IndexedFrom-take k log 0 h.1)
              (omega (arith, at, size)),
        ),
        (
          e,
          ap (get_elem? (take k log ++ e ∷ [])) (sym size) ∙ get_elem?-snoc_new (take k log) e,
          refl,
        ),
        sizes,
        λ c lt ok.
            let below = lower c lt ok in
            (
              omega (arith, sizes, below),
              take-append (take k log) (e ∷ []) (suc c) (omega (arith, size, below))
                  ∙ take-take log (suc c) k below,
              Compatible-of_lt c entries (suc k) _ (omega (arith, below)),
            ),
      )

  insert_there :
      (e : LogEntry C) (entries : List (LogEntry C)) (k : ℕ) (log : List (LogEntry C))
      (old : LogEntry C)
      → leb k (last_log_index log) ≡ true
      → get_elem? log k ≡ some old
      → insert_entries (e ∷ entries) k log ≡ (
          if old.term == e.term
          then insert_entries entries (suc k) log
          else insert_entries entries (suc k) (take k log ++ e ∷ []))
  unfolding insert_entries
  insert_there e entries k log old p q = rw (p, q) refl

  insert_beyond :
      (e : LogEntry C) (entries : List (LogEntry C)) (k : ℕ) (log : List (LogEntry C))
      → leb k (last_log_index log) ≡ false
      → insert_entries (e ∷ entries) k log ≡ insert_entries entries (suc k) (log ++ e ∷ [])
  unfolding insert_entries
  insert_beyond e entries k log p = rw p refl

  -- What the loop leaves, and how it is computed.
  abbrev Result : List (LogEntry C) → ℕ → List (LogEntry C) → Type ℓ
  Result entries k log =
      (after : List (LogEntry C)) × (insert_entries entries k log ≡ returns after)
      × Inserted entries k log after

  insert_put :
      (e : LogEntry C) (entries : List (LogEntry C)) (k : ℕ) (log : List (LogEntry C))
      → k ≤ length log
      → e.index ≡ k
      → IsLog log
      → ((c : ℕ) → c < length log → Compatible c (e ∷ entries) k log → c < k)
      → insert_entries (e ∷ entries) k log ≡ insert_entries entries (suc k) (take k log ++ e ∷ [])
      → (IsLog (take k log ++ e ∷ [])
          → suc k ≤ length (take k log ++ e ∷ [])
          → Result entries (suc k) (take k log ++ e ∷ []))
      → Result (e ∷ entries) k log
  insert_put e entries k log le at h lower run next =
      let (fine, there, sizes, keep) = put_step e entries k log le at h lower in
      let (after, returned, r) = next fine (omega (arith, sizes)) in
      (
        after,
        run ∙ returned,
        insert_step e entries k log (take k log ++ e ∷ []) after there (omega (arith, sizes)) keep
            r,
      )

  conflict_above :
      (e old : LogEntry C) (k c : ℕ) (log : List (LogEntry C))
      → get_elem? log k ≡ some old
      → (old.term == e.term) ≡ false
      → (k ≤ c → Matches e k log)
      → c < k
  conflict_above e old k c log at other ok = elim (Bool-cases (leb k c)) [
    | inr above ↦ ground arith
    | inl le ↦
        let (f, there, same) = ok (ground arith) in
        let eq : some old ≡ some f = sym at ∙ there in
        absurd (grind (arith, eq, same, other, at, there))
  ]

  pub insert_entries_lem :
      (entries : List (LogEntry C)) (k : ℕ) (log : List (LogEntry C))
      → IsLog log
      → k ≤ length log
      → IndexedFrom k entries
      → Result entries k log
  unfolding insert_entries
  insert_entries_lem [] k log h le i =
      (log, refl, record { is_log = h; agrees = tt; keeps = λ c _ _. refl })
  insert_entries_lem (e ∷ entries) k log h le i =
      let last = last_log_index_lem log h in
      let next = λ (mid : List (LogEntry C)) (fine : IsLog mid) (le : suc k ≤ length mid).
        insert_entries_lem entries (suc k) mid fine le i.1 in
      elim (Bool-cases (leb k (last_log_index log))) [
        | inr beyond ↦
            let all = take-length log k (ground (arith, last)) in
            insert_put e entries k log le i.0 h (λ c lt _. ground (arith, last))
              (insert_beyond e entries k log beyond
                ∙ ap (λ xs. insert_entries entries (suc k) (xs ++ e ∷ [])) (sym all))
              (next _)
        | inl within ↦
            let lt : k < length log = ground (arith, last) in
            let (old, at) = get_elem?-some log k lt in
            let run = insert_there e entries k log old within at in
            elim (Bool-cases (old.term == e.term)) [
              | inl same ↦
                  let (after, returned, r) = next log h lt in
                  (
                    after,
                    run ∙ rw same returned,
                    insert_step e entries k log log after (old, at, ground arith) lt
                        (λ c below ok. (below, refl, ok.1)) r,
                  )
              | inr other ↦
                  insert_put e entries k log le i.0 h
                    (λ c lt ok. conflict_above e old k c log at other ok.0) (run ∙ rw other refl)
                    (next _)
            ]
      ]
