-- ===== src/Storage/Tests.antt =====
-- Runs of the engine, and its theorem at a small one.
use awesome_dsa.Prelude.{none, some, [], ◌∷◌, ◌++◌, ◌≡◌, refl}
use awesome_dsa.Prelude.Outcome.{returns, ◌>>=◌}
use awesome_dsa.Storage.Bitcask.{BitcaskEngine, new_engine, put, get, del, merge_and_compact}
use awesome_dsa.Storage.Bitcask.Edits.{Contents, update}

-- The key "a" with two values one after the other.
abbrev two_puts : BitcaskEngine
two_puts = put 2 (97 ∷ []) (11 ∷ 12 ∷ []) (put 1 (97 ∷ []) (9 ∷ []) new_engine)

compacted_test :
    (merge_and_compact (del 4 (98 ∷ []) (put 3 (98 ∷ []) (5 ∷ []) two_puts)) >>= λ e.
    get (97 ∷ []) e >>= λ got. returns (e.disk_log ++ elim (got.0) [ none ↦ [] | some v ↦ v ]))
    ≡ returns
        (1 ∷ 0 ∷ 2 ∷ 0 ∷ 0 ∷ 0 ∷ 0 ∷ 2 ∷ 0 ∷ 0 ∷ 0 ∷ 0 ∷ 0 ∷ 0 ∷ 0 ∷ 97 ∷ 11 ∷ 12 ∷ 11 ∷ 12 ∷ [])
unfolding merge_and_compact del put get
compacted_test = refl

abbrev one_key : Contents
one_key = update (97 ∷ []) (some (9 ∷ [])) (λ k. none)

abbrev one_put : BitcaskEngine
one_put = put 1 (97 ∷ []) (9 ∷ []) new_engine
