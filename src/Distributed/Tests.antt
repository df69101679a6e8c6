-- ===== src/Distributed/Tests.antt =====
-- Runs of the clocks and of a server, and the theorems at them.
use awesome_dsa.Prelude.{
  ℕ, true, none, some, List, [], ◌∷◌, ◌≡◌, refl, max, if◌then◌else◌, ◌+◌, ◌==◌, arith,
}
use awesome_dsa.Prelude.Order.{nat_order}
use awesome_dsa.Prelude.Outcome.{returns}
use awesome_dsa.Distributed.Clock.{
  VectorClock, before, after, concurrent, find, get, tick, merge, compare,
}
use awesome_dsa.Distributed.Clock.Laws.{IsMap, merge_lem}
use awesome_dsa.Distributed.Clock.Compare.{Means, compare_lem, tick_lem}
use awesome_dsa.Distributed.Raft.{LogEntry, RaftServer, append_entries}
use awesome_dsa.Distributed.Raft.Append.{IsServer}
use awesome_dsa.Distributed.Raft.Accept.{Returns, append_entries_lem}

abbrev first_clock : VectorClock ℕ
first_clock = (1, 2) ∷ (2, 1) ∷ []

abbrev second_clock : VectorClock ℕ
second_clock = (2, 3) ∷ (7, 1) ∷ []

compare_test : compare first_clock second_clock ≡ concurrent
unfolding compare
compare_test = refl

compare-merge_test : compare first_clock (merge first_clock second_clock) ≡ before
unfolding compare merge
compare-merge_test = refl

compare_lem_example : Means (compare first_clock second_clock) first_clock second_clock
compare_lem_example = compare_lem first_clock second_clock

merge_lem_example :
    ((n : ℕ)
      → get (merge first_clock second_clock) n ≡ max (get first_clock n) (get second_clock n))
    × IsMap (merge first_clock second_clock)
unfolding find
merge_lem_example = merge_lem first_clock second_clock (refl, (refl, tt)) (refl, (refl, tt))

tick_lem_example :
    ((n : ℕ)
      → get (tick first_clock 2) n ≡ (if n == 2 then get first_clock 2 + 1 else get first_clock n))
    × (compare (tick first_clock 2) first_clock ≡ after)
unfolding get
tick_lem_example = tick_lem first_clock 2 (omega arith)

-- A server that has applied its one entry, and the next entry with the leader's commit index.
abbrev old_entry : LogEntry ℕ
old_entry = record { term = 1; index = 1; command = 7 }

abbrev next_entry : LogEntry ℕ
next_entry = record { term = 2; index = 2; command = 8 }

abbrev follower : RaftServer ℕ ℕ
follower = record {
  id = 5;
  current_term = 1;
  voted_for = some 4;
  log = record { term = 0; index = 0; command = 0 } ∷ old_entry ∷ [];
  commit_index = 1;
  last_applied = 1;
  applied_commands = 7 ∷ [];
}

append_entries_test :
    append_entries 2 1 1 (next_entry ∷ []) 2 follower
    ≡ returns (
      true,
      record follower {
        current_term = 2;
        voted_for = none;
        log = record { term = 0; index = 0; command = 0 } ∷ old_entry ∷ next_entry ∷ [];
        commit_index = 2;
        last_applied = 2;
        applied_commands = 7 ∷ 8 ∷ [];
      },
    )
unfolding append_entries
append_entries_test = refl

follower-IsServer : IsServer follower
follower-IsServer = record {
  is_log = (omega arith, (refl, (refl, tt)));
  committed = omega arith;
  last_committed = omega arith;
  applied = refl;
}

append_entries_lem_example : Returns true 2 1 1 (next_entry ∷ []) 2 follower
append_entries_lem_example =
    append_entries_lem 2 1 1 (next_entry ∷ []) 2 follower follower-IsServer (refl, tt)
      ((λ le. absurd (omega arith)), tt)

abbrev to_serve : List ℕ
to_serve = 4 ∷ 9 ∷ []
