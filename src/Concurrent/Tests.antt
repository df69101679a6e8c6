-- ===== src/Concurrent/Tests.antt =====
-- The theorems of the reclaimer and the stack at small runs.
use awesome_dsa.Prelude.{ℕ, true, none, some, List, [], ◌∷◌, ◌≡◌, refl, arith}
use awesome_dsa.Concurrent.Reclaimer.{
  EpochReclaimer, new_reclaimer, pin, retire, unpin, drain_all, notify_alloc,
  try_advance_and_reclaim,
}
use awesome_dsa.Concurrent.Reclaimer.Safety.{Call, unpins, reclaims}
use awesome_dsa.Concurrent.Reclaimer.FirstEpoch.{reclaims_all_at_zero}
use awesome_dsa.Concurrent.TreiberStack.{
  Stack, Event, pushed, popped, new_stack, begin_push, end_push, load_head, load_next, end_pop,
  leave_pop,
}

-- Epoch 1, with thread 1 pinned at it.
abbrev epoch_one : EpochReclaimer
epoch_one = record new_reclaimer {
  global_epoch = 1;
  thread_records = record { thread = 1; local_epoch = 1; active = true } ∷ [];
}

abbrev two_calls : List Call
two_calls = reclaims ∷ unpins 2 ∷ []

-- Thread 1 pins itself at the start, and a node is retired after that.
abbrev at_start : EpochReclaimer
at_start = record new_reclaimer {
  thread_records = record { thread = 1; local_epoch = 0; active = true } ∷ [];
  retired_list = record { ptr = 40; retire_epoch = 0 } ∷ [];
}

at_start_test : retire (some 40) (pin 1 new_reclaimer) ≡ at_start
unfolding retire pin
at_start_test = refl

-- What is on the list at the end is freed, and the counts are right.
drain_all_test : (drain_all (notify_alloc (unpin 1 at_start))).freed ≡ 40 ∷ []
unfolding drain_all notify_alloc unpin
drain_all_test = refl

reclaims_all_at_zero_example :
    ((try_advance_and_reclaim at_start).retired_list ≡ [])
    × ((try_advance_and_reclaim at_start).freed ≡ 40 ∷ [])
reclaims_all_at_zero_example = reclaims_all_at_zero 1 at_start refl (omega arith, tt)

-- Thread 0 pushes 42, threads 0 and 1 load the node, thread 0 takes it off, and thread 1 finds that
-- the stack is empty.
abbrev one_node : Stack ℕ
one_node = end_push 0 5 (begin_push 0 5 42 new_stack)

abbrev both_inside : Stack ℕ
both_inside = load_next 0 5 none (load_head 1 5 (load_head 0 5 one_node))

abbrev race_end : Stack ℕ
race_end = leave_pop 1 (load_next 1 5 none (end_pop 0 5 none both_inside))

abbrev race_events : List (Event ℕ)
race_events = pushed 42 ∷ popped (some 42) ∷ popped none ∷ []
