-- ===== src/Concurrent/Reclaimer/Safety.antt =====
-- Which nodes a run of the reclaimer can free while a thread stays pinned.
use awesome_dsa.Prelude.{ℕ, ◌+◌, ◌^◌, ◌≤◌, ◌<◌, false, Option, some, List, [], ◌∷◌, ◌==◌, ◌≡◌}
use awesome_dsa.Concurrent.Reclaimer.{
  EpochReclaimer, pin_at, unpin, try_advance_and_reclaim, retire, notify_alloc,
}
use awesome_dsa.Concurrent.Reclaimer.Scan.{pinned_epoch, Late}

-- A call that some thread makes. A thread that pins itself stores an epoch that it has loaded before.
pub data Call : Type 0 where
  pins : ℕ → ℕ → Call
  unpins : ℕ → Call
  retires : Option ℕ → Call
  reclaims : Call
  allocates : Call

unfoldable pub call : Call → EpochReclaimer → EpochReclaimer
unfolding pin_at unpin retire try_advance_and_reclaim notify_alloc
call (pins t g_epoch) r = pin_at t g_epoch r
call (unpins t) r = unpin t r
call (retires ptr) r = retire ptr r
call reclaims r = try_advance_and_reclaim r
call allocates r = notify_alloc r

unfoldable pub run : List Call → EpochReclaimer → EpochReclaimer
unfolding call
run [] r = r
run (c ∷ calls) r = run calls (call c r)

-- The thread `t` makes no call of `pin` or `unpin`, and no thread pins itself at epoch 0.
abbrev pub LeavesPinned : ℕ → List Call → Type 0
LeavesPinned t [] = Unit
LeavesPinned t (pins other g_epoch ∷ calls) =
    (((other == t) ≡ false) × (0 < g_epoch)) × LeavesPinned t calls
LeavesPinned t (unpins other ∷ calls) = ((other == t) ≡ false) × LeavesPinned t calls
LeavesPinned t (retires ptr ∷ calls) = LeavesPinned t calls
LeavesPinned t (reclaims ∷ calls) = LeavesPinned t calls
LeavesPinned t (allocates ∷ calls) = LeavesPinned t calls

-- The thread `t` is pinned at the epoch `e`, and `n` more epochs do not overflow.
abbrev pub Pinned : ℕ → ℕ → ℕ → EpochReclaimer → Type 0
Pinned t e n r =
    (pinned_epoch t r.thread_records ≡ some e)
    × Late r.thread_records
    × (0 < e)
    × (e ≤ r.global_epoch)
    × (r.global_epoch + n < 2 ^ 64)
