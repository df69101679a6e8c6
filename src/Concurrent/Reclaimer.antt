-- ===== src/Concurrent/Reclaimer.antt =====
-- Class EpochReclaimer. An address is a number, null is `none`, and a call of a deleter is the
-- address on the list `freed`. A thread is a number: each thread uses one reclaimer, so that its
-- record is the one of this reclaimer.
pub mod Scan
pub mod Records
pub mod Safety
pub mod FirstEpoch
use awesome_dsa.Prelude.{
  ℕ, zero, suc, ◌+◌, ◌-◌, ◌%◌, ◌^◌, Bool, true, false, ◌&&◌, ◌||◌, not, Option, none, some, List,
  [], ◌∷◌, ◌++◌, length, map, ◌==◌, ltb, leb, if◌then◌else◌,
}

-- `tls_record_` is the record that has the number of the thread.
pub record ThreadEpochRecord : Type 0 where
  pub thread : ℕ
  pub local_epoch : ℕ
  pub active : Bool

pub record RetiredNode : Type 0 where
  pub ptr : ℕ
  pub retire_epoch : ℕ

pub record EpochReclaimer : Type 0 where
  pub global_epoch : ℕ
  pub thread_records : List ThreadEpochRecord
  pub retired_list : List RetiredNode
  pub total_allocated : ℕ
  pub total_reclaimed : ℕ
  pub freed : List ℕ

abbrev pub new_reclaimer : EpochReclaimer
new_reclaimer = record {
  global_epoch = 0;
  thread_records = [];
  retired_list = [];
  total_allocated = 0;
  total_reclaimed = 0;
  freed = [];
}

unfoldable pub is_registered : ℕ → List ThreadEpochRecord → Bool
is_registered t [] = false
is_registered t (p ∷ records) = p.thread == t || is_registered t records

unfoldable pub register_thread : ℕ → List ThreadEpochRecord → List ThreadEpochRecord
unfolding is_registered
register_thread t records =
    if is_registered t records
    then records
    else record { thread = t; local_epoch = 0; active = false } ∷ records

-- What `pin` stores, where the thread has loaded the global epoch `g_epoch`.
unfoldable pub store_pin : ℕ → ℕ → List ThreadEpochRecord → List ThreadEpochRecord
store_pin t g_epoch [] = []
store_pin t g_epoch (p ∷ records) =
    if p.thread == t
    then record p { local_epoch = g_epoch; active = true } ∷ records
    else p ∷ store_pin t g_epoch records

unfoldable pub pin_at : ℕ → ℕ → EpochReclaimer → EpochReclaimer
unfolding register_thread store_pin
pin_at t g_epoch r = record r {
  thread_records = store_pin t g_epoch (register_thread t r.thread_records);
}

unfoldable pub pin : ℕ → EpochReclaimer → EpochReclaimer
unfolding pin_at
pin t r = pin_at t r.global_epoch r

unfoldable pub store_unpin : ℕ → List ThreadEpochRecord → List ThreadEpochRecord
store_unpin t [] = []
store_unpin t (p ∷ records) =
    if p.thread == t then record p { active = false } ∷ records else p ∷ store_unpin t records

unfoldable pub unpin : ℕ → EpochReclaimer → EpochReclaimer
unfolding register_thread store_unpin
unpin t r = record r { thread_records = store_unpin t (register_thread t r.thread_records) }

-- The loop over the records, with `min_active` and `any_active`.
unfoldable pub scan : ℕ → Bool → List ThreadEpochRecord → ℕ × Bool
scan min_active any_active [] = (min_active, any_active)
scan min_active any_active (p ∷ records) =
    let skip = scan min_active any_active records in
    let lower = scan p.local_epoch true records in
    let same = scan min_active true records in
    if p.active then if ltb p.local_epoch min_active then lower else same else skip

-- The nodes that `stable_partition` leaves in front, and those behind them.
unfoldable pub kept : ℕ → List RetiredNode → List RetiredNode
kept safe_epoch [] = []
kept safe_epoch (node ∷ nodes) =
    if ltb safe_epoch node.retire_epoch then node ∷ kept safe_epoch nodes else kept safe_epoch nodes

unfoldable pub released : ℕ → List RetiredNode → List RetiredNode
released safe_epoch [] = []
released safe_epoch (node ∷ nodes) =
    if ltb safe_epoch node.retire_epoch
    then released safe_epoch nodes
    else node ∷ released safe_epoch nodes

unfoldable pub try_advance_and_reclaim_locked : EpochReclaimer → EpochReclaimer × List RetiredNode
unfolding scan kept released
try_advance_and_reclaim_locked r =
    let (min_active, any_active) = scan r.global_epoch false r.thread_records in
    let curr_epoch =
      if not any_active || min_active == r.global_epoch
      then (r.global_epoch + 1) % 2 ^ 64
      else r.global_epoch in
    let safe_epoch = if any_active && ltb 0 min_active then min_active - 1 else curr_epoch in
    (
      record r { global_epoch = curr_epoch; retired_list = kept safe_epoch r.retired_list },
      released safe_epoch r.retired_list,
    )

-- The calls of the deleters.
unfoldable pub free_all : EpochReclaimer × List RetiredNode → EpochReclaimer
free_all (r, to_free) = record r {
  total_reclaimed = (r.total_reclaimed + length to_free) % 2 ^ 64;
  freed = r.freed ++ map (λ node. node.ptr) to_free;
}

unfoldable pub try_advance_and_reclaim : EpochReclaimer → EpochReclaimer
unfolding try_advance_and_reclaim_locked free_all
try_advance_and_reclaim r = free_all (try_advance_and_reclaim_locked r)

unfoldable pub retire : Option ℕ → EpochReclaimer → EpochReclaimer
unfolding try_advance_and_reclaim
retire none r = r
retire (some ptr) r =
    let node : RetiredNode = record { ptr = ptr; retire_epoch = r.global_epoch } in
    let r' : EpochReclaimer = record r { retired_list = r.retired_list ++ node ∷ [] } in
    if leb 64 (length r'.retired_list) then try_advance_and_reclaim r' else r'

unfoldable pub drain_all : EpochReclaimer → EpochReclaimer
unfolding free_all
drain_all r = free_all (record r { retired_list = [] }, r.retired_list)

unfoldable pub notify_alloc : EpochReclaimer → EpochReclaimer
notify_alloc r = record r { total_allocated = (r.total_allocated + 1) % 2 ^ 64 }
