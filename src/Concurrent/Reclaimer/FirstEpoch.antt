-- ===== src/Concurrent/Reclaimer/FirstEpoch.antt =====
-- A reclamation where a thread is pinned at the first epoch.
use awesome_dsa.Prelude.{
  ℕ, ◌+◌, ◌%◌, ◌^◌, ◌≤◌, false, some, List, [], ◌∷◌, ◌++◌, map, ◌==◌, ltb, arith, ◌≡◌, inl, inr,
  refl, ap, Bool-cases,
}
use awesome_dsa.Concurrent.Reclaimer.{
  RetiredNode, EpochReclaimer, scan, kept, released, try_advance_and_reclaim_locked, free_all,
  try_advance_and_reclaim,
}
use awesome_dsa.Concurrent.Reclaimer.Scan.{pinned_epoch, scan_pinned}

-- No retired node has an epoch after the global one.
abbrev pub RetiredBy : ℕ → List RetiredNode → Type 0
RetiredBy g [] = Unit
RetiredBy g (node ∷ nodes) = (node.retire_epoch ≤ g) × RetiredBy g nodes

none_kept :
    (g safe : ℕ) (nodes : List RetiredNode)
    → g ≤ safe
    → RetiredBy g nodes
    → (kept safe nodes ≡ []) × (released safe nodes ≡ nodes)
unfolding kept released
none_kept g safe [] le h = (refl, refl)
none_kept g safe (node ∷ nodes) le (h, hs) =
    let goes : ltb safe node.retire_epoch ≡ false = ground arith in
    let (gone, all) = none_kept g safe nodes le hs in
    rw (kept, released, goes) (gone, ap (◌∷◌ node) all)

-- Where a thread is pinned at epoch 0, a reclamation frees every retired node.
pub reclaims_all_at_zero :
    (t : ℕ) (r : EpochReclaimer)
    → pinned_epoch t r.thread_records ≡ some 0
    → RetiredBy r.global_epoch r.retired_list
    → ((try_advance_and_reclaim r).retired_list ≡ [])
      × ((try_advance_and_reclaim r).freed ≡ r.freed ++ map (λ node. node.ptr) r.retired_list)
unfolding try_advance_and_reclaim try_advance_and_reclaim_locked free_all
reclaims_all_at_zero t r pinned by =
    let m = (scan r.global_epoch false r.thread_records).0 in
    let (any_active, low) = scan_pinned t 0 r.global_epoch false r.thread_records pinned in
    let zero_min : ltb 0 m ≡ false = ground arith in
    let result : (safe : ℕ)
        → r.global_epoch ≤ safe
        → (kept safe r.retired_list ≡ [])
          × (r.freed ++ map (λ node. node.ptr) (released safe r.retired_list)
              ≡ r.freed ++ map (λ node. node.ptr) r.retired_list) =
      λ safe le.
        let (gone, all) = none_kept r.global_epoch safe r.retired_list le by in
        (gone, ap (λ k. r.freed ++ map (λ node. node.ptr) k) all) in
    rw (any_active, zero_min)
      (elim (Bool-cases (m == r.global_epoch)) [
        | inl advance ↦
            let first : r.global_epoch ≡ 0 = ground arith in
            let next : r.global_epoch ≤ (r.global_epoch + 1) % 2 ^ 64 = omega arith in
            rw advance (result ((r.global_epoch + 1) % 2 ^ 64) next)
        | inr stay ↦ rw stay (result r.global_epoch (omega arith))
      ])
