-- ===== src/Concurrent/Reclaimer/Scan.antt =====
-- What the scan of the thread records finds, and what the partition of the retired nodes keeps.
use awesome_dsa.Prelude.{
  ℕ, ◌≤◌, ◌<◌, Bool, true, false, Option, none, some, List, [], ◌∷◌, ◌++◌, ◌==◌, ltb, arith, ◌≡◌,
  ◌⊎◌, inl, inr, refl, if◌then◌else◌, Bool-cases,
}
use awesome_dsa.Concurrent.Reclaimer.{ThreadEpochRecord, RetiredNode, scan, kept}

-- The epoch at which the thread `t` is pinned.
abbrev pub pinned_epoch : ℕ → List ThreadEpochRecord → Option ℕ
pinned_epoch t [] = none
pinned_epoch t (p ∷ records) =
    if p.thread == t then if p.active then some p.local_epoch else none else pinned_epoch t records

-- No thread is pinned at epoch 0.
abbrev pub Late : List ThreadEpochRecord → Type 0
Late [] = Unit
Late (p ∷ records) = (p.active ≡ true → 0 < p.local_epoch) × Late records

-- A node at the address `ptr` that has been retired at the epoch `e` or later.
abbrev pub HasNode : ℕ → ℕ → List RetiredNode → Type 0
HasNode ptr e [] = ⊥
HasNode ptr e (node ∷ nodes) = ((node.ptr ≡ ptr) × (e ≤ node.retire_epoch)) ⊎ HasNode ptr e nodes

pub scan_low : (m : ℕ) (b : Bool) (records : List ThreadEpochRecord) → (scan m b records).0 ≤ m
unfolding scan
scan_low m b [] = omega arith
scan_low m b (p ∷ records) = elim (Bool-cases p.active) [
  | inl on ↦ elim (Bool-cases (ltb p.local_epoch m)) [
    | inl lower ↦ let h = scan_low p.local_epoch true records in rw (scan, on, lower) (ground arith)
    | inr same ↦ rw (scan, on, same) (scan_low m true records)
  ]
  | inr off ↦ rw (scan, off) (scan_low m b records)
]

pub scan_active : (m : ℕ) (records : List ThreadEpochRecord) → (scan m true records).1 ≡ true
unfolding scan
scan_active m [] = refl
scan_active m (p ∷ records) = elim (Bool-cases p.active) [
  | inl on ↦ elim (Bool-cases (ltb p.local_epoch m)) [
    | inl lower ↦ rw (scan, on, lower) (scan_active p.local_epoch records)
    | inr same ↦ rw (scan, on, same) (scan_active m records)
  ]
  | inr off ↦ rw (scan, off) (scan_active m records)
]

pub scan_pinned :
    (t e m : ℕ) (b : Bool) (records : List ThreadEpochRecord)
    → pinned_epoch t records ≡ some e
    → ((scan m b records).1 ≡ true) × ((scan m b records).0 ≤ e)
unfolding scan
scan_pinned t e m b [] h = absurd (cc (h))
scan_pinned t e m b (p ∷ records) h = elim (Bool-cases p.active) [
  | inl on ↦
      let mine : (p.thread == t) ≡ true → p.local_epoch ≡ e =
        λ found. let h' : some p.local_epoch ≡ some e = rw (found, on) at h in cc (h') in
      let theirs : (p.thread == t) ≡ false → pinned_epoch t records ≡ some e =
        λ other. rw other at h in
      elim (Bool-cases (ltb p.local_epoch m)) [
        | inl lower ↦
            rw (scan, on, lower)
              (elim (Bool-cases (p.thread == t)) [
                | inl found ↦
                    let low = scan_low p.local_epoch true records in
                    let same = mine found in (scan_active p.local_epoch records, omega arith)
                | inr other ↦ scan_pinned t e p.local_epoch true records (theirs other)
              ])
        | inr higher ↦
            rw (scan, on, higher)
              (elim (Bool-cases (p.thread == t)) [
                | inl found ↦
                    let low = scan_low m true records in
                    let same = mine found in
                    let bound : m ≤ p.local_epoch = ground arith in
                    (scan_active m records, omega arith)
                | inr other ↦ scan_pinned t e m true records (theirs other)
              ])
      ]
  | inr off ↦
      rw (scan, off)
        (elim (Bool-cases (p.thread == t)) [
          | inl found ↦ let h' : none ≡ some e = rw (found, off) at h in absurd (cc (h'))
          | inr other ↦ scan_pinned t e m b records (rw other at h)
        ])
]

pub scan-Late :
    (m : ℕ) (b : Bool) (records : List ThreadEpochRecord)
    → 0 < m
    → Late records
    → 0 < (scan m b records).0
unfolding scan
scan-Late m b [] h late = h
scan-Late m b (p ∷ records) h (first, late) = elim (Bool-cases p.active) [
  | inl on ↦ elim (Bool-cases (ltb p.local_epoch m)) [
    | inl lower ↦ rw (scan, on, lower) (scan-Late p.local_epoch true records (first on) late)
    | inr same ↦ rw (scan, on, same) (scan-Late m true records h late)
  ]
  | inr off ↦ rw (scan, off) (scan-Late m b records h late)
]

pub kept_lem :
    (ptr e safe : ℕ) (nodes : List RetiredNode)
    → safe < e
    → HasNode ptr e nodes
    → HasNode ptr e (kept safe nodes)
unfolding kept
kept_lem ptr e safe [] h n = n
kept_lem ptr e safe (node ∷ nodes) h n = elim (Bool-cases (ltb safe node.retire_epoch)) [
  | inl stays ↦
      rw (kept, stays)
        (elim n [ inl here ↦ inl here | inr there ↦ inr (kept_lem ptr e safe nodes h there) ])
  | inr goes ↦
      rw (kept, goes)
        (elim n [
          | inl (same, late) ↦ absurd (ground arith)
          | inr there ↦ kept_lem ptr e safe nodes h there
        ])
]

pub HasNode-append :
    (ptr e : ℕ) (nodes : List RetiredNode) (node : RetiredNode)
    → HasNode ptr e nodes ⊎ ((node.ptr ≡ ptr) × (e ≤ node.retire_epoch))
    → HasNode ptr e (nodes ++ node ∷ [])
HasNode-append ptr e [] node (inl h) = absurd h
HasNode-append ptr e [] node (inr h) = inl h
HasNode-append ptr e (x ∷ nodes) node (inl (inl h)) = inl h
HasNode-append ptr e (x ∷ nodes) node (inl (inr h)) = inr (HasNode-append ptr e nodes node (inl h))
HasNode-append ptr e (x ∷ nodes) node (inr h) = inr (HasNode-append ptr e nodes node (inr h))
