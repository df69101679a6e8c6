-- ===== src/Concurrent/Reclaimer/Records.antt =====
-- The thread records after a call of another thread.
use awesome_dsa.Prelude.{ℕ, ◌<◌, false, some, List, [], ◌∷◌, ◌==◌, arith, ◌≡◌, inl, inr, Bool-cases}
use awesome_dsa.Concurrent.Reclaimer.{
  ThreadEpochRecord, is_registered, register_thread, store_pin, store_unpin,
}
use awesome_dsa.Concurrent.Reclaimer.Scan.{pinned_epoch, Late}

pub pinned-store_pin :
    (t other g e : ℕ) (records : List ThreadEpochRecord)
    → (other == t) ≡ false
    → pinned_epoch t records ≡ some e
    → pinned_epoch t (store_pin other g records) ≡ some e
unfolding store_pin
pinned-store_pin t other g e [] ne h = h
pinned-store_pin t other g e (p ∷ records) ne h = elim (Bool-cases (p.thread == other)) [
  | inl theirs ↦
      let not_mine : (p.thread == t) ≡ false = ground arith in
      rw (store_pin, theirs, not_mine) (rw not_mine at h)
  | inr skip ↦
      rw (store_pin, skip)
        (elim (Bool-cases (p.thread == t)) [
          | inl mine ↦ rw mine (rw mine at h)
          | inr other_one ↦
              rw other_one (pinned-store_pin t other g e records ne (rw other_one at h))
        ])
]

pub pinned-store_unpin :
    (t other e : ℕ) (records : List ThreadEpochRecord)
    → (other == t) ≡ false
    → pinned_epoch t records ≡ some e
    → pinned_epoch t (store_unpin other records) ≡ some e
unfolding store_unpin
pinned-store_unpin t other e [] ne h = h
pinned-store_unpin t other e (p ∷ records) ne h = elim (Bool-cases (p.thread == other)) [
  | inl theirs ↦
      let not_mine : (p.thread == t) ≡ false = ground arith in
      rw (store_unpin, theirs, not_mine) (rw not_mine at h)
  | inr skip ↦
      rw (store_unpin, skip)
        (elim (Bool-cases (p.thread == t)) [
          | inl mine ↦ rw mine (rw mine at h)
          | inr other_one ↦
              rw other_one (pinned-store_unpin t other e records ne (rw other_one at h))
        ])
]

pub pinned-register_thread :
    (t other e : ℕ) (records : List ThreadEpochRecord)
    → (other == t) ≡ false
    → pinned_epoch t records ≡ some e
    → pinned_epoch t (register_thread other records) ≡ some e
unfolding register_thread
pinned-register_thread t other e records ne h = elim (Bool-cases (is_registered other records)) [
  | inl old ↦ rw (register_thread, old) h
  | inr new ↦ rw (register_thread, new, ne) h
]

pub Late-store_pin :
    (other g : ℕ) (records : List ThreadEpochRecord)
    → 0 < g
    → Late records
    → Late (store_pin other g records)
unfolding store_pin
Late-store_pin other g [] h late = late
Late-store_pin other g (p ∷ records) h (first, late) = elim (Bool-cases (p.thread == other)) [
  | inl theirs ↦ rw (store_pin, theirs) (λ on. h, late)
  | inr skip ↦ rw (store_pin, skip) (first, Late-store_pin other g records h late)
]

pub Late-store_unpin :
    (other : ℕ) (records : List ThreadEpochRecord) → Late records → Late (store_unpin other records)
unfolding store_unpin
Late-store_unpin other [] late = late
Late-store_unpin other (p ∷ records) (first, late) = elim (Bool-cases (p.thread == other)) [
  | inl theirs ↦ rw (store_unpin, theirs) (λ on. absurd (cc (on)), late)
  | inr skip ↦ rw (store_unpin, skip) (first, Late-store_unpin other records late)
]

pub Late-register_thread :
    (other : ℕ) (records : List ThreadEpochRecord)
    → Late records
    → Late (register_thread other records)
unfolding register_thread
Late-register_thread other records late = elim (Bool-cases (is_registered other records)) [
  | inl old ↦ rw (register_thread, old) late
  | inr new ↦ rw (register_thread, new) (λ on. absurd (cc (on)), late)
]
