-- ===== src/Storage/Bitcask/Keydir.antt =====
-- The index of the log as a map.
use awesome_dsa.Prelude.{
  ℕ, true, false, none, some, List, [], ◌∷◌, ◌==◌, arith, ◌≡◌, refl, sym, ◌∙◌, ap, if◌then◌else◌,
  Bool-cases, inl, inr,
}
use awesome_dsa.Storage.Bitcask.{RecordPointer, Keydir, same_key, find, assign}

pub same_key_self : (k : List ℕ) → same_key k k ≡ true
unfolding same_key
same_key_self [] = refl
same_key_self (a ∷ k) = let e : (a == a) ≡ true = ground arith in rw (same_key, e) (same_key_self k)

pub eq_of_same_key : (k l : List ℕ) → same_key k l ≡ true → k ≡ l
unfolding same_key
eq_of_same_key [] [] h = refl
eq_of_same_key [] (b ∷ l) h = absurd (cc (h))
eq_of_same_key (a ∷ k) [] h = absurd (cc (h))
eq_of_same_key (a ∷ k) (b ∷ l) h = elim (Bool-cases (a == b)) [
  | inl e ↦
      let first : a ≡ b = ground arith in
      let rest : same_key k l ≡ true = rw e at h in cc (first, eq_of_same_key k l rest)
  | inr e ↦ let bad : false ≡ true = rw e at h in absurd (cc (bad))
]

pub same_key_comm : (k l : List ℕ) → same_key k l ≡ same_key l k
same_key_comm k l = elim (Bool-cases (same_key k l)) [
  | inl e ↦
      let eq = eq_of_same_key k l e in
      let back : same_key l k ≡ true = ap (λ z. same_key l z) eq ∙ same_key_self l in e ∙ sym back
  | inr e ↦ elim (Bool-cases (same_key l k)) [
    | inl back ↦
        let eq = eq_of_same_key l k back in
        let bad : same_key k l ≡ true = ap (λ z. same_key k z) eq ∙ same_key_self k in
        absurd (cc (e, bad))
    | inr back ↦ e ∙ sym back
  ]
]

-- Each key has one entry.
abbrev pub IsUnique : Keydir → Type 0
IsUnique [] = Unit
IsUnique ((k, ptr) ∷ dir) = (find k dir ≡ none) × IsUnique dir

pub find-assign_self :
    (key : List ℕ) (ptr : RecordPointer) (dir : Keydir) → find key (assign key ptr dir) ≡ some ptr
unfolding find assign
find-assign_self key ptr [] = rw (find, same_key_self key) refl
find-assign_self key ptr ((k, p) ∷ dir) = elim (Bool-cases (same_key k key)) [
  | inl e ↦ rw (assign, e) (rw (find, e) refl)
  | inr e ↦ rw (assign, e) (rw (find, e) (find-assign_self key ptr dir))
]

pub find-assign_other :
    (key other : List ℕ) (ptr : RecordPointer) (dir : Keydir)
    → same_key key other ≡ false
    → find other (assign key ptr dir) ≡ find other dir
unfolding find assign
find-assign_other key other ptr [] ne = rw (find, ne) refl
find-assign_other key other ptr ((k, p) ∷ dir) ne = elim (Bool-cases (same_key k key)) [
  | inl e ↦
      let eq = eq_of_same_key k key e in
      let off : same_key k other ≡ false = ap (λ z. same_key z other) eq ∙ ne in
      rw (assign, e, off) refl
  | inr e ↦
      rw (assign, e)
        (ap (λ r. if same_key k other then some p else r) (find-assign_other key other ptr dir ne))
]

pub assign-IsUnique :
    (key : List ℕ) (ptr : RecordPointer) (dir : Keydir)
    → IsUnique dir
    → IsUnique (assign key ptr dir)
unfolding find assign
assign-IsUnique key ptr [] h = (refl, tt)
assign-IsUnique key ptr ((k, p) ∷ dir) (once, h) = elim (Bool-cases (same_key k key)) [
  | inl e ↦ rw (assign, e) (once, h)
  | inr e ↦
      rw (assign, e)
        (
          find-assign_other key k ptr dir (same_key_comm key k ∙ e) ∙ once,
          assign-IsUnique key ptr dir h,
        )
]
