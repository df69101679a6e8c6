-- ===== src/Distributed/Raft/Log.antt =====
-- The log: its indices, and what the loop over the new entries leaves of it.
use awesome_dsa.Prelude.{
  ℕ, zero, suc, ◌+◌, ◌≤◌, ◌<◌, none, some, List, [], ◌∷◌, ◌++◌, length, get_elem?, take, arith, ◌≡◌,
  refl, ap,
}
use awesome_dsa.Distributed.Raft.{LogEntry, last_log_index}

module _ {ℓ} {A : Type ℓ} where
  pub get_elem?-some : (xs : List A) (i : ℕ) → i < length xs → (x : A) × (get_elem? xs i ≡ some x)
  get_elem?-some [] i h = elim h [ ]
  get_elem?-some (x ∷ xs) zero h = (x, refl)
  get_elem?-some (x ∷ xs) (suc i) h = get_elem?-some xs i (omega arith)

  pub get_elem?-none : (xs : List A) (i : ℕ) → length xs ≤ i → get_elem? xs i ≡ none
  get_elem?-none [] i h = refl
  get_elem?-none (x ∷ xs) zero h = elim h [ ]
  get_elem?-none (x ∷ xs) (suc i) h = get_elem?-none xs i (omega arith)

  pub get_elem?-take : (xs : List A) (n i : ℕ) → i < n → get_elem? (take n xs) i ≡ get_elem? xs i
  get_elem?-take xs zero i h = elim h [ ]
  get_elem?-take [] (suc n) i h = refl
  get_elem?-take (x ∷ xs) (suc n) zero h = refl
  get_elem?-take (x ∷ xs) (suc n) (suc i) h = get_elem?-take xs n i (omega arith)

  pub take-append : (xs ys : List A) (n : ℕ) → n ≤ length xs → take n (xs ++ ys) ≡ take n xs
  take-append xs ys zero h = refl
  take-append [] ys (suc n) h = elim h [ ]
  take-append (x ∷ xs) ys (suc n) h = ap (◌∷◌ x) (take-append xs ys n (omega arith))

  pub take-length : (xs : List A) (n : ℕ) → n ≡ length xs → take n xs ≡ xs
  take-length [] zero h = refl
  take-length [] (suc n) h = refl
  take-length (x ∷ xs) zero h = absurd (omega arith)
  take-length (x ∷ xs) (suc n) h = ap (◌∷◌ x) (take-length xs n (omega arith))

  pub take-suc :
      (xs : List A) (n : ℕ) {x : A}
      → get_elem? xs n ≡ some x
      → take (suc n) xs ≡ take n xs ++ x ∷ []
  take-suc [] n h = absurd (ground arith)
  take-suc (y ∷ xs) zero h = ground arith
  take-suc (y ∷ xs) (suc n) h = ap (◌∷◌ y) (take-suc xs n h)

module _ {ℓ} {C : Type ℓ} where
  -- the entries carry the indices from `i` on
  abbrev pub IndexedFrom : ℕ → List (LogEntry C) → Type 0
  IndexedFrom i [] = Unit
  IndexedFrom i (e ∷ log) = (e.index ≡ i) × IndexedFrom (suc i) log

  abbrev pub IsLog : List (LogEntry C) → Type 0
  IsLog log = (0 < length log) × IndexedFrom 0 log

  last_log_index-IndexedFrom :
      (e : LogEntry C) (log : List (LogEntry C)) (i : ℕ)
      → IndexedFrom i (e ∷ log)
      → last_log_index (e ∷ log) ≡ i + length log
  unfolding last_log_index
  last_log_index-IndexedFrom e [] i h = omega (arith, h.0)
  last_log_index-IndexedFrom e (f ∷ log) i h =
      omega (arith, last_log_index-IndexedFrom f log (suc i) h.1)

  pub last_log_index_lem :
      (log : List (LogEntry C)) → IsLog log → suc (last_log_index log) ≡ length log
  last_log_index_lem [] h = elim h.0 [ ]
  last_log_index_lem (e ∷ log) h = omega (arith, last_log_index-IndexedFrom e log 0 h.1)

  pub IndexedFrom-snoc :
      (log : List (LogEntry C)) (i : ℕ) (e : LogEntry C)
      → IndexedFrom i log
      → e.index ≡ i + length log
      → IndexedFrom i (log ++ e ∷ [])
  IndexedFrom-snoc [] i e h p = (omega arith, tt)
  IndexedFrom-snoc (f ∷ log) i e h p = (h.0, IndexedFrom-snoc log (suc i) e h.1 (omega arith))

  pub IndexedFrom-take :
      (n : ℕ) (log : List (LogEntry C)) (i : ℕ) → IndexedFrom i log → IndexedFrom i (take n log)
  IndexedFrom-take zero log i h = tt
  IndexedFrom-take (suc n) [] i h = tt
  IndexedFrom-take (suc n) (e ∷ log) i h = (h.0, IndexedFrom-take n log (suc i) h.1)

  -- the log has at the index `k` an entry with the term of `e`
  abbrev pub Matches : LogEntry C → ℕ → List (LogEntry C) → Type ℓ
  Matches e k log = (f : LogEntry C) × (get_elem? log k ≡ some f) × (f.term ≡ e.term)

  -- the log has from the index `k` on entries with the terms of these
  abbrev pub Agrees : List (LogEntry C) → ℕ → List (LogEntry C) → Type ℓ
  Agrees [] k log = Unit
  Agrees (e ∷ entries) k log = Matches e k log × Agrees entries (suc k) log

  -- no entry contradicts the log up to the index `c`
  abbrev pub Compatible : ℕ → List (LogEntry C) → ℕ → List (LogEntry C) → Type ℓ
  Compatible c [] k log = Unit
  Compatible c (e ∷ entries) k log = (k ≤ c → Matches e k log) × Compatible c entries (suc k) log

  pub Compatible-of_lt :
      (c : ℕ) (entries : List (LogEntry C)) (k : ℕ) (log : List (LogEntry C))
      → c < k
      → Compatible c entries k log
  Compatible-of_lt c [] k log h = tt
  Compatible-of_lt c (e ∷ entries) k log h =
      ((λ le. absurd (omega arith)), Compatible-of_lt c entries (suc k) log (omega arith))
