-- ===== src/Distributed/Clock/Laws.antt =====
-- Reading a vector clock after `tick` and `merge`, and what the four answers of `compare` mean.
use awesome_dsa.Prelude.{ℕ, none, some, [], ◌∷◌, max, if◌then◌else◌, arith, ◌≡◌, refl}
use awesome_dsa.Prelude.Order.{Order}
use awesome_dsa.Distributed.Clock.{VectorClock, find, get, assign, merge}

module _ {ℓ} {N : Type ℓ} ⦃o : Order N⦄ where
  pub find-assign :
      (c : VectorClock N) (n : N) (v : ℕ) (m : N)
      → find (assign c n v) m ≡ (if o.equal m n then some v else find c m)
  unfolding find assign
  find-assign [] n v m = refl
  find-assign (kv ∷ c) n v m = grind (
    arith,
    find-assign c n v m,
    o.eq_of_equal n kv.0,
    o.eq_of_equal m n,
    o.eq_of_equal m kv.0,
    o.equal_refl m,
  )

  -- each key once
  abbrev pub IsMap : VectorClock N → Type 0
  IsMap [] = Unit
  IsMap (kv ∷ c) = (find c kv.0 ≡ none) × IsMap c

  pub get-assign :
      (c : VectorClock N) (n : N) (v : ℕ) (m : N)
      → get (assign c n v) m ≡ (if o.equal m n then v else get c m)
  unfolding get
  get-assign c n v m = ground (arith, find-assign c n v m)

  assign-IsMap : (c : VectorClock N) (n : N) (v : ℕ) → IsMap c → IsMap (assign c n v)
  unfolding assign find
  assign-IsMap [] n v h = (refl, tt)
  assign-IsMap (kv ∷ c) n v h =
      ground
        (arith, assign-IsMap c n v, find-assign c n v kv.0, o.eq_of_equal kv.0 n, o.equal_refl n)

  merge-IsMap : (c d : VectorClock N) → IsMap c → IsMap (merge c d)
  unfolding merge
  merge-IsMap c [] h = h
  merge-IsMap c (kv ∷ d) h = merge-IsMap (assign c kv.0 _) d (assign-IsMap c kv.0 _ h)

  get-merge : (c d : VectorClock N) (n : N) → IsMap d → get (merge c d) n ≡ max (get c n) (get d n)
  unfolding merge get find
  get-merge c [] n h = omega arith
  get-merge c (kv ∷ d) n h = grind (
    arith,
    get-merge (assign c kv.0 (max (get c kv.0) kv.1)) d n h.1,
    get-assign c kv.0 (max (get c kv.0) kv.1) n,
    h.0,
    o.eq_of_equal n kv.0,
    o.equal_refl n,
  )

  -- After `merge` with a clock that has each node once, each node has the greater of its two counts,
  -- and a clock that has each node once still does.
  pub merge_lem :
      (c d : VectorClock N)
      → IsMap c
      → IsMap d
      → ((n : N) → get (merge c d) n ≡ max (get c n) (get d n)) × IsMap (merge c d)
  merge_lem c d h i = (λ n. get-merge c d n i, merge-IsMap c d h)
