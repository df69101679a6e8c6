-- ===== src/Distributed/Clock/Compare.antt =====
-- What the four answers of `compare` mean.
use native.Mathlib.Nat.{mod-eq_of_lt}
use awesome_dsa.Prelude.{
  ◌+◌, ◌%◌, ◌^◌, ◌≤◌, ◌<◌, Bool, true, false, ◌||◌, List, [], ◌∷◌, ltb, if◌then◌else◌, arith, ◌≡◌,
  refl, Bool-cases, inl, inr,
}
use awesome_dsa.Prelude.Order.{Order}
use awesome_dsa.Distributed.Clock.Laws.{get-assign}
use awesome_dsa.Distributed.Clock.{
  VectorClock, CausalityOrder, before, after, equal, concurrent, find, get, tick, contains,
  add_nodes, compare_nodes, compare,
}

module _ {ℓ} {N : Type ℓ} ⦃o : Order N⦄ where
  add_nodes-keep :
      (ns : List N) (c : VectorClock N) (n : N)
      → contains ns n ≡ true
      → contains (add_nodes ns c) n ≡ true
  unfolding add_nodes contains
  add_nodes-keep ns [] n h = h
  add_nodes-keep ns (kv ∷ c) n h =
      add_nodes-keep (if contains ns kv.0 then ns else kv.0 ∷ ns) c n (ground arith)

  add_nodes-new :
      (ns : List N) (c : VectorClock N) (n : N) → contains (add_nodes ns c) n ≡ false → get c n ≡ 0
  unfolding add_nodes contains get find
  add_nodes-new ns [] n h = refl
  add_nodes-new ns (kv ∷ c) n h =
      let rest = if contains ns kv.0 then ns else kv.0 ∷ ns in
      elim (Bool-cases (o.equal n kv.0)) [
        | inl same ↦
            let there : contains rest n ≡ true =
              grind (arith, o.eq_of_equal n kv.0 same, o.equal_refl n) in
            absurd (ground (arith, add_nodes-keep rest c n there))
        | inr other ↦ rw (get, find, other) (add_nodes-new rest c n h)
      ]

  abbrev some_less : VectorClock N → VectorClock N → List N → Bool
  some_less c d [] = false
  some_less c d (n ∷ ns) = ltb (get c n) (get d n) || some_less c d ns

  compare_nodes_lem :
      (c d : VectorClock N) (ns : List N) (a b : Bool)
      → compare_nodes c d ns a b ≡ (a || some_less d c ns, b || some_less c d ns)
  unfolding compare_nodes
  compare_nodes_lem c d [] a b = ground arith
  compare_nodes_lem c d (n ∷ ns) a b =
      rw
        (compare_nodes_lem c d ns (if ltb (get d n) (get c n) then true else a)
          (if ltb (get c n) (get d n) then true else b))
        (ground arith)

  some_less-true :
      (c d : VectorClock N) (ns : List N) → some_less c d ns ≡ true → (n : N) × (get c n < get d n)
  some_less-true c d [] h = absurd (ground arith)
  some_less-true c d (n ∷ ns) h = elim (Bool-cases (ltb (get c n) (get d n))) [
    | inl lt ↦ (n, ground arith)
    | inr ge ↦ some_less-true c d ns (ground arith)
  ]

  some_less-false :
      (c d : VectorClock N) (ns : List N)
      → some_less c d ns ≡ false
      → (n : N) → contains ns n ≡ true
      → get d n ≤ get c n
  unfolding contains
  some_less-false c d [] h n i = absurd (ground arith)
  some_less-false c d (m ∷ ns) h n i = elim (Bool-cases (o.equal n m)) [
    | inl same ↦ let e = o.eq_of_equal n m same in rw e (ground arith)
    | inr other ↦ some_less-false c d ns (ground arith) n (ground arith)
  ]

  -- What an answer says of the counts of the two clocks, an absent node's being 0.
  abbrev pub Means : CausalityOrder → VectorClock N → VectorClock N → Type ℓ
  Means before c d = ((n : N) → get c n ≤ get d n) × (n : N) × (get c n < get d n)
  Means after c d = ((n : N) → get d n ≤ get c n) × (n : N) × (get d n < get c n)
  Means equal c d = (n : N) → get c n ≡ get d n
  Means concurrent c d = ((n : N) × (get c n < get d n)) × (n : N) × (get d n < get c n)

  absent_zero :
      (c d : VectorClock N) (n : N)
      → contains (add_nodes (add_nodes [] c) d) n ≡ false
      → (get c n ≡ 0) × (get d n ≡ 0)
  absent_zero c d n h = (
    add_nodes-new [] c n (ground (arith, add_nodes-keep (add_nodes [] c) d n)),
    add_nodes-new (add_nodes [] c) d n h,
  )

  none_less :
      (c d : VectorClock N) (ns : List N)
      → ((n : N) → contains ns n ≡ false → get d n ≡ 0)
      → some_less c d ns ≡ false
      → (n : N) → get d n ≤ get c n
  none_less c d ns z h n = elim (Bool-cases (contains ns n)) [
    | inl there ↦ some_less-false c d ns h n there
    | inr not_there ↦ omega (arith, z n not_there)
  ]

  -- Whichever answer `compare` gives, it is what holds: BEFORE and AFTER exactly when one clock is at
  -- most the other at each node and less at some node, EQUAL when they agree at each node, CONCURRENT
  -- when each is less at some node.
  pub compare_lem : (c d : VectorClock N) → Means (compare c d) c d
  unfolding compare
  compare_lem c d =
      let ns = add_nodes (add_nodes [] c) d in
      let at_most_c = none_less c d ns (λ n h. (absent_zero c d n h).1) in
      let at_most_d = none_less d c ns (λ n h. (absent_zero c d n h).0) in
      elim (Bool-cases (some_less d c ns)) [
        | inl p ↦ elim (Bool-cases (some_less c d ns)) [
          | inl q ↦
              rw (compare_nodes_lem c d ns false false, p, q)
                (some_less-true c d ns q, (some_less-true d c ns p).0, (some_less-true d c ns p).1)
          | inr q ↦
              rw (compare_nodes_lem c d ns false false, p, q)
                (at_most_c q, (some_less-true d c ns p).0, (some_less-true d c ns p).1)
        ]
        | inr p ↦ elim (Bool-cases (some_less c d ns)) [
          | inl q ↦
              rw (compare_nodes_lem c d ns false false, p, q)
                (at_most_d p, (some_less-true c d ns q).0, (some_less-true c d ns q).1)
          | inr q ↦
              rw (compare_nodes_lem c d ns false false, p, q)
                (λ n. omega (arith, at_most_c q n, at_most_d p n))
        ]
      ]

  after_lem :
      (c d : VectorClock N) (k : CausalityOrder) (n : N)
      → Means k c d
      → ((m : N) → get d m ≤ get c m)
      → get d n < get c n
      → k ≡ after
  after_lem c d before n h le lt = absurd (omega (arith, h.0 n))
  after_lem c d after n h le lt = refl
  after_lem c d equal n h le lt = absurd (omega (arith, h n))
  after_lem c d concurrent n h le lt = absurd (omega (arith, le h.0.0, h.0.1))

  get-tick :
      (c : VectorClock N) (n : N)
      → get c n + 1 < 2 ^ 64
      → (m : N) → get (tick c n) m ≡ (if o.equal m n then get c n + 1 else get c m)
  unfolding tick
  get-tick c n lt m = rw (get-assign c n ((get c n + 1) % 2 ^ 64) m, mod-eq_of_lt lt) refl

  -- `tick` adds one to the count of its node and leaves the other counts, and the new clock is AFTER
  -- the old one, while the count is below 2^64 - 1.
  pub tick_lem :
      (c : VectorClock N) (n : N)
      → get c n + 1 < 2 ^ 64
      → ((m : N) → get (tick c n) m ≡ (if o.equal m n then get c n + 1 else get c m))
        × (compare (tick c n) c ≡ after)
  tick_lem c n lt = (
    get-tick c n lt,
    after_lem (tick c n) c (compare (tick c n) c) n (compare_lem (tick c n) c)
        (λ m. grind (arith, get-tick c n lt m, o.eq_of_equal m n))
        (grind (arith, get-tick c n lt n, o.equal_refl n)),
  )
