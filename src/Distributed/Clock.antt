-- ===== src/Distributed/Clock.antt =====
-- Class VectorClock. The map `clock_` is an association list; its order, which the code leaves to the
-- hash table, is the order in which the keys were first written.
pub mod Laws
pub mod Compare
use awesome_dsa.Prelude.{
  ℕ, ◌+◌, ◌%◌, ◌^◌, Bool, true, false, ◌||◌, ◌&&◌, Option, none, some, List, [], ◌∷◌, max, ltb,
  if◌then◌else◌,
}
use awesome_dsa.Prelude.Order.{Order}

-- `enum class CausalityOrder`
pub data CausalityOrder : Type 0 where
  before after equal concurrent : CausalityOrder

abbrev pub VectorClock {ℓ} : Type ℓ → Type ℓ
VectorClock N = List (N × ℕ)

module _ {ℓ} {N : Type ℓ} ⦃o : Order N⦄ where
  -- `clock_.find(node_id)`
  unfoldable pub find : VectorClock N → N → Option ℕ
  find [] n = none
  find (kv ∷ c) n = if o.equal n kv.0 then some kv.1 else find c n

  unfoldable pub get : VectorClock N → N → ℕ
  unfolding find
  get c n = elim (find c n) [ none ↦ 0 | some v ↦ v ]

  -- `clock_[node_id] = v`
  unfoldable pub assign : VectorClock N → N → ℕ → VectorClock N
  assign [] n v = (n, v) ∷ []
  assign (kv ∷ c) n v =
      let rest = assign c n v in if o.equal n kv.0 then (kv.0, v) ∷ c else kv ∷ rest

  -- `clock_[node_id]++` on a `uint64_t`
  unfoldable pub tick : VectorClock N → N → VectorClock N
  unfolding assign get
  tick c n = assign c n ((get c n + 1) % 2 ^ 64)

  unfoldable pub merge : VectorClock N → VectorClock N → VectorClock N
  unfolding assign get
  merge c [] = c
  merge c (kv ∷ other) = merge (assign c kv.0 (max (get c kv.0) kv.1)) other

  -- `all_nodes.insert(node)`
  unfoldable pub contains : List N → N → Bool
  contains [] n = false
  contains (m ∷ ns) n = o.equal n m || contains ns n

  unfoldable pub add_nodes : List N → VectorClock N → List N
  unfolding contains
  add_nodes ns [] = ns
  add_nodes ns (kv ∷ c) = add_nodes (if contains ns kv.0 then ns else kv.0 ∷ ns) c

  -- The loop over `all_nodes`, with the two flags.
  unfoldable pub compare_nodes : VectorClock N → VectorClock N → List N → Bool → Bool → Bool × Bool
  unfolding get
  compare_nodes c d [] this_greater other_greater = (this_greater, other_greater)
  compare_nodes c d (n ∷ ns) this_greater other_greater =
      let v1 = get c n in
      let v2 = get d n in
      compare_nodes c d ns (if ltb v2 v1 then true else this_greater)
        (if ltb v1 v2 then true else other_greater)

  unfoldable pub compare : VectorClock N → VectorClock N → CausalityOrder
  unfolding compare_nodes add_nodes
  compare c d =
      let (this_greater, other_greater) =
        compare_nodes c d (add_nodes (add_nodes [] c) d) false false in
      if this_greater && other_greater
      then concurrent
      else if this_greater
      then after
      else if other_greater
      then before
      else equal
