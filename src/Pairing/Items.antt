-- ===== src/Pairing/Items.antt =====
-- The items of a pairing heap, each as often, under the operations.
use awesome_dsa.Prelude.{ℕ, ◌+◌, List, [], ◌∷◌, ◌++◌, arith, ◌≡◌, refl, ◌∙◌, Bool-cases, inl, inr}
use awesome_dsa.Prelude.Ascending.{Each, Each-append}
use awesome_dsa.Prelude.Tally.{tally, tally-append}
use awesome_dsa.Prelude.Priority.{Priority}
use awesome_dsa.Pairing.{Node, null, node, meld_nodes, pair_siblings, accumulate, two_pass_merge}
use awesome_dsa.Pairing.Laws.{
  All, weight, weights, IsHeap, IsRoot, Good, pair_siblings-Good, accumulate-Good,
}

module _ {ℓ} {T : Type ℓ} where
  -- the values, in the order of a walk
  abbrev pub items : Node T → List T
  items null = []
  items (node v c s) = v ∷ (items c ++ items s)

  pub tally-items : (f : T → ℕ) (t : Node T) → tally f (items t) ≡ weight f t
  tally-items f null = refl
  tally-items f (node v c s) =
      omega (arith, tally-append f (items c) (items s), tally-items f c, tally-items f s)

  pub Each-items {μ} : (P : T → Type μ) (t : Node T) → All P t → Each P (items t)
  Each-items P null a = tt
  Each-items P (node v c s) a =
      (a.0, Each-append P (items c) (items s) (Each-items P c a.1) (Each-items P s a.2))

  -- nothing, said of every value
  abbrev Any : T → Type 0
  Any _ = Unit

  All-Any : (t : Node T) → All Any t
  All-Any null = tt
  All-Any (node v c s) = (tt, All-Any c, All-Any s)

module _ {ℓ} {T : Type ℓ} ⦃p : Priority T⦄ where
  -- The siblings of the node that loses would be cut off: it must have none.
  pub weight-meld_nodes :
      (f : T → ℕ) (a b : Node T)
      → IsRoot a
      → IsRoot b
      → weight f (meld_nodes a b) ≡ weight f a + weight f b
  unfolding meld_nodes
  weight-meld_nodes f null b ra rb = omega arith
  weight-meld_nodes f (node av ac an) null ra rb = omega arith
  weight-meld_nodes f (node av ac an) (node bv bc bn) ra rb = elim (Bool-cases (p.comp bv av)) [
    | inl first ↦ rw (first, ra) (omega arith)
    | inr le ↦ rw (le, rb) (omega arith)
  ]

  weights-pair_siblings : (f : T → ℕ) (t : Node T) → weights f (pair_siblings t) ≡ weight f t
  unfolding pair_siblings
  weights-pair_siblings f null = refl
  weights-pair_siblings f (node av ac null) = omega arith
  weights-pair_siblings f (node av ac (node bv bc next)) = omega (
    arith,
    weights-pair_siblings f next,
    weight-meld_nodes f (node av ac null) (node bv bc null) refl refl,
  )

  weight-accumulate :
      (f : T → ℕ) (ts : List (Node T))
      → Each (Good Any) ts
      → weight f (accumulate ts) ≡ weights f ts
  unfolding accumulate
  weight-accumulate f [] g = refl
  weight-accumulate f (a ∷ []) g = omega arith
  weight-accumulate f (a ∷ b ∷ rest) g = omega (
    arith,
    weight-accumulate f (b ∷ rest) g.1,
    weight-meld_nodes f a (accumulate (b ∷ rest)) g.0.1 (accumulate-Good Any (b ∷ rest) g.1).1,
  )

  pub weight-two_pass_merge :
      (f : T → ℕ) (t : Node T) → IsHeap t → weight f (two_pass_merge t) ≡ weight f t
  unfolding two_pass_merge
  weight-two_pass_merge f null h = refl
  weight-two_pass_merge f (node v c null) h = refl
  weight-two_pass_merge f (node v c (node w d s)) h =
      let t = node v c (node w d s) in
      weight-accumulate f (pair_siblings t) (pair_siblings-Good Any t h (All-Any t))
      ∙ weights-pair_siblings f t
