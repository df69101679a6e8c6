-- ===== src/Pairing/Laws.antt =====
-- The heap order, and the items, under the operations of PairingHeap.
use awesome_dsa.Prelude.{ℕ, ◌+◌, List, [], ◌∷◌, ◌≡◌, refl, Bool-cases, inl, inr}
use awesome_dsa.Prelude.Ascending.{Each}
use awesome_dsa.Prelude.Priority.{Priority, ◌≼◌}
use awesome_dsa.Pairing.{Node, null, node, meld_nodes, pair_siblings, accumulate, two_pass_merge}

module _ {ℓ} {T : Type ℓ} where
  -- every value of a node, its children and its siblings satisfies `P`
  abbrev pub All {μ} : (T → Type μ) → Node T → Type μ
  All P null = Unit
  All P (node v c s) = P v × All P c × All P s

  pub All-imp {μ ν} :
      {P : T → Type μ} {Q : T → Type ν} → ((a : T) → P a → Q a) → (t : Node T) → All P t → All Q t
  All-imp f null a = tt
  All-imp f (node v c s) a = (f v a.0, All-imp f c a.1, All-imp f s a.2)

  -- the weight of a node, its children and its siblings
  abbrev pub weight : (T → ℕ) → Node T → ℕ
  weight f null = 0
  weight f (node v c s) = f v + weight f c + weight f s

  abbrev pub weights : (T → ℕ) → List (Node T) → ℕ
  weights f [] = 0
  weights f (t ∷ ts) = weight f t + weights f ts

module _ {ℓ} {T : Type ℓ} ⦃p : Priority T⦄ where
  -- No value comes before that of the node above it.
  abbrev pub IsHeap : Node T → Type 0
  IsHeap null = Unit
  IsHeap (node v c s) = All (λ x. v ≼ x) c × IsHeap c × IsHeap s

  -- The nodes that the operations meld have no siblings.
  abbrev pub IsRoot : Node T → Type ℓ
  IsRoot null = Unit
  IsRoot (node v c s) = s ≡ null

  pub meld_nodes-IsHeap :
      (a b : Node T)
      → IsRoot a
      → IsRoot b
      → IsHeap a
      → IsHeap b
      → IsHeap (meld_nodes a b) × IsRoot (meld_nodes a b)
  unfolding meld_nodes
  meld_nodes-IsHeap null b ra rb ha hb = (hb, rb)
  meld_nodes-IsHeap (node av ac an) null ra rb ha hb = (ha, ra)
  meld_nodes-IsHeap (node av ac an) (node bv bc bn) ra rb ha hb = elim (Bool-cases (p.comp bv av)) [
    | inl first ↦
        let le = p.comp_asymm bv av first in
        rw (first) (
          (
            (le, All-imp (λ x q. p.comp_cotrans bv av x le q) ac ha.0, hb.0),
            (ha.0, ha.1, hb.1),
            hb.2,
          ),
          rb,
        )
    | inr le ↦ rw (le) (
      ((le, All-imp (λ x q. p.comp_cotrans av bv x le q) bc hb.0, ha.0), (hb.0, hb.1, ha.1), ha.2),
      ra,
    )
  ]

  All-meld_nodes {μ} : (P : T → Type μ) (a b : Node T) → All P a → All P b → All P (meld_nodes a b)
  unfolding meld_nodes
  All-meld_nodes P null b x y = y
  All-meld_nodes P (node av ac an) null x y = x
  All-meld_nodes P (node av ac an) (node bv bc bn) x y = elim (Bool-cases (p.comp bv av)) [
    | inl first ↦ rw first (y.0, (x.0, x.1, y.1), y.2)
    | inr le ↦ rw le (x.0, (y.0, y.1, x.1), x.2)
  ]

  -- What is known of each pair: a heap with no sibling, whose values satisfy `P`.
  abbrev pub Good {μ} : (T → Type μ) → Node T → Type (ℓ ⊔ μ)
  Good P t = IsHeap t × IsRoot t × All P t

  Good-meld_nodes {μ} :
      (P : T → Type μ) (a b : Node T) → Good P a → Good P b → Good P (meld_nodes a b)
  Good-meld_nodes P a b x y =
      let h = meld_nodes-IsHeap a b x.1 y.1 x.0 y.0 in (h.0, h.1, All-meld_nodes P a b x.2 y.2)

  pub pair_siblings-Good {μ} :
      (P : T → Type μ) (t : Node T) → IsHeap t → All P t → Each (Good P) (pair_siblings t)
  unfolding pair_siblings
  pair_siblings-Good P null h a = tt
  pair_siblings-Good P (node av ac null) h a = ((h, refl, a), tt)
  pair_siblings-Good P (node av ac (node bv bc next)) h a = (
    Good-meld_nodes P (node av ac null) (node bv bc null) ((h.0, h.1, tt), refl, (a.0, a.1, tt))
        ((h.2.0, h.2.1, tt), refl, (a.2.0, a.2.1, tt)),
    pair_siblings-Good P next h.2.2 a.2.2,
  )

  pub accumulate-Good {μ} :
      (P : T → Type μ) (ts : List (Node T)) → Each (Good P) ts → Good P (accumulate ts)
  unfolding accumulate
  accumulate-Good P [] g = (tt, tt, tt)
  accumulate-Good P (a ∷ []) g = g.0
  accumulate-Good P (a ∷ b ∷ rest) g =
      Good-meld_nodes P a (accumulate (b ∷ rest)) g.0 (accumulate-Good P (b ∷ rest) g.1)

  pub two_pass_merge-Good {μ} :
      (P : T → Type μ) (t : Node T) → IsHeap t → All P t → Good P (two_pass_merge t)
  unfolding two_pass_merge
  two_pass_merge-Good P null h a = (tt, tt, tt)
  two_pass_merge-Good P (node v c null) h a = (h, refl, a)
  two_pass_merge-Good P (node v c (node w d s)) h a =
      accumulate-Good P (pair_siblings (node v c (node w d s)))
        (pair_siblings-Good P (node v c (node w d s)) h a)
