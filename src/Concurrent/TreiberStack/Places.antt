-- ===== src/Concurrent/TreiberStack/Places.antt =====
-- What the threads of a Treiber stack know of its nodes.
use awesome_dsa.Prelude.{
  ℕ, Bool, true, false, Option, none, some, List, [], ◌∷◌, ◌==◌, arith, ◌≡◌, ◌≢◌, inl, inr, refl,
  sym, ◌∙◌, ap, Bool-cases,
}
use awesome_dsa.Concurrent.TreiberStack.{Node, Local, idle, pushing, popping, swapping, set_at}

-- What an address is used for: for nothing, for a node that only the thread that pushes it knows, for
-- a node of the stack, for one that has been taken off it.
pub data Role : Type 0 where
  unused : Role
  owned : ℕ → Role
  stacked gone : Role

abbrev pub Shared : Role → Type 0
Shared unused = ⊥
Shared (owned t) = ⊥
Shared stacked = Unit
Shared gone = Unit

pub set_at-same {ℓ} : {A : Type ℓ} (f : ℕ → A) (i : ℕ) (x : A) → set_at f i x i ≡ x
set_at-same f i x = let same : (i == i) ≡ true = ground arith in rw same refl

pub set_at-other {ℓ} :
    {A : Type ℓ} (f : ℕ → A) (i : ℕ) (x : A) (j : ℕ) → (j == i) ≡ false → set_at f i x j ≡ f j
set_at-other f i x j ne = rw ne refl

abbrev pub Absent : ℕ → List ℕ → Type 0
Absent a [] = Unit
Absent a (b ∷ bs) = ((b == a) ≡ false) × Absent a bs

-- The empty type at each level.
pub data Never {ℓ} : Type ℓ where

abbrev pub IsNull {ℓ} : Option ℕ → Type ℓ
IsNull none = Unit
IsNull (some a) = Never

-- A thread at the place `l` refers to the node `a`.
abbrev pub uses : Local → ℕ → Bool
uses idle a = false
uses (pushing b) a = b == a
uses (popping b) a = b == a
uses (swapping b n) a = b == a

-- Two functions that differ at most at `a`.
abbrev pub Agree {ℓ} : {A : Type ℓ} → ℕ → (ℕ → A) → (ℕ → A) → Type ℓ
Agree a f g = (b : ℕ) → (b == a) ≡ false → g b ≡ f b

module _ {ℓ} {V : Type ℓ} where
  -- What the place of the thread `t` says of the node that it holds.
  abbrev pub Held : (ℕ → Role) → (ℕ → Option (Node V)) → ℕ → Local → Type ℓ
  Held role heap t idle = Unit
  Held role heap t (pushing a) = (role a ≡ owned t) × ((k : Node V) × (heap a ≡ some k))
  Held role heap t (popping o) = Shared (role o) × ((k : Node V) × (heap o ≡ some k))
  Held role heap t (swapping o n) =
      Shared (role o) × ((x : V) × (heap o ≡ some (record { value = x; next = n })))

  -- The nodes from `h` on are at the addresses `bs`, with the values `xs`.
  abbrev pub Chain : (ℕ → Role) → (ℕ → Option (Node V)) → Option ℕ → List ℕ → List V → Type ℓ
  Chain role heap h [] [] = IsNull h
  Chain role heap h [] (x ∷ xs) = Never
  Chain role heap h (a ∷ bs) [] = Never
  Chain role heap h (a ∷ bs) (x ∷ xs) =
      (h ≡ some a)
      × (role a ≡ stacked)
      × Absent a bs
      × ((n : Option ℕ) × (heap a ≡ some (record { value = x; next = n }))
          × Chain role heap n bs xs)

  pub Chain-off :
      (role role' : ℕ → Role) (heap heap' : ℕ → Option (Node V)) (a : ℕ) (h : Option ℕ)
      (bs : List ℕ) (xs : List V)
      → Agree a role role'
      → Agree a heap heap'
      → Absent a bs
      → Chain role heap h bs xs
      → Chain role' heap' h bs xs
  Chain-off role role' heap heap' a h [] [] r p ab ch = ch
  Chain-off role role' heap heap' a h [] (x ∷ xs) r p ab ch = elim ch [ ]
  Chain-off role role' heap heap' a h (b ∷ bs) [] r p ab ch = elim ch [ ]
  Chain-off role role' heap heap' a h (b ∷ bs) (x ∷ xs) r p (ne, ab)
        (e, st, once, (n, cell, rest)) =
      (
        e,
        r b ne ∙ st,
        once,
        (n, p b ne ∙ cell, Chain-off role role' heap heap' a n bs xs r p ab rest),
      )

  -- An address that is not on the stack is not in the chain.
  pub outside :
      (role : ℕ → Role) (heap : ℕ → Option (Node V)) (a : ℕ) (h : Option ℕ) (bs : List ℕ)
      (xs : List V)
      → role a ≢ stacked
      → Chain role heap h bs xs
      → Absent a bs
  outside role heap a h [] xs no_role ch = tt
  outside role heap a h (b ∷ bs) [] no_role ch = elim ch [ ]
  outside role heap a h (b ∷ bs) (x ∷ xs) no_role (e, st, once, (n, cell, rest)) = (
    elim (Bool-cases (b == a)) [
      | inl same ↦ let e' : b ≡ a = ground arith in absurd (no_role (ap role (sym e') ∙ st))
      | inr ne ↦ ne
    ],
    outside role heap a n bs xs no_role rest,
  )

  -- A thread that does not refer to `a` keeps what it holds when `a` changes.
  pub Held-off :
      (role role' : ℕ → Role) (heap heap' : ℕ → Option (Node V)) (a t : ℕ) (l : Local)
      → Agree a role role'
      → Agree a heap heap'
      → uses l a ≡ false
      → Held role heap t l
      → Held role' heap' t l
  Held-off role role' heap heap' a t idle r p no_use h = tt
  Held-off role role' heap heap' a t (pushing b) r p no_use (mine, (k, cell)) =
      (r b no_use ∙ mine, (k, p b no_use ∙ cell))
  Held-off role role' heap heap' a t (popping b) r p no_use (sh, (k, cell)) =
      (rw (r b no_use) sh, (k, p b no_use ∙ cell))
  Held-off role role' heap heap' a t (swapping b n) r p no_use (sh, (k, cell)) =
      (rw (r b no_use) sh, (k, p b no_use ∙ cell))

  -- No thread but the owner refers to a node that is not shared.
  pub uses-private :
      (role : ℕ → Role) (heap : ℕ → Option (Node V)) (a t : ℕ) (l : Local)
      → role a ≢ owned t
      → (Shared (role a) → ⊥)
      → Held role heap t l
      → uses l a ≡ false
  uses-private role heap a t idle other hidden h = refl
  uses-private role heap a t (pushing b) other hidden (mine, cell) = elim (Bool-cases (b == a)) [
    | inl same ↦ let e : b ≡ a = ground arith in absurd (other (ap role (sym e) ∙ mine))
    | inr ne ↦ ne
  ]
  uses-private role heap a t (popping b) other hidden (sh, cell) = elim (Bool-cases (b == a)) [
    | inl same ↦ let e : b ≡ a = ground arith in absurd (hidden (rw e at sh))
    | inr ne ↦ ne
  ]
  uses-private role heap a t (swapping b n) other hidden (sh, cell) = elim (Bool-cases (b == a)) [
    | inl same ↦ let e : b ≡ a = ground arith in absurd (hidden (rw e at sh))
    | inr ne ↦ ne
  ]
