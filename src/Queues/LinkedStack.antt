-- ===== src/Queues/LinkedStack.antt =====
-- Class LinkedStack. Each node is reached by one pointer only, so the nodes from `head_` are a list.
use awesome_dsa.Prelude.{
  ℕ, ◌+◌, ◌-◌, Bool, true, false, List, [], ◌∷◌, length, arith, ◌≡◌, refl, ◌==◌,
}
use awesome_dsa.Prelude.Outcome.{Outcome, returns, throws, underflow_error}

-- `struct Node`: value and next, null being `null`.
pub data Node {ℓ} (T : Type ℓ) : Type ℓ where
  null : Node T
  node : T → Node T → Node T

pub record LinkedStack {ℓ} (T : Type ℓ) : Type ℓ where
  pub head : Node T
  pub size : ℕ

module _ {ℓ} {T : Type ℓ} where
  unfoldable pub new_stack : LinkedStack T
  new_stack = record { head = null; size = 0 }

  unfoldable pub is_null : Node T → Bool
  is_null null = true
  is_null (node v n) = false

  unfoldable pub empty : LinkedStack T → Bool
  unfolding is_null
  empty s = is_null s.head

  -- The loop of `clear` ends at null.
  unfoldable pub free_nodes : Node T → Node T
  free_nodes null = null
  free_nodes (node v n) = free_nodes n

  unfoldable pub clear : LinkedStack T → LinkedStack T
  unfolding free_nodes
  clear s = record { head = free_nodes s.head; size = 0 }

  unfoldable pub push : T → LinkedStack T → LinkedStack T
  push value s = record { head = node value s.head; size = s.size + 1 }

  -- `--size_` runs only on a stack that has a node.
  unfoldable pub pop : LinkedStack T → Outcome (LinkedStack T)
  pop s = elim s.head [
    | null ↦ throws underflow_error
    | node v n ↦ returns (record { head = n; size = s.size - 1 })
  ]

  unfoldable pub top : LinkedStack T → Outcome T
  top s = elim s.head [ null ↦ throws underflow_error | node v n ↦ returns v ]

  -- the values, the top first
  abbrev pub values : Node T → List T
  values null = []
  values (node v n) = v ∷ values n

  -- the stack holds these values
  pub record Holds (s : LinkedStack T) (xs : List T) : Type ℓ where
    pub listed : values s.head ≡ xs
    pub counted : s.size ≡ length xs

  free_nodes-null : (n : Node T) → free_nodes n ≡ null
  unfolding free_nodes
  free_nodes-null null = refl
  free_nodes-null (node v n) = free_nodes-null n

  abbrev pub Popped : List T → Outcome (LinkedStack T) → Type ℓ
  Popped [] o = o ≡ throws underflow_error
  Popped (x ∷ xs) o = (s : LinkedStack T) × (o ≡ returns s) × Holds s xs

  abbrev pub first : List T → Outcome T
  first [] = throws underflow_error
  first (x ∷ xs) = returns x

  pop_head :
      (h : Node T) (n : ℕ) (xs : List T)
      → Holds (record { head = h; size = n }) xs
      → Popped xs (pop (record { head = h; size = n }))
        × (top (record { head = h; size = n }) ≡ first xs)
        × (empty (record { head = h; size = n }) ≡ (n == 0))
  unfolding pop top empty
  pop_head null n [] s = (refl, refl, rw s.counted)
  pop_head null n (x ∷ xs) s = absurd (nil_cons s.listed)
    where
      nil_cons : [] ≡ x ∷ xs → ⊥
      nil_cons e = cc
  pop_head (node v t) n [] s = absurd (cons_nil s.listed)
    where
      cons_nil : v ∷ values t ≡ [] → ⊥
      cons_nil e = cc
  pop_head (node v t) n (x ∷ xs) s = (
    (
      record { head = t; size = n - 1 },
      refl,
      record { listed = ground (arith, s.listed); counted = omega (arith, s.counted) },
    ),
    ground (arith, s.listed),
    ground (arith, s.counted),
  )

  -- A linked stack behaves like a list with the top first: `push` adds in front, `pop` takes the
  -- first off and `top` shows it, both throwing exactly when there is none, `empty` agrees with the
  -- size, and `clear` leaves nothing.
  pub stack_refines :
      (v : T) (s : LinkedStack T) (xs : List T)
      → Holds s xs
      → Holds (push v s) (v ∷ xs)
        × Popped xs (pop s)
        × (top s ≡ first xs)
        × (empty s ≡ (s.size == 0))
        × Holds (clear s) []
  unfolding push clear
  stack_refines v s xs h =
      let p = pop_head s.head s.size xs h in
      (
        record { listed = rw h.listed; counted = omega (arith, h.counted) },
        p.0,
        p.1,
        p.2,
        record { listed = rw (free_nodes-null s.head); counted = refl },
      )
