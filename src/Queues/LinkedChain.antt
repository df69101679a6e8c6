-- ===== src/Queues/LinkedChain.antt =====
-- The nodes of a LinkedQueue as a chain on its heap, and what writes to the heap leave of it.
use awesome_dsa.Prelude.{
  ℕ, ◌<◌, Option, none, some, List, [], ◌∷◌, ◌++◌, arith, ◌≡◌, ◌≢◌, refl, sym, ◌∙◌, ap, ==_iff,
}
use awesome_dsa.Prelude.Ascending.{Each, Each-append}
use awesome_dsa.Queues.LinkedQueue.{Node, LinkedQueue, update}

module _ {ℓ} {A : Type ℓ} where
  pub update_here : (m : ℕ → A) (a : ℕ) (v : A) → update m a v a ≡ v
  update_here m a v = rw ((==_iff a a).1 refl)

  pub update_there : (m : ℕ → A) (a b : ℕ) (v : A) → a ≢ b → update m a v b ≡ m b
  update_there m a b v ne = ground (arith, ==_iff a b)

module _ {ℓ} {T : Type ℓ} where
  -- From the pointer `p` the `next` pointers pass these addresses, with these values, to null.
  abbrev pub Chain : (ℕ → Option (Node T)) → Option ℕ → List (ℕ × T) → Type ℓ
  Chain m p [] = (p ≡ none) × Unit {ℓ}
  Chain m p ((a, v) ∷ r) =
      (n : Option ℕ) × (p ≡ some a) × (m a ≡ some (record { value = v; next = n })) × Chain m n r

  abbrev pub Apart : List (ℕ × T) → Type 0
  Apart [] = Unit
  Apart (x ∷ r) = Each (λ y. x.0 ≢ y.0) r × Apart r

  abbrev pub last_address : List (ℕ × T) → Option ℕ
  last_address [] = none
  last_address (x ∷ []) = some x.0
  last_address (x ∷ y ∷ r) = last_address (y ∷ r)

  abbrev pub Nodes : LinkedQueue T → List (ℕ × T) → Type ℓ
  Nodes q l =
      Chain q.cells q.head l × Apart l × Each (λ x. x.0 < q.fresh) l × (q.tail ≡ last_address l)

  -- A write outside the chain leaves it.
  pub Chain-update :
      (m : ℕ → Option (Node T)) (p : Option ℕ) (l : List (ℕ × T)) (a : ℕ) (c : Option (Node T))
      → Each (λ x. a ≢ x.0) l
      → Chain m p l
      → Chain (update m a c) p l
  Chain-update m p [] a c e h = h
  Chain-update m p ((b, v) ∷ r) a c e h =
      (h.0, h.1, update_there m a b c e.0 ∙ h.2, Chain-update m h.0 r a c e.1 h.3)

  -- What is read through the last address.
  pub last_cell :
      (m : ℕ → Option (Node T)) (p : Option ℕ) (x : ℕ × T) (r : List (ℕ × T)) (t : ℕ)
      → Chain m p (x ∷ r)
      → last_address (x ∷ r) ≡ some t
      → (v : T) × (m t ≡ some (record { value = v; next = none }))
  last_cell m p (a, v) [] t h e =
      (v, rw (some_eq e) at (h.2 ∙ ap (λ n. some (record { value = v; next = n })) h.3.0))
    where
      some_eq : some a ≡ some t → a ≡ t
      some_eq e = cc
  last_cell m p (a, v) (y ∷ r) t h e = last_cell m h.0 y r t h.3 e

  -- The last node of the chain is among its nodes.
  pub last-ne :
      (a t : ℕ) (x : ℕ × T) (r : List (ℕ × T))
      → Each (λ y. a ≢ y.0) (x ∷ r)
      → last_address (x ∷ r) ≡ some t
      → a ≢ t
  last-ne a t x [] e h = λ same. e.0 (ground (arith, same, h))
  last-ne a t x (y ∷ r) e h = last-ne a t y r e.1 h

  -- The chain with a node hung on its end.
  pub Chain-snoc :
      (m : ℕ → Option (Node T)) (p : Option ℕ) (x : ℕ × T) (r : List (ℕ × T)) (t b : ℕ) (w v : T)
      → Chain m p (x ∷ r)
      → Apart (x ∷ r)
      → last_address (x ∷ r) ≡ some t
      → m t ≡ some (record { value = w; next = none })
      → m b ≡ some (record { value = v; next = none })
      → t ≢ b
      → Chain (update m t (some (record { value = w; next = some b }))) p ((x ∷ r) ++ (b, v) ∷ [])
  Chain-snoc m p (a, u) [] t b w v h apart e last new ne = (
    some b,
    h.1,
    ground (arith, e, last, h.2),
    (none, refl, update_there m t b _ ne ∙ new, (refl, tt)),
  )
  Chain-snoc m p (a, u) (y ∷ r) t b w v h apart e last new ne = (
    h.0,
    h.1,
    update_there m t a _ (λ q. last-ne a t y r apart.0 e (sym q)) ∙ h.2,
    Chain-snoc m h.0 y r t b w v h.3 apart.1 e last new ne,
  )

  pub Each-snoc_address :
      (l : List (ℕ × T)) (b : ℕ) (v : T)
      → Each (λ x. x.0 < b) l
      → Apart l
      → Apart (l ++ (b, v) ∷ []) × (last_address (l ++ (b, v) ∷ []) ≡ some b)
  Each-snoc_address [] b v e a = ((tt, tt), refl)
  Each-snoc_address (x ∷ []) b v e a = (((omega arith, tt), (tt, tt)), refl)
  Each-snoc_address (x ∷ y ∷ r) b v e a =
      let rest = Each-snoc_address (y ∷ r) b v e.1 a.1 in
      ((Each-append (λ z. x.0 ≢ z.0) (y ∷ r) ((b, v) ∷ []) a.0 (omega arith, tt), rest.0), rest.1)
