-- ===== src/Queues/LinkedLaws.antt =====
-- LinkedQueue refines a list: the nodes from `head_` on, the last of them at `tail_`.
use awesome_dsa.Prelude.{
  ℕ, suc, ◌+◌, ◌-◌, ◌<◌, Option, none, some, List, [], ◌∷◌, ◌++◌, length, length-append, arith, ◌≡◌,
  ◌≢◌, refl, sym, ◌∙◌, ap,
}
use awesome_dsa.Prelude.Ascending.{Each-append, Each-imp}
use awesome_dsa.Prelude.Outcome.{Outcome, returns, throws, underflow_error}
use awesome_dsa.Queues.LinkedQueue.{
  Node, LinkedQueue, update, new_queue, set_next, push, pop, front,
}
use awesome_dsa.Queues.LinkedChain.{
  update_here, update_there, Chain, last_address, Nodes, Chain-update, last_cell, last-ne,
  Chain-snoc, Each-snoc_address,
}

module _ {ℓ} {T : Type ℓ} where
  -- the values of the nodes
  abbrev pub values : List (ℕ × T) → List T
  values [] = []
  values (x ∷ r) = x.1 ∷ values r

  -- The queue holds these values, the oldest first.
  pub record Holds (q : LinkedQueue T) (xs : List T) : Type ℓ where
    pub nodes : List (ℕ × T)
    pub linked : Nodes q nodes
    pub listed : values nodes ≡ xs
    pub counted : q.size ≡ length xs

  values-append : (l r : List (ℕ × T)) → values (l ++ r) ≡ values l ++ values r
  values-append [] r = refl
  values-append (x ∷ l) r = rw (values-append l r)

  abbrev pub Pushed : List T → Outcome (LinkedQueue T) → Type ℓ
  Pushed xs o = (q : LinkedQueue T) × (o ≡ returns q) × Holds q xs

  abbrev pub Popped : List T → Outcome (LinkedQueue T) → Type ℓ
  Popped [] o = o ≡ throws underflow_error
  Popped (x ∷ xs) o = Pushed xs o

  abbrev pub first : List T → Outcome T
  first [] = throws underflow_error
  first (x ∷ xs) = returns x

  last_some : (x : ℕ × T) (r : List (ℕ × T)) → (t : ℕ) × (last_address (x ∷ r) ≡ some t)
  last_some x [] = (x.0, refl)
  last_some x (y ∷ r) = last_some y r

  set_next_lem :
      (m : ℕ → Option (Node T)) (a : ℕ) (p : Option ℕ) (w : T) (n : Option ℕ)
      → m a ≡ some (record { value = w; next = n })
      → set_next m a p ≡ returns (update m a (some (record { value = w; next = p })))
  unfolding set_next
  set_next_lem m a p w n e = rw (e, set_next)

  push-Nodes :
      (v : T) (q : LinkedQueue T) (l : List (ℕ × T))
      → Nodes q l
      → (q' : LinkedQueue T) × (push v q ≡ returns q')
        × Nodes q' (l ++ (q.fresh, v) ∷ [])
        × (q'.size ≡ q.size + 1)
  unfolding push
  push-Nodes v q [] (chain, apart, below, ends) = (
    record {
      cells = update q.cells q.fresh (some (record { value = v; next = none }));
      fresh = suc q.fresh;
      head = some q.fresh;
      tail = some q.fresh;
      size = q.size + 1;
    },
    rw (ends, push),
    ((none, refl, update_here q.cells q.fresh _, (refl, tt)), (tt, tt), (omega arith, tt), refl),
    refl,
  )
  push-Nodes v q (x ∷ r) (chain, apart, below, ends) =
      let (t, e) = last_some x r in
      let b = q.fresh in
      let (w, cell) = last_cell q.cells q.head x r t chain e in
      let away = Each-imp (λ y h. λ same. absurd (omega (arith, h, same))) (x ∷ r) below in
      let ne : t ≢ b = λ same. last-ne b t x r away e (sym same) in
      let m = update q.cells b (some (record { value = v; next = none })) in
      let old : m t ≡ some (record { value = w; next = none }) =
        update_there q.cells b t _ (λ same. ne (sym same)) ∙ cell in
      let snoc = Each-snoc_address (x ∷ r) b v below apart in
      (
        record {
          cells = update m t (some (record { value = w; next = some b }));
          fresh = suc b;
          head = q.head;
          tail = some b;
          size = q.size + 1;
        },
        rw (ends ∙ e, push) (rw (set_next_lem m t (some b) w none old)),
        (
          Chain-snoc m q.head x r t b w v (Chain-update q.cells q.head (x ∷ r) b _ away chain) apart
              e old (update_here q.cells b _) ne,
          snoc.0,
          Each-append (λ y. y.0 < suc b) (x ∷ r) ((b, v) ∷ [])
              (Each-imp (λ y h. omega (arith, h)) (x ∷ r) below) (omega arith, tt),
          sym snoc.1,
        ),
        refl,
      )

  tail_after :
      (m : ℕ → Option (Node T)) (n tail : Option ℕ) (x : ℕ × T) (r : List (ℕ × T))
      → Chain m n r
      → tail ≡ last_address (x ∷ r)
      → elim n [ none ↦ none | some _ ↦ tail ] ≡ last_address r
  tail_after m n tail x [] h e = rw h.0
  tail_after m n tail x (y ∷ r) h e = rw h.1 e

  pop-Nodes :
      (q : LinkedQueue T) (a : ℕ) (v : T) (r : List (ℕ × T))
      → Nodes q ((a, v) ∷ r)
      → (q' : LinkedQueue T) × (pop q ≡ returns q')
        × Nodes q' r
        × (q'.size ≡ q.size - 1)
        × (front q ≡ returns v)
  unfolding pop front
  pop-Nodes q a v r (chain, apart, below, ends) = (
    record q {
      cells = update q.cells a none;
      head = chain.0;
      tail = elim chain.0 [ none ↦ none | some _ ↦ q.tail ];
      size = q.size - 1;
    },
    rw (chain.1, pop) (rw chain.2),
    (
      Chain-update q.cells chain.0 r a none apart.0 chain.3,
      apart.1,
      below.1,
      tail_after q.cells chain.0 q.tail (a, v) r chain.3 ends,
    ),
    refl,
    rw (chain.1, front) (rw chain.2),
  )

  head_of : {a b : T} {xs ys : List T} → a ∷ xs ≡ b ∷ ys → a ≡ b
  head_of e = cc

  tail_of : {a b : T} {xs ys : List T} → a ∷ xs ≡ b ∷ ys → xs ≡ ys
  tail_of e = cc

  pop_part :
      (q : LinkedQueue T) (l : List (ℕ × T)) (xs : List T)
      → Nodes q l
      → values l ≡ xs
      → q.size ≡ length xs
      → Popped xs (pop q) × (front q ≡ first xs)
  unfolding pop front
  pop_part q [] [] n e c = (rw (n.0.0, pop), rw (n.0.0, front))
  pop_part q [] (x ∷ xs) n e c = absurd (cc)
  pop_part q (y ∷ l) [] n e c = absurd (cc)
  pop_part q ((a, v) ∷ l) (x ∷ xs) n e c =
      let (q', run, nodes, size, shown) = pop-Nodes q a v l n in
      (
        (
          q',
          run,
          record {
            nodes = l;
            linked = nodes;
            listed = tail_of e;
            counted = omega (arith, size, c);
          },
        ),
        shown ∙ ap returns (head_of e),
      )

  -- A linked queue behaves like a list, the oldest first: `push` never fails and adds at the end, and
  -- `pop` takes off the first, which `front` shows; both throw exactly when there is none, and no call
  -- follows a null or a dangling pointer.
  pub queue_refines :
      (v : T) (q : LinkedQueue T) (xs : List T)
      → Holds q xs
      → Pushed (xs ++ v ∷ []) (push v q) × Popped xs (pop q) × (front q ≡ first xs)
  queue_refines v q xs h =
      let (q', run, nodes, size) = push-Nodes v q h.nodes h.linked in
      let rest = pop_part q h.nodes xs h.linked h.listed h.counted in
      (
        (
          q',
          run,
          record {
            nodes = h.nodes ++ (q.fresh, v) ∷ [];
            linked = nodes;
            listed =
                values-append h.nodes ((q.fresh, v) ∷ [])
                ∙ ap (λ (z : List T). z ++ v ∷ []) h.listed;
            counted = omega (arith, size, h.counted, length-append xs (v ∷ []));
          },
        ),
        rest.0,
        rest.1,
      )

  pub new_queue-Holds : Holds new_queue []
  unfolding new_queue
  new_queue-Holds = record {
    nodes = [];
    linked = ((refl, tt), tt, tt, refl);
    listed = refl;
    counted = refl;
  }
