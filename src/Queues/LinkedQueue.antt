-- ===== src/Queues/LinkedQueue.antt =====
-- Class LinkedQueue on an explicit heap: both `tail_` and the `next` of the node before it reach the
-- last node, and `push` writes through `tail_`.
use awesome_dsa.Prelude.{
  ℕ, zero, suc, ◌+◌, ◌-◌, Bool, true, false, Option, none, some, ◌==◌, if◌then◌else◌,
}
use awesome_dsa.Prelude.Outcome.{Outcome, returns, throws, faults, underflow_error, ◌>>=◌}

-- `struct Node`
pub record Node {ℓ} (T : Type ℓ) : Type ℓ where
  pub value : T
  pub next : Option ℕ

-- A null pointer is `none`. `cells` is the memory, `none` where no node is allocated, and `fresh` the
-- address that the next `new` returns.
pub record LinkedQueue {ℓ} (T : Type ℓ) : Type ℓ where
  pub cells : ℕ → Option (Node T)
  pub fresh : ℕ
  pub head : Option ℕ
  pub tail : Option ℕ
  pub size : ℕ

module _ {ℓ} {A : Type ℓ} where
  abbrev pub update : (ℕ → A) → ℕ → A → ℕ → A
  update m a v b = if a == b then v else m b

module _ {ℓ} {T : Type ℓ} where
  unfoldable pub new_queue : LinkedQueue T
  new_queue = record { cells = λ _. none; fresh = 0; head = none; tail = none; size = 0 }

  unfoldable pub empty : LinkedQueue T → Bool
  empty q = elim q.head [ none ↦ true | some a ↦ false ]

  -- `p->next = node`
  unfoldable pub set_next : (ℕ → Option (Node T)) → ℕ → Option ℕ → Outcome (ℕ → Option (Node T))
  set_next m a p = elim (m a) [
    | none ↦ faults
    | some n ↦ returns (update m a (some (record n { next = p })))
  ]

  unfoldable pub push : T → LinkedQueue T → Outcome (LinkedQueue T)
  unfolding set_next
  push v q =
      let node = q.fresh in
      let m = update q.cells node (some (record { value = v; next = none })) in
      elim q.tail [
        | none ↦ returns (record {
          cells = m;
          fresh = suc q.fresh;
          head = some node;
          tail = some node;
          size = q.size + 1;
        })
        | some t ↦ elim (set_next m t (some node)) [
          | returns m' ↦ returns (record {
            cells = m';
            fresh = suc q.fresh;
            head = q.head;
            tail = some node;
            size = q.size + 1;
          })
          | throws e ↦ throws e
          | faults ↦ faults
        ]
      ]

  -- After `head_ = head_->next` a null head makes the tail null too; then the old node is freed.
  unfoldable pub pop : LinkedQueue T → Outcome (LinkedQueue T)
  pop q = elim q.head [
    | none ↦ throws underflow_error
    | some old ↦ elim (q.cells old) [
      | none ↦ faults
      | some n ↦ returns (record q {
        cells = update q.cells old none;
        head = n.next;
        tail = elim n.next [ none ↦ none | some _ ↦ q.tail ];
        size = q.size - 1;
      })
    ]
  ]

  unfoldable pub front : LinkedQueue T → Outcome T
  front q = elim q.head [
    | none ↦ throws underflow_error
    | some a ↦ elim (q.cells a) [ none ↦ faults | some n ↦ returns n.value ]
  ]

  -- The loop of `clear`; no fuel is `none`.
  unfoldable pub free_nodes : ℕ → LinkedQueue T → Option (Outcome (LinkedQueue T))
  free_nodes zero q = elim q.head [ none ↦ some (returns q) | some old ↦ none ]
  free_nodes (suc n) q = elim q.head [
    | none ↦ some (returns q)
    | some old ↦ elim (q.cells old) [
      | none ↦ some faults
      | some node ↦ free_nodes n (record q { cells = update q.cells old none; head = node.next })
    ]
  ]

  unfoldable pub clear : ℕ → LinkedQueue T → Option (Outcome (LinkedQueue T))
  unfolding free_nodes
  clear n q = elim (free_nodes n q) [
    | none ↦ none
    | some freed ↦ some (freed >>= λ q'. returns (record q' { tail = none; size = 0 }))
  ]
