-- ===== src/Queues/CircularQueue.antt =====
-- Class CircularQueue: a vector of fixed size whose two indices go round it.
use native.Mathlib.Nat.{mod-eq_of_lt}
use awesome_dsa.Prelude.{
  ℕ, zero, suc, ◌+◌, ◌-◌, ◌%◌, ◌≤◌, ◌<◌, Bool, true, false, none, some, List, [], ◌∷◌, ◌++◌, length,
  length-append, get_elem?, set, length-set, get_elem?-set_self, get_elem?-set_ne,
  get_elem?-snoc_old, get_elem?-snoc_new, replicate, length-replicate, arith, ◌≡◌, refl, sym, ◌∙◌,
  ◌==◌, ltb, if◌then◌else◌, inl, inr, dec_lt, ◌⊎◌,
}
use awesome_dsa.Prelude.Outcome.{
  Outcome, returns, throws, faults, underflow_error, overflow_error, invalid_argument,
}

pub record CircularQueue {ℓ} (T : Type ℓ) : Type ℓ where
  pub buffer : List T
  pub head : ℕ
  pub tail : ℕ
  pub size : ℕ

module _ {ℓ} {T : Type ℓ} where
  -- The constructor; `d` is the value `T()` that the vector is filled with.
  unfoldable pub new_queue : T → ℕ → Outcome (CircularQueue T)
  new_queue d capacity =
      if capacity == 0
      then throws invalid_argument
      else returns (record { buffer = replicate capacity d; head = 0; tail = 0; size = 0 })

  unfoldable pub capacity : CircularQueue T → ℕ
  capacity q = length q.buffer

  unfoldable pub empty : CircularQueue T → Bool
  empty q = q.size == 0

  unfoldable pub full : CircularQueue T → Bool
  full q = q.size == length q.buffer

  unfoldable pub push : T → CircularQueue T → Outcome (CircularQueue T)
  unfolding full
  push value q =
      if full q
      then throws overflow_error
      else returns (record q {
        buffer = set q.buffer q.tail value;
        tail = (q.tail + 1) % length q.buffer;
        size = q.size + 1;
      })

  unfoldable pub pop : CircularQueue T → Outcome (CircularQueue T)
  unfolding empty
  pop q =
      if empty q
      then throws underflow_error
      else returns (record q { head = (q.head + 1) % length q.buffer; size = q.size - 1 })

  unfoldable pub front : CircularQueue T → Outcome T
  unfolding empty
  front q =
      if empty q
      then throws underflow_error
      else elim (get_elem? q.buffer q.head) [ none ↦ faults | some v ↦ returns v ]

-- the index `i` places after `h`
abbrev pub slot : ℕ → ℕ → ℕ → ℕ
slot cap h i = if ltb (h + i) cap then h + i else h + i - cap

next_slot : (cap h : ℕ) → h < cap → (h + 1) % cap ≡ slot cap h 1
next_slot cap h lt = grind (arith, mod-eq_of_lt)

module _ {ℓ} {T : Type ℓ} where
  -- The queue holds `xs`, the oldest first: the place `i` after the head has the element `i`.
  pub record Holds (q : CircularQueue T) (xs : List T) : Type ℓ where
    pub inside : q.head < length q.buffer
    pub counted : q.size ≡ length xs
    pub fits : length xs ≤ length q.buffer
    pub ends : q.tail ≡ slot (length q.buffer) q.head (length xs)
    pub placed :
        (i : ℕ)
        → i < length xs
        → get_elem? q.buffer (slot (length q.buffer) q.head i) ≡ get_elem? xs i

  -- A push to a queue with room: the slot written is none of those in use.
  push-Holds :
      (v : T) (q : CircularQueue T) (xs : List T)
      → Holds q xs
      → length xs < length q.buffer
      → Holds
          (record q {
            buffer = set q.buffer q.tail v;
            tail = (q.tail + 1) % length q.buffer;
            size = q.size + 1;
          })
          (xs ++ v ∷ [])
  push-Holds v q xs h room =
      let cap = length q.buffer in
      let same = length-set q.buffer q.tail v in
      let more = length-append xs (v ∷ []) in
      let inside_tail : q.tail < cap = ground (arith, h.ends, h.inside) in
      record {
        inside = omega (arith, same, h.inside);
        counted = omega (arith, more, h.counted);
        fits = omega (arith, more, same);
        ends =
            rw same (rw more (ground (arith, next_slot cap q.tail inside_tail, h.ends, h.inside)));
        placed = λ i lt. rw same (elim (dec_lt i (length xs)) [
          | yes old ↦
              get_elem?-set_ne q.buffer v (λ e. ground (arith, e, h.ends, h.inside))
              ∙ (h.placed i old ∙ sym (get_elem?-snoc_old xs v i old))
          | no new ↦
              let e : i ≡ length xs = omega (arith, more) in
              rw (e, ← h.ends)
                (get_elem?-set_self q.buffer q.tail v inside_tail ∙ sym (get_elem?-snoc_new xs v))
        ]);
      }

  pop-Holds :
      (q : CircularQueue T) (x : T) (xs : List T)
      → Holds q (x ∷ xs)
      → Holds (record q { head = (q.head + 1) % length q.buffer; size = q.size - 1 }) xs
  pop-Holds q x xs h =
      let cap = length q.buffer in
      let step = next_slot cap q.head h.inside in
      rw step (record {
        inside = ground (arith, h.inside);
        counted = omega (arith, h.counted);
        fits = omega (arith, h.fits);
        ends = ground (arith, h.ends, h.inside, h.fits);
        placed = λ i lt.
            let e : slot cap (slot cap q.head 1) i ≡ slot cap q.head (suc i) =
              ground (arith, h.inside, h.fits) in
            rw e (h.placed (suc i) (omega arith));
      })

  -- what a bounded queue that holds `xs` does
  abbrev pub Pushed : T → List T → ℕ → Outcome (CircularQueue T) → Type ℓ
  Pushed v xs cap o =
      ((length xs ≡ cap) × (o ≡ throws overflow_error))
      ⊎ ((length xs < cap) × ((q : CircularQueue T) × (o ≡ returns q) × Holds q (xs ++ v ∷ [])))

  abbrev pub Popped : List T → Outcome (CircularQueue T) → Type ℓ
  Popped [] o = o ≡ throws underflow_error
  Popped (x ∷ xs) o = (q : CircularQueue T) × (o ≡ returns q) × Holds q xs

  abbrev pub first : List T → Outcome T
  first [] = throws underflow_error
  first (x ∷ xs) = returns x

  not_full : (q : CircularQueue T) (n : ℕ) → q.size ≡ n → n < length q.buffer → full q ≡ false
  unfolding full
  not_full q n e lt = ground arith

  is_full : (q : CircularQueue T) (n : ℕ) → q.size ≡ n → n ≡ length q.buffer → full q ≡ true
  unfolding full
  is_full q n e same = ground arith

  not_empty : (q : CircularQueue T) (n : ℕ) → q.size ≡ suc n → empty q ≡ false
  unfolding empty
  not_empty q n e = ground arith

  is_empty : (q : CircularQueue T) → q.size ≡ 0 → empty q ≡ true
  unfolding empty
  is_empty q e = ground arith

  -- `push` throws exactly on a full queue and otherwise adds the value at the end.
  pub push_refines :
      (v : T) (q : CircularQueue T) (xs : List T) → Holds q xs → Pushed v xs (capacity q) (push v q)
  unfolding push capacity
  push_refines v q xs h = elim (dec_lt (length xs) (length q.buffer)) [
    | yes room ↦ inr (
      room,
      (
        record q {
          buffer = set q.buffer q.tail v;
          tail = (q.tail + 1) % length q.buffer;
          size = q.size + 1;
        },
        rw (not_full q (length xs) h.counted room),
        push-Holds v q xs h room,
      ),
    )
    | no none_left ↦
        let at_end : length xs ≡ length q.buffer = omega (arith, h.fits) in
        inl (at_end, rw (is_full q (length xs) h.counted at_end))
  ]

  -- `pop` takes off the oldest value, which `front` shows; both throw exactly on an empty queue.
  pub pop-front_refines :
      (q : CircularQueue T) (xs : List T) → Holds q xs → Popped xs (pop q) × (front q ≡ first xs)
  unfolding pop front
  pop-front_refines q [] h = (rw (is_empty q h.counted), rw (is_empty q h.counted))
  pop-front_refines q (x ∷ xs) h =
      let some_left = not_empty q (length xs) h.counted in
      let here : slot (length q.buffer) q.head 0 ≡ q.head = ground (arith, h.inside) in
      let head : get_elem? q.buffer q.head ≡ some x = rw here at (h.placed 0 (omega arith)) in
      (
        (
          record q { head = (q.head + 1) % length q.buffer; size = q.size - 1 },
          rw some_left,
          pop-Holds q x xs h,
        ),
        rw (some_left, head),
      )

  -- The constructor throws exactly on capacity 0, and otherwise makes an empty queue of that capacity.
  pub new_queue_lem :
      (d : T) (n : ℕ)
      → ((n ≡ 0) × (new_queue d n ≡ throws invalid_argument))
        ⊎ ((q : CircularQueue T) × (new_queue d n ≡ returns q) × (capacity q ≡ n) × Holds q [])
  unfolding new_queue capacity
  new_queue_lem d zero = inl (refl, refl)
  new_queue_lem d (suc n) = inr (
    record { buffer = replicate (suc n) d; head = 0; tail = 0; size = 0 },
    ground arith,
    length-replicate (suc n) d,
    record {
      inside = omega arith;
      counted = refl;
      fits = omega arith;
      ends = ground arith;
      placed = λ i lt. absurd (omega arith);
    },
  )
