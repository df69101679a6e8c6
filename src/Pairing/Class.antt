-- ===== src/Pairing/Class.antt =====
-- The public methods of PairingHeap on a valid heap: a priority queue.
use mathlib.Core.Option
use awesome_dsa.Prelude.{
  ℕ, zero, suc, ◌≤◌, true, false, Option, none, some, List, [], ◌∷◌, ◌++◌, arith, ◌≡◌, refl, sym,
  ◌∙◌, ap, Bool-cases, inl, inr,
}
use awesome_dsa.Prelude.Ascending.{Each}
use awesome_dsa.Prelude.Outcome.{Never, Outcome, returns, throws, faults, underflow_error}
use awesome_dsa.Prelude.Tally.{tally, SameItems, tally-append, tally_none, Each-of_tally, one_if}
use awesome_dsa.Prelude.Priority.{Priority, ◌≼◌, InOrder}
use awesome_dsa.Pairing.{
  Node, null, node, PairingHeap, meld_nodes, two_pass_merge, new_heap, push, pop, meld, top, empty,
  drain,
}
use awesome_dsa.Pairing.Laws.{weight, IsHeap, IsRoot, meld_nodes-IsHeap, two_pass_merge-Good}
use awesome_dsa.Pairing.Items.{
  items, tally-items, Each-items, weight-meld_nodes, weight-two_pass_merge,
}

module _ {ℓ} {T : Type ℓ} where
  pub contents : PairingHeap T → List T
  contents h = items h.root

module _ {ℓ} {T : Type ℓ} ⦃p : Priority T⦄ where
  -- Heap order, a root with no sibling, and the size the number of values.
  pub record IsValid (h : PairingHeap T) : Type ℓ where
    pub heap : IsHeap h.root
    pub single : IsRoot h.root
    pub counted : h.size ≡ weight (λ _. 1) h.root

  pub new_heap-IsValid : IsValid new_heap
  unfolding new_heap
  new_heap-IsValid = record { heap = tt; single = tt; counted = refl }

  -- `push` keeps a heap valid and adds the value to its contents.
  pub push_lem :
      (v : T) (h : PairingHeap T)
      → IsValid h
      → IsValid (push v h) × SameItems (contents (push v h)) (v ∷ contents h)
  unfolding push contents
  push_lem v h s =
      let m = meld_nodes-IsHeap h.root (node v null null) s.single refl s.heap (tt, tt, tt) in
      let w = λ (f : T → ℕ). weight-meld_nodes f h.root (node v null null) s.single refl in
      (
        record { heap = m.0; single = m.1; counted = omega (arith, w (λ _. 1), s.counted) },
        λ f. omega (
          arith,
          w f,
          tally-items f h.root,
          tally-items f (meld_nodes h.root (node v null null)),
        ),
      )

  empty-new : (t : Node T) (n : ℕ) → n ≡ 0 → empty (record { root = t; size = n }) ≡ true
  unfolding empty
  empty-new t n e = rw e

  -- what `pop` promises of its result
  abbrev pub Popped : PairingHeap T → Outcome (T × PairingHeap T) → Type ℓ
  Popped h (returns (v, h')) =
      IsValid h'
      × SameItems (v ∷ contents h') (contents h)
      × Each (λ x. v ≼ x) (contents h')
      × (top h ≡ returns v)
  Popped h (throws e) = (contents h ≡ []) × (e ≡ underflow_error)
  Popped h faults = Never

  pop_root :
      (r : Node T) (n : ℕ)
      → IsValid (record { root = r; size = n })
      → Popped (record { root = r; size = n }) (pop (record { root = r; size = n }))
  unfolding pop contents top
  pop_root null n s = (refl, refl)
  pop_root (node v c b) n s =
      let g = two_pass_merge-Good (λ x. v ≼ x) c s.heap.1 s.heap.0 in
      let none_cut : (f : T → ℕ) → weight f b ≡ 0 = λ f. rw s.single in
      (
        record {
          heap = g.0;
          single = g.1;
          counted =
              omega
                (arith, s.counted, none_cut (λ _. 1), weight-two_pass_merge (λ _. 1) c s.heap.1);
        },
        λ f. omega (
          arith,
          none_cut f,
          weight-two_pass_merge f c s.heap.1,
          tally-items f (two_pass_merge c),
          tally-items f (node v c b),
        ),
        Each-items (λ x. v ≼ x) (two_pass_merge c) g.2,
        refl,
      )

  -- `pop` throws exactly on an empty heap; otherwise it takes out the value that `top` shows, before
  -- which none of the others comes, and leaves a valid heap of the others.
  pub pop_lem : (h : PairingHeap T) → IsValid h → Popped h (pop h)
  pop_lem h s = pop_root h.root h.size s

  empty-size : (h : PairingHeap T) → empty h ≡ true → h.size ≡ 0
  unfolding empty
  empty-size h e = ground arith

  none_left : (f : T → ℕ) (t : Node T) → t ≡ null → tally f (items t) ≡ 0
  none_left f t e = rw e

  weightless : (t : Node T) → weight (λ _. 1) t ≡ 0 → t ≡ null
  weightless null e = refl
  weightless (node v c b) e = absurd (omega arith)

  -- `meld` with another heap leaves a valid heap of the items of both, and the other one empty; with
  -- itself it changes nothing.
  pub meld_lem :
      (h other : PairingHeap T)
      → IsValid h
      → IsValid other
      → IsValid (meld false h other).0
        × SameItems (contents (meld false h other).0) (contents h ++ contents other)
        × (empty (meld false h other).1 ≡ true)
        × (meld true h h ≡ (h, h))
  unfolding meld contents
  meld_lem h other s t = elim (Bool-cases (empty other)) [
    | inl gone ↦
        let root : other.root ≡ null =
          weightless other.root (sym t.counted ∙ empty-size other gone) in
        rw gone (
          s,
          (λ f. omega (
            arith,
            tally-append f (items h.root) (items other.root),
            none_left f other.root root,
          )),
          gone,
          refl,
        )
    | inr some_left ↦
        let m = meld_nodes-IsHeap h.root other.root s.single t.single s.heap t.heap in
        let w = λ (f : T → ℕ). weight-meld_nodes f h.root other.root s.single t.single in
        rw some_left (
          record {
            heap = m.0;
            single = m.1;
            counted = omega (arith, w (λ _. 1), s.counted, t.counted);
          },
          (λ f. omega (
            arith,
            w f,
            tally-append f (items h.root) (items other.root),
            tally-items f h.root,
            tally-items f other.root,
            tally-items f (meld_nodes h.root other.root),
          )),
          empty-new null 0 refl,
          refl,
        )
  ]

  -- what a loop that pops until the heap is empty collects
  abbrev Drained : PairingHeap T → Option (List T) → Type ℓ
  Drained h r = (out : List T) × (r ≡ some out) × InOrder out × SameItems out (contents h)

  Drained-pop :
      (h : PairingHeap T) (fuel : ℕ)
      → IsValid h
      → h.size ≤ suc fuel
      → empty h ≡ false
      → ((h' : PairingHeap T) → IsValid h' → h'.size ≤ fuel → Drained h' (drain fuel h'))
      → (o : Outcome (T × PairingHeap T)) → Popped h o
      → Drained h (elim o [
        | throws e ↦ none
        | faults ↦ none
        | returns (v, h') ↦ Option.map (◌∷◌ v) (drain fuel h')
      ])
  unfolding contents empty
  Drained-pop h fuel s le ne ih (throws e) q =
      let gone : h.size ≡ 0 =
        omega (arith, s.counted, tally-items (λ _. 1) h.root, ap (tally (λ _. 1)) q.0) in
      absurd (ground (arith, gone, ne))
  Drained-pop h fuel s le ne ih faults q = elim q [ ]
  Drained-pop h fuel s le ne ih (returns (v, h')) q =
      let smaller : h'.size ≤ fuel = omega (
        arith,
        q.0.counted,
        s.counted,
        q.1 (λ _. 1),
        tally-items (λ _. 1) h'.root,
        tally-items (λ _. 1) h.root,
      ) in
      let (out, run, sorted, same) = ih h' q.0 smaller in
      let test = λ (x : T). p.comp x v in
      let weighs = tally_none test (contents h') q.2 in
      (
        v ∷ out,
        rw run,
        (Each-of_tally test out (same (λ x. one_if (test x)) ∙ weighs), sorted),
        λ f. omega (arith, same f, q.1 f),
      )

  nothing : (h : PairingHeap T) → IsValid h → empty h ≡ true → SameItems [] (contents h)
  unfolding contents
  nothing h s gone f =
      sym (none_left f h.root (weightless h.root (sym s.counted ∙ empty-size h gone)))

  -- With fuel for every value, popping until the heap is empty ends, and collects the contents in
  -- order of priority.
  pub drain_lem :
      (fuel : ℕ) (h : PairingHeap T)
      → IsValid h
      → h.size ≤ fuel
      → (out : List T) × (drain fuel h ≡ some out) × InOrder out × SameItems out (contents h)
  unfolding drain
  drain_lem zero h s le =
      let gone = empty-new h.root h.size (omega arith) in ([], rw gone, tt, nothing h s gone)
  drain_lem (suc fuel) h s le = elim (Bool-cases (empty h)) [
    | inl gone ↦ ([], rw gone, tt, nothing h s gone)
    | inr more ↦ rw more (Drained-pop h fuel s le more (drain_lem fuel) (pop h) (pop_lem h s))
  ]
