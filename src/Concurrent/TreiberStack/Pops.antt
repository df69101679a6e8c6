-- ===== src/Concurrent/TreiberStack/Pops.antt =====
-- What taking the top node off does to the values of the stack, and freeing one that is gone.
use awesome_dsa.Prelude.{
  ℕ, true, false, Option, none, some, List, ◌==◌, arith, ◌≡◌, ◌≢◌, inl, inr, refl, sym, ◌∙◌, ap,
  Bool-cases,
}
use awesome_dsa.Concurrent.TreiberStack.{
  Node, Local, idle, pushing, popping, swapping, Stack, set_at, holds, end_pop, free_node,
}
use awesome_dsa.Concurrent.TreiberStack.Places.{
  Role, unused, stacked, gone, Shared, set_at-other, Absent, uses, Agree, Held, Chain, Chain-off,
  outside, Held-off,
}
use awesome_dsa.Concurrent.TreiberStack.Pushes.{Holds, moved}

Shared-gone : (role : ℕ → Role) (o b : ℕ) → Shared (role b) → Shared (set_at role o gone b)
Shared-gone role o b sh = elim (Bool-cases (b == o)) [ inl same ↦ rw same tt | inr ne ↦ rw ne sh ]

module _ {ℓ} {V : Type ℓ} where
  -- The node on top is taken off.
  Held-gone :
      (role : ℕ → Role) (heap : ℕ → Option (Node V)) (o u : ℕ) (l : Local)
      → role o ≡ stacked
      → Held role heap u l
      → Held (set_at role o gone) heap u l
  Held-gone role heap o u idle st h = tt
  Held-gone role heap o u (pushing b) st (mine, cell) = elim (Bool-cases (b == o)) [
    | inl same ↦ let e : b ≡ o = ground arith in let e' = ap role e in absurd (cc (e', st, mine))
    | inr ne ↦ (set_at-other role o gone b ne ∙ mine, cell)
  ]
  Held-gone role heap o u (popping b) st (sh, cell) = (Shared-gone role o b sh, cell)
  Held-gone role heap o u (swapping b n) st (sh, cell) = (Shared-gone role o b sh, cell)

  pub end_pop_lem :
      (role : ℕ → Role) (s : Stack V) (t o : ℕ) (x : V) (n : Option ℕ) (bs : List ℕ) (xs : List V)
      (cs : List ℕ) (ys : List V)
      → role o ≡ stacked
      → s.heap o ≡ some (record { value = x; next = n })
      → Absent o bs
      → Chain role s.heap n bs xs
      → Holds role cs ys s
      → Holds (set_at role o gone) bs xs (end_pop t o n s)
  end_pop_lem role s t o x n bs xs cs ys st cell out rest h =
      let agree_role : Agree o role (set_at role o gone) = set_at-other role o gone in
      record {
        chain =
            Chain-off role (set_at role o gone) s.heap s.heap o n bs xs agree_role (λ b ne. refl)
              out rest;
        held =
            moved (set_at role o gone) s.heap s.threads t idle tt
              (λ u ne. Held-gone role s.heap o u (s.threads u) st (h.held u));
        fresh = λ b e. elim (Bool-cases (b == o)) [
          | inl same ↦ let e' : b ≡ o = ground arith in absurd (cc (e, e', cell))
          | inr ne ↦ agree_role b ne ∙ h.fresh b e
        ];
        away = λ b e. elim (Bool-cases (b == o)) [
          | inl same ↦ rw same refl
          | inr ne ↦ agree_role b ne ∙ h.away b (sym (set_at-other s.retired o true b ne) ∙ e)
        ];
      }

  -- A node that is gone and that no thread holds in `pop` is used by no thread.
  uses-gone :
      (role : ℕ → Role) (heap : ℕ → Option (Node V)) (a t : ℕ) (l : Local)
      → role a ≡ gone
      → holds l a ≡ false
      → Held role heap t l
      → uses l a ≡ false
  uses-gone role heap a t idle g free h = refl
  uses-gone role heap a t (pushing b) g free (mine, cell) = elim (Bool-cases (b == a)) [
    | inl same ↦ let e : b ≡ a = ground arith in let e' = ap role e in absurd (cc (e', g, mine))
    | inr ne ↦ ne
  ]
  uses-gone role heap a t (popping b) g free h = free
  uses-gone role heap a t (swapping b n) g free h = free

  pub free_node_lem :
      (role : ℕ → Role) (bs : List ℕ) (xs : List V) (s : Stack V) (a : ℕ)
      → s.retired a ≡ true
      → ((t : ℕ) → holds (s.threads t) a ≡ false)
      → Holds role bs xs s
      → Holds (set_at role a unused) bs xs (free_node a s)
  free_node_lem role bs xs s a dead free h =
      let g = h.away a dead in
      let agree_role : Agree a role (set_at role a unused) = set_at-other role a unused in
      let agree_heap : Agree a s.heap (set_at s.heap a none) = set_at-other s.heap a none in
      let not_stacked : role a ≢ stacked = λ e. absurd (cc (e, g)) in
      record {
        chain =
            Chain-off role (set_at role a unused) s.heap (set_at s.heap a none) a s.head bs xs
              agree_role agree_heap (outside role s.heap a s.head bs xs not_stacked h.chain)
              h.chain;
        held = λ u.
            Held-off role (set_at role a unused) s.heap (set_at s.heap a none) a u (s.threads u)
              agree_role agree_heap (uses-gone role s.heap a u (s.threads u) g (free u) (h.held u))
              (h.held u);
        fresh = λ b e. elim (Bool-cases (b == a)) [
          | inl same ↦ rw same refl
          | inr ne ↦ agree_role b ne ∙ h.fresh b (sym (agree_heap b ne) ∙ e)
        ];
        away = λ b e. elim (Bool-cases (b == a)) [
          | inl same ↦ let e' : false ≡ true = rw same at e in absurd (cc (e'))
          | inr ne ↦ agree_role b ne ∙ h.away b (sym (set_at-other s.retired a false b ne) ∙ e)
        ];
      }
