-- ===== src/Concurrent/TreiberStack/Pushes.antt =====
-- What the steps of `push` do to the values of the stack.
use awesome_dsa.Prelude.{
  ℕ, true, false, Option, none, some, List, [], ◌∷◌, ◌==◌, arith, ◌≡◌, ◌≢◌, inl, inr, refl, sym,
  ◌∙◌, ap, Bool-cases,
}
use awesome_dsa.Concurrent.TreiberStack.{
  Node, Local, idle, pushing, Stack, set_at, begin_push, end_push, retry_push,
}
use awesome_dsa.Concurrent.TreiberStack.Places.{
  Role, unused, owned, stacked, gone, set_at-same, set_at-other, Absent, Agree, Held, Chain,
  Chain-off, outside, Held-off, uses-private,
}

not_owner : (u t : ℕ) (k : Role) → (u == t) ≡ false → k ≡ owned t → k ≢ owned u
not_owner u t k ne e = λ e'. let same : t ≡ u = cc (e, e') in absurd (ground arith)

module _ {ℓ} {V : Type ℓ} where
  -- The stack holds the values `xs`, the first on top.
  pub record Holds (role : ℕ → Role) (bs : List ℕ) (xs : List V) (s : Stack V) : Type ℓ where
    pub chain : Chain role s.heap s.head bs xs
    pub held : (t : ℕ) → Held role s.heap t (s.threads t)
    pub fresh : (a : ℕ) → s.heap a ≡ none → role a ≡ unused
    pub away : (a : ℕ) → s.retired a ≡ true → role a ≡ gone

  -- The thread `t` moves to the place `l`.
  pub moved :
      (role : ℕ → Role) (heap : ℕ → Option (Node V)) (threads : ℕ → Local) (t : ℕ) (l : Local)
      → Held role heap t l
      → ((u : ℕ) → (u == t) ≡ false → Held role heap u (threads u))
      → (u : ℕ) → Held role heap u (set_at threads t l u)
  moved role heap threads t l mine others u = elim (Bool-cases (u == t)) [
    | inl same ↦ let e : u ≡ t = ground arith in rw (same, e) mine
    | inr other ↦ rw other (others u other)
  ]

  -- The node on top.
  pub top_node :
      (role : ℕ → Role) (heap : ℕ → Option (Node V)) (h : Option ℕ) (o : ℕ) (bs : List ℕ)
      (xs : List V)
      → h ≡ some o
      → Chain role heap h bs xs
      → (role o ≡ stacked)
        × ((x : V) × (n : Option ℕ) × (bs' : List ℕ) × (xs' : List V) × (xs ≡ x ∷ xs')
            × (heap o ≡ some (record { value = x; next = n }))
            × Absent o bs'
            × Chain role heap n bs' xs')
  top_node role heap none o [] [] e ch = absurd (cc (e))
  top_node role heap (some a) o [] [] e ch = elim ch [ ]
  top_node role heap h o [] (x ∷ xs) e ch = elim ch [ ]
  top_node role heap h o (b ∷ bs) [] e ch = elim ch [ ]
  top_node role heap h o (b ∷ bs) (x ∷ xs) e (at, st, once, (n, cell, rest)) =
      let same : b ≡ o = cc (e, at) in
      (rw same at st, (x, n, bs, xs, refl, rw same at cell, rw same at once, rest))

  pub values_of_null :
      (role : ℕ → Role) (heap : ℕ → Option (Node V)) (h : Option ℕ) (bs : List ℕ) (xs : List V)
      → h ≡ none
      → Chain role heap h bs xs
      → xs ≡ []
  values_of_null role heap h [] [] e ch = refl
  values_of_null role heap h [] (x ∷ xs) e ch = elim ch [ ]
  values_of_null role heap h (b ∷ bs) [] e ch = elim ch [ ]
  values_of_null role heap h (b ∷ bs) (x ∷ xs) e (at, st, once, rest) = absurd (cc (e, at))

  pub begin_push_lem :
      (role : ℕ → Role) (bs : List ℕ) (xs : List V) (s : Stack V) (t a : ℕ) (v : V)
      → s.heap a ≡ none
      → Holds role bs xs s
      → Holds (set_at role a (owned t)) bs xs (begin_push t a v s)
  begin_push_lem role bs xs s t a v empty h =
      let k : Node V = record { value = v; next = s.head } in
      let free = h.fresh a empty in
      let not_stacked : role a ≢ stacked = λ e. absurd (cc (e, free)) in
      let agree_role : Agree a role (set_at role a (owned t)) = set_at-other role a (owned t) in
      let agree_heap : Agree a s.heap (set_at s.heap a (some k)) = set_at-other s.heap a (some k) in
      record {
        chain =
            Chain-off role (set_at role a (owned t)) s.heap (set_at s.heap a (some k)) a s.head bs
              xs agree_role agree_heap (outside role s.heap a s.head bs xs not_stacked h.chain)
              h.chain;
        held =
            moved (set_at role a (owned t)) (set_at s.heap a (some k)) s.threads t (pushing a)
              (set_at-same role a (owned t), (k, set_at-same s.heap a (some k)))
              (λ u ne.
                Held-off role (set_at role a (owned t)) s.heap (set_at s.heap a (some k)) a u
                  (s.threads u) agree_role agree_heap
                  (uses-private role s.heap a u (s.threads u) (λ e. absurd (cc (e, free)))
                    (λ sh. rw free at sh) (h.held u))
                  (h.held u));
        fresh = λ b e. elim (Bool-cases (b == a)) [
          | inl same ↦ let e' : some k ≡ none = rw same at e in absurd (cc (e'))
          | inr ne ↦ agree_role b ne ∙ h.fresh b (sym (agree_heap b ne) ∙ e)
        ];
        away = λ b e. elim (Bool-cases (b == a)) [
          | inl same ↦
              let e' : b ≡ a = ground arith in
              let g : role a ≡ gone = ap role (sym e') ∙ h.away b e in absurd (cc (g, free))
          | inr ne ↦ agree_role b ne ∙ h.away b e
        ];
      }

  pub end_push_lem :
      (role : ℕ → Role) (bs : List ℕ) (xs : List V) (s : Stack V) (t a : ℕ) (v : V)
      → s.threads t ≡ pushing a
      → s.heap a ≡ some (record { value = v; next = s.head })
      → Holds role bs xs s
      → Holds (set_at role a stacked) (a ∷ bs) (v ∷ xs) (end_push t a s)
  end_push_lem role bs xs s t a v at cell h =
      let mine : role a ≡ owned t = (rw at at (h.held t)).0 in
      let agree_role : Agree a role (set_at role a stacked) = set_at-other role a stacked in
      let not_stacked : role a ≢ stacked = λ e. absurd (cc (e, mine)) in
      let out = outside role s.heap a s.head bs xs not_stacked h.chain in
      record {
        chain = (
          refl,
          set_at-same role a stacked,
          out,
          (
            s.head,
            cell,
            Chain-off role (set_at role a stacked) s.heap s.heap a s.head bs xs agree_role
                (λ b ne. refl) out h.chain,
          ),
        );
        held = moved (set_at role a stacked) s.heap s.threads t idle tt (λ u ne.
            Held-off role (set_at role a stacked) s.heap s.heap a u (s.threads u) agree_role
              (λ b ne'. refl)
              (uses-private role s.heap a u (s.threads u) (not_owner u t (role a) ne mine)
                (λ sh. rw mine at sh) (h.held u))
              (h.held u));
        fresh = λ b e. elim (Bool-cases (b == a)) [
          | inl same ↦ let e' : b ≡ a = ground arith in absurd (cc (e, e', cell))
          | inr ne ↦ agree_role b ne ∙ h.fresh b e
        ];
        away = λ b e. elim (Bool-cases (b == a)) [
          | inl same ↦
              let e' : b ≡ a = ground arith in
              let g : role a ≡ gone = ap role (sym e') ∙ h.away b e in absurd (cc (g, mine))
          | inr ne ↦ agree_role b ne ∙ h.away b e
        ];
      }

  pub retry_push_lem :
      (role : ℕ → Role) (bs : List ℕ) (xs : List V) (s : Stack V) (t a : ℕ) (v : V)
      → s.threads t ≡ pushing a
      → Holds role bs xs s
      → Holds role bs xs (retry_push t a v s)
  retry_push_lem role bs xs s t a v at h =
      let k : Node V = record { value = v; next = s.head } in
      let mine : role a ≡ owned t = (rw at at (h.held t)).0 in
      let agree_heap : Agree a s.heap (set_at s.heap a (some k)) = set_at-other s.heap a (some k) in
      let not_stacked : role a ≢ stacked = λ e. absurd (cc (e, mine)) in
      record {
        chain =
            Chain-off role role s.heap (set_at s.heap a (some k)) a s.head bs xs (λ b ne. refl)
              agree_heap (outside role s.heap a s.head bs xs not_stacked h.chain) h.chain;
        held =
            moved role (set_at s.heap a (some k)) s.threads t (pushing a)
              (mine, (k, set_at-same s.heap a (some k)))
              (λ u ne.
                Held-off role role s.heap (set_at s.heap a (some k)) a u (s.threads u)
                  (λ b ne'. refl) agree_heap
                  (uses-private role s.heap a u (s.threads u) (not_owner u t (role a) ne mine)
                    (λ sh. rw mine at sh) (h.held u))
                  (h.held u));
        fresh = λ b e. elim (Bool-cases (b == a)) [
          | inl same ↦ let e' : some k ≡ none = rw same at e in absurd (cc (e'))
          | inr ne ↦ h.fresh b (sym (agree_heap b ne) ∙ e)
        ];
        away = h.away;
      }

  -- The thread `t` moves, and neither the roles nor the nodes change.
  pub move_lem :
      (role : ℕ → Role) (bs : List ℕ) (xs : List V) (s : Stack V) (t : ℕ) (l : Local)
      → Held role s.heap t l
      → Holds role bs xs s
      → Holds role bs xs (record s { threads = set_at s.threads t l })
  move_lem role bs xs s t l mine h = record {
    chain = h.chain;
    held = moved role s.heap s.threads t l mine (λ u ne. h.held u);
    fresh = h.fresh;
    away = h.away;
  }
