-- ===== src/Concurrent/TreiberStack.antt =====
-- Class TreiberStack, as the steps that its threads take in any order. A step has one access of the
-- shared `head_`, which an access of a node goes with; null is `none`. The reclaimer is the step
-- `reclaims`: it frees a retired node that no thread holds which is inside `pop`, so pinned.
pub mod Places
pub mod Pushes
pub mod Pops
pub mod Linear
use awesome_dsa.Prelude.{
  ℕ, Bool, true, false, Option, none, some, List, [], ◌∷◌, ◌++◌, ◌==◌, ◌≡◌, if◌then◌else◌,
}

pub record Node {ℓ} (V : Type ℓ) : Type ℓ where
  pub value : V
  pub next : Option ℕ

-- Where a thread stands: outside, in the loop of `push` with `new_node`, in the loop of `pop` with
-- `old_head`, or there with `next` as well.
pub data Local : Type 0 where
  idle : Local
  pushing : ℕ → Local
  popping : ℕ → Local
  swapping : ℕ → Option ℕ → Local

pub record Stack {ℓ} (V : Type ℓ) : Type ℓ where
  pub heap : ℕ → Option (Node V)
  pub head : Option ℕ
  pub retired : ℕ → Bool
  pub threads : ℕ → Local

-- What a call does to the stack, at the step where it does it.
pub data Event {ℓ} (V : Type ℓ) : Type ℓ where
  pushed : V → Event V
  popped : Option V → Event V

abbrev pub set_at {ℓ} : {A : Type ℓ} → (ℕ → A) → ℕ → A → ℕ → A
set_at f i x j = if j == i then x else f j

abbrev pub holds : Local → ℕ → Bool
holds idle a = false
holds (pushing b) a = false
holds (popping b) a = b == a
holds (swapping b n) a = b == a

module _ {ℓ} {V : Type ℓ} where
  abbrev pub new_stack : Stack V
  new_stack = record { heap = λ a. none; head = none; retired = λ a. false; threads = λ t. idle }

  -- `new_node` at the fresh address `a`, and the first load of `head_`.
  abbrev pub begin_push : ℕ → ℕ → V → Stack V → Stack V
  begin_push t a v s = record s {
    heap = set_at s.heap a (some (record { value = v; next = s.head }));
    threads = set_at s.threads t (pushing a);
  }

  -- The exchange of `push` succeeds.
  abbrev pub end_push : ℕ → ℕ → Stack V → Stack V
  end_push t a s = record s { head = some a; threads = set_at s.threads t idle }

  -- It fails and loads `head_` into `new_node->next`.
  abbrev pub retry_push : ℕ → ℕ → V → Stack V → Stack V
  retry_push t a v s = record s {
    heap = set_at s.heap a (some (record { value = v; next = s.head }));
    threads = set_at s.threads t (pushing a);
  }

  -- `pop` has loaded `o`.
  abbrev pub load_head : ℕ → ℕ → Stack V → Stack V
  load_head t o s = record s { threads = set_at s.threads t (popping o) }

  abbrev pub load_next : ℕ → ℕ → Option ℕ → Stack V → Stack V
  load_next t o n s = record s { threads = set_at s.threads t (swapping o n) }

  -- The exchange of `pop` succeeds, and `old_head` is retired.
  abbrev pub end_pop : ℕ → ℕ → Option ℕ → Stack V → Stack V
  end_pop t o n s = record s {
    head = n;
    retired = set_at s.retired o true;
    threads = set_at s.threads t idle;
  }

  -- `pop` has loaded null.
  abbrev pub leave_pop : ℕ → Stack V → Stack V
  leave_pop t s = record s { threads = set_at s.threads t idle }

  abbrev pub free_node : ℕ → Stack V → Stack V
  free_node a s = record s { heap = set_at s.heap a none; retired = set_at s.retired a false }

  pub data Step : Stack V → List (Event V) → Stack V → Type ℓ where
    push_begins :
        (s : Stack V) (t a : ℕ) (v : V)
        → s.threads t ≡ idle
        → s.heap a ≡ none
        → Step s [] (begin_push t a v s)
    push_swings :
        (s : Stack V) (t a : ℕ) (v : V)
        → s.threads t ≡ pushing a
        → s.heap a ≡ some (record { value = v; next = s.head })
        → Step s (pushed v ∷ []) (end_push t a s)
    push_fails :
        (s : Stack V) (t a : ℕ) (v : V) (n : Option ℕ)
        → s.threads t ≡ pushing a
        → s.heap a ≡ some (record { value = v; next = n })
        → Step s [] (retry_push t a v s)
    pop_begins :
        (s : Stack V) (t o : ℕ) → s.threads t ≡ idle → s.head ≡ some o → Step s [] (load_head t o s)
    pop_begins_empty :
        (s : Stack V) (t : ℕ)
        → s.threads t ≡ idle
        → s.head ≡ none
        → Step s (popped none ∷ []) (leave_pop t s)
    pop_reads :
        (s : Stack V) (t o : ℕ) (v : V) (n : Option ℕ)
        → s.threads t ≡ popping o
        → s.heap o ≡ some (record { value = v; next = n })
        → Step s [] (load_next t o n s)
    pop_swings :
        (s : Stack V) (t o : ℕ) (v : V) (n m : Option ℕ)
        → s.threads t ≡ swapping o n
        → s.head ≡ some o
        → s.heap o ≡ some (record { value = v; next = m })
        → Step s (popped (some v) ∷ []) (end_pop t o n s)
    pop_fails :
        (s : Stack V) (t o p : ℕ) (n : Option ℕ)
        → s.threads t ≡ swapping o n
        → s.head ≡ some p
        → Step s [] (load_head t p s)
    pop_fails_empty :
        (s : Stack V) (t o : ℕ) (n : Option ℕ)
        → s.threads t ≡ swapping o n
        → s.head ≡ none
        → Step s (popped none ∷ []) (leave_pop t s)
    reclaims :
        (s : Stack V) (a : ℕ)
        → s.retired a ≡ true
        → ((t : ℕ) → holds (s.threads t) a ≡ false)
        → Step s [] (free_node a s)

  -- A run, with its events in their order.
  pub data Run : Stack V → List (Event V) → Stack V → Type ℓ where
    stays : (s : Stack V) → Run s [] s
    steps :
        (s s' s'' : Stack V) (es es' : List (Event V))
        → Step s es s'
        → Run s' es' s''
        → Run s (es ++ es') s''
