-- ===== src/TextBuffers/GapBuffer/Cursor.antt =====
-- `move_cursor` keeps the text.
use mathlib.Core.List.{append_assoc, append-nil}
use awesome_dsa.Prelude.{
  ℕ, zero, suc, ◌+◌, ◌-◌, List, [], ◌∷◌, ◌++◌, length, length-append, arith, ◌≡◌, refl, sym, ◌∙◌,
  ap,
}
use awesome_dsa.Prelude.Cells.{read, write, read-append, write-append}
use awesome_dsa.Prelude.Outcome.{returns}
use awesome_dsa.TextBuffers.GapBuffer.{GapBuffer, shift_left, shift_right}
use awesome_dsa.TextBuffers.GapBuffer.Moves.{layout, Shows, of_fields}

pub snoc_view :
    (x : ℕ) (xs : List ℕ) → (i : List ℕ) × (y : ℕ) × (x ∷ xs ≡ i ++ y ∷ []) × (length i ≡ length xs)
snoc_view x [] = ([], x, refl, refl)
snoc_view x (y ∷ xs) =
    let (i, z, e, n) = snoc_view y xs in (x ∷ i, z, ap (◌∷◌ x) e, omega (arith, n))

shift_left_run :
    (n : ℕ) (b : GapBuffer) (v : ℕ) (buffer : List ℕ)
    → read b.buffer (b.gap_start - 1) ≡ returns v
    → write b.buffer (b.gap_end - 1) v ≡ returns buffer
    → shift_left (suc n) b
      ≡ shift_left n
          (record b { buffer = buffer; gap_start = b.gap_start - 1; gap_end = b.gap_end - 1 })
unfolding shift_left
shift_left_run n b v buffer p q = rw (shift_left, p, q) refl

shift_left_step :
    (n : ℕ) (l : List ℕ) (v : ℕ) (gap r : List ℕ)
    → (gap' : List ℕ) × (shift_left (suc n) (layout (l ++ v ∷ []) gap r)
        ≡ shift_left n (layout l gap' (v ∷ r)))
shift_left_step n l v [] r =
    let size = length-append l (v ∷ []) in
    let b = layout (l ++ v ∷ []) [] r in
    let whole : (l ++ v ∷ []) ++ r ≡ l ++ v ∷ r = append_assoc l (v ∷ []) r in
    (
      [],
      shift_left_run n b v (l ++ v ∷ r)
            (ap (λ k. read k (b.gap_start - 1)) whole
              ∙ read-append l v r (b.gap_start - 1) (omega (arith, size)))
            (ap (λ k. write k (b.gap_end - 1) v) whole
              ∙ write-append l v v r (b.gap_end - 1) (omega (arith, size)))
          ∙ ap (shift_left n) (
              of_fields (l ++ v ∷ r) (b.gap_start - 1) (b.gap_end - 1) b.capacity l [] (v ∷ r) refl
                (omega (arith, size)) (omega (arith, size)) (omega (arith, size))),
    )
shift_left_step n l v (x ∷ gap) r =
    let (i, y, e, m) = snoc_view x gap in
    let size = length-append l (v ∷ []) in
    let size' = length-append l (v ∷ i) in
    let b = layout (l ++ v ∷ []) (x ∷ gap) r in
    let one : b.buffer ≡ l ++ v ∷ ((x ∷ gap) ++ r) = append_assoc l (v ∷ []) ((x ∷ gap) ++ r) in
    let two : b.buffer ≡ (l ++ v ∷ i) ++ y ∷ r =
      one
      ∙ ap (λ k. l ++ v ∷ (k ++ r)) e
      ∙ ap (λ k. l ++ v ∷ k) (append_assoc i (y ∷ []) r)
      ∙ sym (append_assoc l (v ∷ i) (y ∷ r)) in
    (
      v ∷ i,
      shift_left_run n b v ((l ++ v ∷ i) ++ v ∷ r)
            (ap (λ k. read k (b.gap_start - 1)) one
              ∙ read-append l v ((x ∷ gap) ++ r) (b.gap_start - 1) (omega (arith, size)))
            (ap (λ k. write k (b.gap_end - 1) v) two
              ∙ write-append (l ++ v ∷ i) y v r (b.gap_end - 1) (omega (arith, size, size', m)))
          ∙ ap (shift_left n) (
              of_fields ((l ++ v ∷ i) ++ v ∷ r) (b.gap_start - 1) (b.gap_end - 1) b.capacity l
                (v ∷ i) (v ∷ r) (append_assoc l (v ∷ i) (v ∷ r)) (omega (arith, size))
                (omega (arith, size, m)) (omega (arith, size, m))),
    )

shift_right_run :
    (n : ℕ) (b : GapBuffer) (v : ℕ) (buffer : List ℕ)
    → read b.buffer b.gap_end ≡ returns v
    → write b.buffer b.gap_start v ≡ returns buffer
    → shift_right (suc n) b
      ≡ shift_right n
          (record b { buffer = buffer; gap_start = b.gap_start + 1; gap_end = b.gap_end + 1 })
unfolding shift_right
shift_right_run n b v buffer p q = rw (shift_right, p, q) refl

shift_right_step :
    (n : ℕ) (l : List ℕ) (v : ℕ) (gap r : List ℕ)
    → (gap' : List ℕ) × (shift_right (suc n) (layout l gap (v ∷ r))
        ≡ shift_right n (layout (l ++ v ∷ []) gap' r))
shift_right_step n l v [] r =
    let size = length-append l (v ∷ []) in
    let b = layout l [] (v ∷ r) in
    (
      [],
      shift_right_run n b v (l ++ v ∷ r) (read-append l v r b.gap_end (omega arith))
            (write-append l v v r b.gap_start refl)
          ∙ ap (shift_right n) (
              of_fields (l ++ v ∷ r) (b.gap_start + 1) (b.gap_end + 1) b.capacity (l ++ v ∷ []) [] r
                (sym (append_assoc l (v ∷ []) r)) (omega (arith, size)) (omega (arith, size))
                (omega (arith, size))),
    )
shift_right_step n l v (x ∷ gap) r =
    let size = length-append l (v ∷ []) in
    let size' = length-append gap (v ∷ []) in
    let b = layout l (x ∷ gap) (v ∷ r) in
    let whole : l ++ v ∷ (gap ++ v ∷ r) ≡ (l ++ v ∷ []) ++ ((gap ++ v ∷ []) ++ r) =
      simp append_assoc in
    (
      gap ++ v ∷ [],
      shift_right_run n b v (l ++ v ∷ (gap ++ v ∷ r))
            (ap (λ k. read k b.gap_end) (sym (append_assoc l (x ∷ gap) (v ∷ r)))
              ∙ read-append (l ++ x ∷ gap) v r b.gap_end (sym (length-append l (x ∷ gap))))
            (write-append l x v (gap ++ v ∷ r) b.gap_start refl)
          ∙ ap (shift_right n) (
              of_fields (l ++ v ∷ (gap ++ v ∷ r)) (b.gap_start + 1) (b.gap_end + 1) b.capacity
                (l ++ v ∷ []) (gap ++ v ∷ []) r whole (omega (arith, size))
                (omega (arith, size, size')) (omega (arith, size, size'))),
    )

pub shift_right_lem :
    (m l gap r : List ℕ)
    → (b : GapBuffer) × (shift_right (length m) (layout l gap (m ++ r)) ≡ returns b)
      × Shows (l ++ m) r b
unfolding shift_right
shift_right_lem [] l gap r =
    (layout l gap r, refl, (gap, ap (λ k. layout k gap r) (sym (append-nil l))))
shift_right_lem (v ∷ m) l gap r =
    let (gap', step) = shift_right_step (length m) l v gap (m ++ r) in
    let (b, run, shown) = shift_right_lem m (l ++ v ∷ []) gap' r in
    (b, step ∙ run, (shown.0, shown.1 ∙ ap (λ k. layout k shown.0 r) (append_assoc l (v ∷ []) m)))

pub shift_left_lem :
    (n : ℕ) (l m gap r : List ℕ)
    → length m ≡ n
    → (b : GapBuffer) × (shift_left n (layout (l ++ m) gap r) ≡ returns b) × Shows l (m ++ r) b
unfolding shift_left
shift_left_lem zero l [] gap r e =
    (layout (l ++ []) gap r, refl, (gap, ap (λ k. layout k gap r) (append-nil l)))
shift_left_lem zero l (x ∷ m) gap r e = absurd (omega arith)
shift_left_lem (suc n) l [] gap r e = absurd (omega arith)
shift_left_lem (suc n) l (x ∷ m) gap r e =
    let (i, v, split, len) = snoc_view x m in
    let (gap', step) = shift_left_step n (l ++ i) v gap r in
    let (b, run, shown) = shift_left_lem n l i gap' (v ∷ r) (omega (arith, len)) in
    let start : l ++ x ∷ m ≡ (l ++ i) ++ v ∷ [] =
      ap (λ k. l ++ k) split ∙ sym (append_assoc l i (v ∷ [])) in
    let end : i ++ v ∷ r ≡ (x ∷ m) ++ r =
      sym (append_assoc i (v ∷ []) r) ∙ ap (λ k. k ++ r) (sym split) in
    (
      b,
      ap (λ k. shift_left (suc n) (layout k gap r)) start ∙ step ∙ run,
      (shown.0, shown.1 ∙ ap (λ k. layout l shown.0 k) end),
    )
