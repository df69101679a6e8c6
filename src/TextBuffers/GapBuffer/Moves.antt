-- ===== src/TextBuffers/GapBuffer/Moves.antt =====
-- The loops of a gap buffer on a buffer written as the text before the gap, the gap, and the text
-- after it.
use mathlib.Core.List.{append_assoc, append-nil}
use awesome_dsa.Prelude.{
  ℕ, suc, ◌+◌, ◌-◌, ◌≤◌, List, [], ◌∷◌, ◌++◌, length, length-append, arith, ◌≡◌, refl, sym, ◌∙◌, ap,
}
use awesome_dsa.Prelude.Cells.{read-append, write-append}
use awesome_dsa.Prelude.Outcome.{returns}
use awesome_dsa.TextBuffers.GapBuffer.{GapBuffer, copy_chars, put, put_all, push_chars, to_string}

-- The buffer with `l` before the gap and `r` after it.
abbrev pub layout : List ℕ → List ℕ → List ℕ → GapBuffer
layout l gap r = record {
  buffer = l ++ (gap ++ r);
  gap_start = length l;
  gap_end = length l + length gap;
  capacity = length l + length gap + length r;
}

-- The buffer holds `l` before the cursor and `r` after it.
abbrev pub Shows : List ℕ → List ℕ → GapBuffer → Type 0
Shows l r b = (gap : List ℕ) × (b ≡ layout l gap r)

pub of_fields :
    (buffer : List ℕ) (gap_start gap_end capacity : ℕ) (l gap r : List ℕ)
    → buffer ≡ l ++ (gap ++ r)
    → gap_start ≡ length l
    → gap_end ≡ length l + length gap
    → capacity ≡ length l + length gap + length r
    → record { buffer = buffer; gap_start = gap_start; gap_end = gap_end; capacity = capacity }
      ≡ layout l gap r
of_fields buffer gap_start gap_end capacity l gap r a b c d = cc

pub push_chars_lem :
    (a xs z res : List ℕ) (i : ℕ)
    → i ≡ length a
    → push_chars (length xs) (a ++ (xs ++ z)) i res ≡ returns (res ++ xs)
unfolding push_chars
push_chars_lem a [] z res i e = ap returns (sym (append-nil res))
push_chars_lem a (x ∷ xs) z res i e =
    let next =
      push_chars_lem (a ++ x ∷ []) xs z (res ++ x ∷ []) (suc i)
        (omega (arith, length-append a (x ∷ []))) in
    rw (push_chars, read-append a x (xs ++ z) i e)
      (ap (λ k. push_chars (length xs) k (suc i) (res ++ x ∷ []))
          (sym (append_assoc a (x ∷ []) (xs ++ z)))
        ∙ next
        ∙ ap returns (append_assoc res (x ∷ []) xs))

pub copy_chars_lem :
    (a xs z c ys d : List ℕ) (i j : ℕ)
    → i ≡ length a
    → j ≡ length c
    → length xs ≡ length ys
    → copy_chars (length xs) (a ++ (xs ++ z)) i (c ++ (ys ++ d)) j ≡ returns (c ++ (xs ++ d))
unfolding copy_chars
copy_chars_lem a [] z c [] d i j e f n = refl
copy_chars_lem a [] z c (y ∷ ys) d i j e f n = absurd (omega arith)
copy_chars_lem a (x ∷ xs) z c [] d i j e f n = absurd (omega arith)
copy_chars_lem a (x ∷ xs) z c (y ∷ ys) d i j e f n =
    let next =
      copy_chars_lem (a ++ x ∷ []) xs z (c ++ x ∷ []) ys d (suc i) (suc j)
        (omega (arith, length-append a (x ∷ []))) (omega (arith, length-append c (x ∷ [])))
        (omega arith) in
    let from = sym (append_assoc a (x ∷ []) (xs ++ z)) in
    let to = sym (append_assoc c (x ∷ []) (ys ++ d)) in
    rw (copy_chars, read-append a x (xs ++ z) i e, write-append c y x (ys ++ d) j f)
      (ap (λ k. copy_chars (length xs) k (suc i) (c ++ x ∷ (ys ++ d)) (suc j)) from
        ∙ ap (λ k. copy_chars (length xs) ((a ++ x ∷ []) ++ (xs ++ z)) (suc i) k (suc j)) to
        ∙ next
        ∙ ap returns (append_assoc c (x ∷ []) (xs ++ d)))

pub to_string_lem : (l r : List ℕ) (b : GapBuffer) → Shows l r b → to_string b ≡ returns (l ++ r)
unfolding to_string
to_string_lem l r b (gap, e) =
    let rest : length l + length gap + length r - (length l + length gap) ≡ length r =
      omega arith in
    let after =
      push_chars_lem (l ++ gap) r [] l (length l + length gap) (sym (length-append l gap)) in
    ap to_string e
    ∙ rw (to_string, push_chars_lem [] l (gap ++ r) [] 0 refl, rest)
        (ap (λ k. push_chars (length r) k (length l + length gap) l)
            (ap (λ k. l ++ (gap ++ k)) (sym (append-nil r)) ∙ sym (append_assoc l gap (r ++ [])))
          ∙ after)

pub put_lem :
    (l r : List ℕ) (x c : ℕ) (gap : List ℕ)
    → put c (layout l (x ∷ gap) r) ≡ returns (layout (l ++ c ∷ []) gap r)
unfolding put
put_lem l r x c gap =
    rw (put, write-append l x c (gap ++ r) (length l) refl)
      (ap returns (
        of_fields (l ++ c ∷ (gap ++ r)) (length l + 1) (length l + suc (length gap))
          (length l + suc (length gap) + length r) (l ++ c ∷ []) gap r
          (sym (append_assoc l (c ∷ []) (gap ++ r))) (omega (arith, length-append l (c ∷ [])))
          (omega (arith, length-append l (c ∷ []))) (omega (arith, length-append l (c ∷ [])))))

pub put_all_lem :
    (str l r gap : List ℕ)
    → length str ≤ length gap
    → (b : GapBuffer) × (put_all str (layout l gap r) ≡ returns b) × Shows (l ++ str) r b
unfolding put_all
put_all_lem [] l r gap h =
    (layout l gap r, refl, (gap, ap (λ k. layout k gap r) (sym (append-nil l))))
put_all_lem (c ∷ str) l r [] h = absurd (omega arith)
put_all_lem (c ∷ str) l r (x ∷ gap) h =
    let (b, run, shown) = put_all_lem str (l ++ c ∷ []) r gap (omega arith) in
    let whole = ap (λ k. layout k shown.0 r) (append_assoc l (c ∷ []) str) in
    (b, rw (put_all, put_lem l r x c gap) run, (shown.0, shown.1 ∙ whole))
