-- ===== src/TextBuffers/GapBuffer/Growth.antt =====
-- `grow` keeps the text and widens the gap.
use mathlib.Core.List.{append_assoc, append-nil}
use awesome_dsa.Prelude.{
  ℕ, zero, suc, ◌+◌, ◌-◌, ◌*◌, ◌≤◌, List, [], ◌∷◌, ◌++◌, length, length-append, replicate,
  length-replicate, max, arith, ◌≡◌, refl, sym, ◌∙◌, ap,
}
use awesome_dsa.Prelude.Outcome.{returns}
use awesome_dsa.TextBuffers.GapBuffer.{GapBuffer, copy_chars, grow}
use awesome_dsa.TextBuffers.GapBuffer.Moves.{layout, of_fields, copy_chars_lem}

abbrev zeros : ℕ → List ℕ
zeros n = replicate n 0

length-zeros : (n : ℕ) → length (zeros n) ≡ n
length-zeros n = length-replicate n 0

zeros-add : (a b : ℕ) → zeros (a + b) ≡ zeros a ++ zeros b
zeros-add zero b = let e : 0 + b ≡ b = omega arith in ap zeros e
zeros-add (suc a) b =
    let e : suc a + b ≡ suc (a + b) = omega arith in ap zeros e ∙ ap (◌∷◌ 0) (zeros-add a b)

abbrev new_cap : ℕ → GapBuffer → ℕ
new_cap n b = max (b.capacity * 2) (b.capacity + n + 16)

grow_run :
    (n : ℕ) (b : GapBuffer) (one two : List ℕ)
    → copy_chars b.gap_start b.buffer 0 (zeros (new_cap n b)) 0 ≡ returns one
    → copy_chars
        (b.capacity - b.gap_end)
        b.buffer
        b.gap_end
        one
        (new_cap n b - (b.capacity - b.gap_end))
      ≡ returns two
    → grow n b
      ≡ returns (record b {
        buffer = two;
        gap_end = new_cap n b - (b.capacity - b.gap_end);
        capacity = new_cap n b;
      })
unfolding grow
grow_run n b one two p q = rw (grow, p, q) refl

-- The gap has room for what is needed, and one character at least.
pub grow_lem :
    (n : ℕ) (l gap r : List ℕ)
    → (gap' : List ℕ) × (grow n (layout l gap r) ≡ returns (layout l gap' r))
      × (length gap + n + 16 ≤ length gap')
grow_lem n l gap r =
    let b = layout l gap r in
    let top = new_cap n b in
    let room = top - length l - length r in
    let suffix : b.capacity - b.gap_end ≡ length r = omega arith in
    let at : top - (b.capacity - b.gap_end) ≡ length (l ++ zeros room) =
      omega (arith, length-append l (zeros room), length-zeros room) in
    let whole : top ≡ length l + (room + length r) = omega arith in
    let blank : zeros top ≡ zeros (length l) ++ (zeros room ++ zeros (length r)) =
      ap zeros whole
      ∙ zeros-add (length l) (room + length r)
      ∙ ap (λ k. zeros (length l) ++ k) (zeros-add room (length r)) in
    let first =
      copy_chars_lem [] l (gap ++ r) [] (zeros (length l)) (zeros room ++ zeros (length r)) 0 0 refl
        refl (sym (length-zeros (length l))) in
    let second =
      copy_chars_lem (l ++ gap) r [] (l ++ zeros room) (zeros (length r)) [] b.gap_end
        (top - (b.capacity - b.gap_end)) (sym (length-append l gap)) at
        (sym (length-zeros (length r))) in
    let from : l ++ (gap ++ r) ≡ (l ++ gap) ++ (r ++ []) = simp (append_assoc, append-nil) in
    let to : l ++ (zeros room ++ zeros (length r)) ≡ (l ++ zeros room) ++ (zeros (length r) ++ []) =
      simp (append_assoc, append-nil) in
    let out : (l ++ zeros room) ++ (r ++ []) ≡ l ++ (zeros room ++ r) =
      simp (append_assoc, append-nil) in
    (
      zeros room,
      grow_run n b (l ++ (zeros room ++ zeros (length r))) (l ++ (zeros room ++ r))
            (ap (λ k. copy_chars (length l) b.buffer 0 k 0) blank ∙ first)
            (ap
                (λ k.
                  copy_chars k b.buffer b.gap_end (l ++ (zeros room ++ zeros (length r)))
                    (top - (b.capacity - b.gap_end)))
                suffix
              ∙ ap
                  (λ k.
                    copy_chars (length r) k b.gap_end (l ++ (zeros room ++ zeros (length r)))
                      (top - (b.capacity - b.gap_end)))
                  from
              ∙ ap
                  (λ k.
                    copy_chars (length r) ((l ++ gap) ++ (r ++ [])) b.gap_end k
                      (top - (b.capacity - b.gap_end)))
                  to
              ∙ second
              ∙ ap returns out)
          ∙ ap returns (
              of_fields (l ++ (zeros room ++ r)) (length l) (top - (b.capacity - b.gap_end)) top l
                (zeros room) r refl refl (omega (arith, length-zeros room))
                (omega (arith, length-zeros room))),
      omega (arith, length-zeros room),
    )
