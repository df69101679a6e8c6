-- ===== src/TextBuffers/GapBuffer/Edits.antt =====
-- A gap buffer as a text with a cursor.
use mathlib.Core.List.{append_assoc, append-nil}
use awesome_dsa.Prelude.{
  ℕ, suc, ◌+◌, ◌-◌, ◌≤◌, ◌<◌, true, false, List, [], ◌∷◌, ◌++◌, length, length-append, take, ◌==◌,
  ltb, arith, ◌≡◌, refl, sym, ◌∙◌, ap, Bool-cases, inl, inr, replicate, length-replicate,
}
use awesome_dsa.Prelude.Outcome.{returns}
use awesome_dsa.TextBuffers.GapBuffer.{
  GapBuffer, new_buffer, size, cursor, shift_left, shift_right, move_cursor, put, insert,
  insert_string, erase_back, to_string,
}
use awesome_dsa.TextBuffers.GapBuffer.Moves.{
  layout, Shows, of_fields, put_lem, put_all_lem, to_string_lem,
}
use awesome_dsa.TextBuffers.GapBuffer.Growth.{grow_lem}
use awesome_dsa.TextBuffers.GapBuffer.Cursor.{snoc_view, shift_left_lem, shift_right_lem}

insert_lem :
    (c : ℕ) (l gap r : List ℕ)
    → (b : GapBuffer) × (insert c (layout l gap r) ≡ returns b) × Shows (l ++ c ∷ []) r b
unfolding insert
insert_lem c l [] r =
    let (gap, grown, wide) = grow_lem 1 l [] r in
    let full : (length l == length l + 0) ≡ true = ground arith in
    put_first gap (omega arith) (rw (insert, full, grown) refl)
  where
    put_first :
        (gap : List ℕ)
        → 0 < length gap
        → insert c (layout l [] r) ≡ put c (layout l gap r)
        → (b : GapBuffer) × (insert c (layout l [] r) ≡ returns b) × Shows (l ++ c ∷ []) r b
    put_first [] h e = elim h [ ]
    put_first (x ∷ gap) h e = (layout (l ++ c ∷ []) gap r, e ∙ put_lem l r x c gap, (gap, refl))
insert_lem c l (x ∷ gap) r =
    let room : (length l == length l + suc (length gap)) ≡ false = ground arith in
    (layout (l ++ c ∷ []) gap r, rw (insert, room) (put_lem l r x c gap), (gap, refl))

insert_string_lem :
    (str l gap r : List ℕ)
    → (b : GapBuffer) × (insert_string str (layout l gap r) ≡ returns b) × Shows (l ++ str) r b
unfolding insert_string
insert_string_lem str l gap r =
    elim (Bool-cases (ltb (length l + length gap - length l) (length str))) [
      | inl narrow ↦
          let (gap', grown, wide) = grow_lem (length str) l gap r in
          let (b, run, shown) = put_all_lem str l r gap' (omega arith) in
          (b, rw (insert_string, narrow, grown) run, shown)
      | inr room ↦
          let (b, run, shown) = put_all_lem str l r gap (ground arith) in
          (b, rw (insert_string, room) run, shown)
    ]

nil_of_length : (m : List ℕ) → length m ≡ 0 → m ≡ []
nil_of_length [] h = refl
nil_of_length (x ∷ m) h = absurd (omega arith)

take-length_append : (i : List ℕ) (v : ℕ) → take (length i) (i ++ v ∷ []) ≡ i
take-length_append [] v = refl
take-length_append (x ∷ i) v = ap (◌∷◌ x) (take-length_append i v)

erase_back_lem :
    (l gap r : List ℕ)
    → (b : GapBuffer) × (erase_back (layout l gap r) ≡ (ltb 0 (length l), b))
      × Shows (take (length l - 1) l) r b
unfolding erase_back
erase_back_lem [] gap r = (layout [] gap r, refl, (gap, refl))
erase_back_lem (x ∷ l) gap r =
    let (i, v, split, len) = snoc_view x l in
    let first : take (suc (length l) - 1) (x ∷ l) ≡ i =
      let one : suc (length l) - 1 ≡ length i = omega (arith, len) in
      ap (λ k. take k (x ∷ l)) one ∙ ap (take (length i)) split ∙ take-length_append i v in
    let some_text : (suc (length l) == 0) ≡ false = ground arith in
    let there : ltb 0 (suc (length l)) ≡ true = ground arith in
    let whole = ap (λ k. k ++ (gap ++ r)) split ∙ append_assoc i (v ∷ []) (gap ++ r) in
    (
      layout i (v ∷ gap) r,
      rw (erase_back, some_text, there)
          (ap (λ k. (true, k))
            (of_fields (x ∷ l ++ (gap ++ r)) (suc (length l) - 1) (suc (length l) + length gap)
              (suc (length l) + length gap + length r) i (v ∷ gap) r whole (omega (arith, len))
              (omega (arith, len)) (omega (arith, len)))),
      (v ∷ gap, ap (λ k. layout k (v ∷ gap) r) (sym first)),
    )

-- Two ways to split one text: the longer front is the shorter and what follows it.
append_split :
    (l r l' r' : List ℕ)
    → l ++ r ≡ l' ++ r'
    → length l' ≤ length l
    → (m : List ℕ) × (l ≡ l' ++ m) × (r' ≡ m ++ r)
append_split l r [] r' e h = (l, refl, sym e)
append_split [] r (y ∷ l') r' e h = absurd (omega arith)
append_split (x ∷ l) r (y ∷ l') r' e h =
    let heads : x ≡ y = cc in
    let tails : l ++ r ≡ l' ++ r' = cc in
    let (m, front, back) = append_split l r l' r' tails (omega arith) in
    (m, cc (heads, front), back)

move_cursor_lem :
    (l gap r l' r' : List ℕ)
    → l ++ r ≡ l' ++ r'
    → (b : GapBuffer) × (move_cursor (length l') (layout l gap r) ≡ returns b) × Shows l' r' b
unfolding move_cursor
move_cursor_lem l gap r l' r' e = elim (Bool-cases (ltb (length l') (length l))) [
  | inl back ↦
      let (m, front, rest) = append_split l r l' r' e (ground arith) in
      let (b, run, shown) =
        shift_left_lem (length l - length l') l' m gap r
          (omega (arith, ap length front, length-append l' m)) in
      (
        b,
        rw (move_cursor, back)
            (ap (λ k. shift_left (length l - length l') (layout k gap r)) front ∙ run),
        (shown.0, shown.1 ∙ ap (λ k. layout l' shown.0 k) (sym rest)),
      )
  | inr not_back ↦
      let (m, front, rest) = append_split l' r' l r (sym e) (ground arith) in
      let (b, run, shown) = shift_right_lem m l gap r' in
      let size : length l' - length l ≡ length m =
        omega (arith, ap length front, length-append l m) in
      let end : Shows l' r' b = (shown.0, shown.1 ∙ ap (λ k. layout k shown.0 r') (sym front)) in
      elim (Bool-cases (ltb (length l) (length l'))) [
        | inl on ↦ (
          b,
          rw (move_cursor, not_back, on)
              (ap (λ k. shift_right k (layout l gap r)) size
                ∙ ap (λ k. shift_right (length m) (layout l gap k)) rest
                ∙ run),
          end,
        )
        | inr here ↦
            let none_left = nil_of_length m (ground (arith, size)) in
            let l'-eq-l : l' ≡ l = front ∙ ap (λ k. l ++ k) none_left ∙ append-nil l in
            let r-eq-r' : r ≡ r' = rest ∙ ap (λ k. k ++ r') none_left in
            (
              layout l gap r,
              rw (move_cursor, not_back, here) refl,
              (gap, ap (λ k. layout k gap r) (sym l'-eq-l) ∙ ap (layout l' gap) r-eq-r'),
            )
      ]
]

-- A gap buffer that shows `l` before its cursor and `r` after it gives the text of both. `insert` of a
-- character or a string puts it before the cursor, `erase_back` takes the last character before the
-- cursor off and says whether there was one, and `move_cursor` shows the same text split at any place;
-- each returns, with reads and writes inside the buffer.
pub gap_buffer_refines :
    (l r : List ℕ) (b : GapBuffer) (c : ℕ) (str l' r' : List ℕ)
    → Shows l r b
    → l ++ r ≡ l' ++ r'
    → (to_string b ≡ returns (l ++ r))
      × (cursor b ≡ length l)
      × (size b ≡ length (l ++ r))
      × ((b' : GapBuffer) × (insert c b ≡ returns b') × Shows (l ++ c ∷ []) r b')
      × ((b' : GapBuffer) × (insert_string str b ≡ returns b') × Shows (l ++ str) r b')
      × ((b' : GapBuffer) × (erase_back b ≡ (ltb 0 (length l), b'))
          × Shows (take (length l - 1) l) r b')
      × ((b' : GapBuffer) × (move_cursor (length l') b ≡ returns b') × Shows l' r' b')
unfolding cursor size
gap_buffer_refines l r b c str l' r' (gap, e) split =
    let (one, ran_one, shows_one) = insert_lem c l gap r in
    let (more, ran_more, shows_more) = insert_string_lem str l gap r in
    let (less, ran_less, shows_less) = erase_back_lem l gap r in
    let (moved, ran_moved, shows_moved) = move_cursor_lem l gap r l' r' split in
    (
      to_string_lem l r b (gap, e),
      ap cursor e,
      ap size e ∙ omega (arith, length-append l r),
      (one, ap (insert c) e ∙ ran_one, shows_one),
      (more, ap (insert_string str) e ∙ ran_more, shows_more),
      (less, ap erase_back e ∙ ran_less, shows_less),
      (moved, ap (move_cursor (length l')) e ∙ ran_moved, shows_moved),
    )

length_blank : (n : ℕ) → length (replicate {A = ℕ} n 0) ≡ n
length_blank n = length-replicate {A = ℕ} n 0

pub new_buffer-Shows : (initial_cap : ℕ) → Shows [] [] (new_buffer initial_cap)
unfolding new_buffer
new_buffer-Shows n = (
  replicate n 0,
  of_fields (replicate n 0) 0 n n [] (replicate n 0) [] (sym (append-nil (replicate n 0))) refl
      (omega (arith, length_blank n)) (omega (arith, length_blank n)),
)
