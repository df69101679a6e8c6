-- ===== src/TextBuffers/PieceTable/Edits.antt =====
-- A piece table as a text.
use mathlib.Core.List.{append-nil}
use awesome_dsa.Prelude.{
  ℕ, zero, suc, ◌+◌, ◌-◌, ◌≤◌, Bool, true, false, ◌&&◌, Option, none, some, List, [], ◌∷◌, ◌++◌,
  length, length-append, take, drop, take-append-drop, ◌==◌, arith, ◌≡◌, refl, sym, ◌∙◌, ap,
  Bool-cases, inl, inr,
}
use awesome_dsa.Prelude.Slices.{drop-append_sub, take_all, drop_all}
use awesome_dsa.Prelude.Outcome.{returns}
use awesome_dsa.TextBuffers.PieceTable.{
  add_buffer, Piece, PieceTable, new_table, size, is_add, last_piece, lengthen_last, continues_last,
  insert_piece, insert, erase_pieces, erase, to_string,
}
use awesome_dsa.TextBuffers.PieceTable.Texts.{
  content, text_of, InRange, Holds, size_lem, to_string_lem, text_of_grown,
}
use awesome_dsa.TextBuffers.PieceTable.Erasing.{erase_pieces_lem}
use awesome_dsa.TextBuffers.PieceTable.Inserting.{insert_piece_lem, lengthen_last_lem, is_add-eq}

insert_middle :
    (pos : ℕ) (x text : List ℕ) (t : PieceTable)
    → Holds text t
    → Holds (take pos text ++ (x ++ drop pos text)) (record t {
      add = t.add ++ x;
      pieces =
          insert_piece pos 0
            (record { buffer = add_buffer; start = length t.add; length_of = length x })
            t.pieces;
    })
insert_middle pos x text t (range, e) =
    let q : Piece = record { buffer = add_buffer; start = length t.add; length_of = length x } in
    let o = t.original in
    let a = t.add in
    let (grown, same) = text_of_grown o a x t.pieces range in
    let fits : length a + length x ≤ length (a ++ x) = omega (arith, length-append a x) in
    let (all, whole) = insert_piece_lem o (a ++ x) pos 0 q t.pieces (omega arith) (fits, grown) in
    let at : pos - 0 ≡ pos = omega arith in
    let none_left : length a - length a ≡ 0 = omega arith in
    let added : content o (a ++ x) q ≡ x =
      ap (take (length x)) (
        drop-append_sub a x (length a)
        ∙ ap (λ k. drop (length a) a ++ drop k x) none_left
        ∙ ap (λ k. k ++ x) (drop_all a (length a) (omega arith)))
      ∙ take_all x (length x) (omega arith) in
    (
      all,
      whole
          ∙ ap
              (λ k.
                take k (text_of o (a ++ x) t.pieces)
                ++ (content o (a ++ x) q ++ drop k (text_of o (a ++ x) t.pieces)))
              at
          ∙ ap
              (λ k.
                take pos (text_of o (a ++ x) t.pieces)
                ++ (k ++ drop pos (text_of o (a ++ x) t.pieces)))
              added
          ∙ ap (λ k. take pos k ++ (x ++ drop pos k)) (same ∙ e),
    )

last_is :
    (at_end : Bool) (o : Option Piece) (n : ℕ)
    → (at_end && elim o [ none ↦ false | some p ↦ is_add p.buffer && p.start + p.length_of == n ])
      ≡ true
    → (p : Piece) × (o ≡ some p) × (p.buffer ≡ add_buffer) × (p.start + p.length_of ≡ n)
last_is false o n h = absurd (cc (h))
last_is true none n h = absurd (cc (h))
last_is true (some p) n h = elim (Bool-cases (is_add p.buffer)) [
  | inl k ↦
      let e : (p.start + p.length_of == n) ≡ true = rw k at h in
      (p, refl, is_add-eq p.buffer k, ground arith)
  | inr k ↦ let e : false ≡ true = rw k at h in absurd (cc (e))
]

insert_end :
    (pos : ℕ) (x text : List ℕ) (t : PieceTable)
    → Holds text t
    → continues_last pos t ≡ true
    → Holds
        (take pos text ++ (x ++ drop pos text))
        (record t { add = t.add ++ x; pieces = lengthen_last (length x) t.pieces })
unfolding continues_last
insert_end pos x text t (range, e) fast =
    let at : pos ≡ length text = ground (arith, size_lem text t (range, e)) in
    let (p, last, k, end) = last_is (pos == size t) (last_piece t.pieces) (length t.add) fast in
    let (all, whole) = lengthen_last_lem t.original t.add x t.pieces p range last k end in
    let front = take_all text pos (omega arith) in
    let back = drop_all text pos (omega arith) in
    (
      all,
      whole
          ∙ ap (λ j. j ++ x) e
          ∙ sym (
              ap (λ j. j ++ (x ++ drop pos text)) front
              ∙ ap (λ j. text ++ (x ++ j)) back
              ∙ ap (λ j. text ++ j) (append-nil x)),
    )

-- `insert` in a table of the pieces `ps`.
insert_pieces :
    (pos c : ℕ) (str text o a : List ℕ) (ps : List Piece)
    → Holds text (record { original = o; add = a; pieces = ps })
    → Holds
        (take pos text ++ ((c ∷ str) ++ drop pos text))
        (insert pos (c ∷ str) (record { original = o; add = a; pieces = ps }))
unfolding insert insert_piece
insert_pieces pos c str text o a [] holds =
    insert_middle pos (c ∷ str) text (record { original = o; add = a; pieces = [] }) holds
insert_pieces pos c str text o a (p ∷ ps) holds =
    let t : PieceTable = record { original = o; add = a; pieces = p ∷ ps } in
    elim (Bool-cases (continues_last pos t)) [
      | inl fast ↦ rw (insert, fast) (insert_end pos (c ∷ str) text t holds fast)
      | inr slow ↦ rw (insert, slow) (insert_middle pos (c ∷ str) text t holds)
    ]

-- `erase` in a table of the pieces `ps`.
erase_some :
    (pos len : ℕ) (text o a : List ℕ) (ps : List Piece)
    → Holds text (record { original = o; add = a; pieces = ps })
    → Holds
        (take pos text ++ drop (pos + suc len) text)
        (erase pos (suc len) (record { original = o; add = a; pieces = ps }))
unfolding erase erase_pieces
erase_some pos len text o a ps (range, e) =
    let (all, whole) = erase_pieces_lem o a pos (suc len) 0 ps [] range tt in
    let front : pos - 0 ≡ pos = omega arith in
    let back : pos + suc len - 0 ≡ pos + suc len = omega arith in
    let texts =
      whole
      ∙ ap (λ k. take k (text_of o a ps) ++ drop (pos + suc len - 0) (text_of o a ps)) front
      ∙ ap (λ k. take pos (text_of o a ps) ++ drop k (text_of o a ps)) back
      ∙ ap (λ k. take pos k ++ drop (pos + suc len) k) e in
    elim ps
        as (λ ps.
          InRange o a (erase_pieces pos (suc len) 0 ps [])
          → (text_of o a (erase_pieces pos (suc len) 0 ps [])
              ≡ take pos text ++ drop (pos + suc len) text)
          → Holds (take pos text ++ drop (pos + suc len) text)
              (erase pos (suc len) (record { original = o; add = a; pieces = ps }))) [
                | [] ↦ λ all' texts'. (all', texts')
                | p ∷ ps ↦ λ all' texts'. (all', texts')
              ]
      all texts

insert_lem :
    (pos : ℕ) (str text : List ℕ) (t : PieceTable)
    → Holds text t
    → pos ≤ length text
    → Holds (take pos text ++ (str ++ drop pos text)) (insert pos str t)
unfolding insert
insert_lem pos [] text t (range, e) h = (range, e ∙ sym (take-append-drop pos text))
insert_lem pos (c ∷ str) text t holds h =
    insert_pieces pos c str text t.original t.add t.pieces holds

erase_lem :
    (pos len : ℕ) (text : List ℕ) (t : PieceTable)
    → Holds text t
    → Holds (take pos text ++ drop (pos + len) text) (erase pos len t)
unfolding erase
erase_lem pos zero text t (range, e) =
    let at : pos ≡ pos + zero = omega arith in
    (range, e ∙ sym (take-append-drop pos text) ∙ ap (λ k. take pos text ++ drop k text) at)
erase_lem pos (suc len) text t holds = erase_some pos len text t.original t.add t.pieces holds

new_table_lem : (text : List ℕ) → Holds text (new_table text)
unfolding new_table
new_table_lem [] = (tt, refl)
new_table_lem (c ∷ text) =
    ((omega arith, tt), append-nil _ ∙ take_all (c ∷ text) (suc (length text)) (omega arith))

-- A piece table that stands for a text gives that text and its size. `insert` at a place inside the
-- text or at its end puts the string in at that place, and `erase` takes out the characters of a
-- region inside the text; the pieces stay inside their buffers. A new table stands for its text.
pub piece_table_refines :
    (text : List ℕ) (t : PieceTable) (pos len : ℕ) (str : List ℕ)
    → Holds text t
    → pos + len ≤ length text
    → (to_string t ≡ returns text)
      × (size t ≡ length text)
      × Holds (take pos text ++ (str ++ drop pos text)) (insert pos str t)
      × Holds (take pos text ++ drop (pos + len) text) (erase pos len t)
      × Holds text (new_table text)
piece_table_refines text t pos len str holds h = (
  to_string_lem text t holds,
  size_lem text t holds,
  insert_lem pos str text t holds (omega arith),
  erase_lem pos len text t holds,
  new_table_lem text,
)
