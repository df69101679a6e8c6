-- ===== src/TextBuffers/PieceTable/Texts.antt =====
-- The text that the pieces of a piece table stand for.
use mathlib.Core.List.{append_assoc, append-nil}
use awesome_dsa.Prelude.{
  ℕ, ◌+◌, ◌-◌, ◌≤◌, false, List, [], ◌∷◌, ◌++◌, length, length-append, take, drop, length-take,
  length-drop, ltb, arith, ◌≡◌, refl, sym, ◌∙◌, ap,
}
use awesome_dsa.Prelude.Slices.{take-take, drop-take, drop-drop, take-append_sub, drop-append_sub}
use awesome_dsa.Prelude.Outcome.{returns}
use awesome_dsa.TextBuffers.PieceTable.{
  BufferType, original_buffer, add_buffer, Piece, PieceTable, buffer_of, append_pieces, to_string,
  total_length, size,
}

-- The characters of a piece, for the two buffers.
abbrev pub chars : List ℕ → List ℕ → BufferType → List ℕ
chars o a original_buffer = o
chars o a add_buffer = a

abbrev pub content : List ℕ → List ℕ → Piece → List ℕ
content o a p = take p.length_of (drop p.start (chars o a p.buffer))

abbrev pub text_of : List ℕ → List ℕ → List Piece → List ℕ
text_of o a [] = []
text_of o a (p ∷ pieces) = content o a p ++ text_of o a pieces

-- Each piece lies in its buffer.
abbrev pub InRange : List ℕ → List ℕ → List Piece → Type 0
InRange o a [] = Unit
InRange o a (p ∷ pieces) =
    (p.start + p.length_of ≤ length (chars o a p.buffer)) × InRange o a pieces

-- The table stands for the text `text`.
abbrev pub Holds : List ℕ → PieceTable → Type 0
Holds text t = InRange t.original t.add t.pieces × (text_of t.original t.add t.pieces ≡ text)

pub length-content :
    (o a : List ℕ) (p : Piece)
    → p.start + p.length_of ≤ length (chars o a p.buffer)
    → length (content o a p) ≡ p.length_of
length-content o a p h =
    let buf = chars o a p.buffer in
    omega (arith, length-take p.length_of (drop p.start buf), length-drop p.start buf)

pub text_of-append :
    (o a : List ℕ) (ps qs : List Piece) → text_of o a (ps ++ qs) ≡ text_of o a ps ++ text_of o a qs
text_of-append o a [] qs = refl
text_of-append o a (p ∷ ps) qs =
    ap (λ k. content o a p ++ k) (text_of-append o a ps qs)
    ∙ sym (append_assoc (content o a p) (text_of o a ps) (text_of o a qs))

pub InRange-append :
    (o a : List ℕ) (ps qs : List Piece) → InRange o a ps → InRange o a qs → InRange o a (ps ++ qs)
InRange-append o a [] qs h g = g
InRange-append o a (p ∷ ps) qs (h, hs) g = (h, InRange-append o a ps qs hs g)

total_length_lem :
    (o a : List ℕ) (ps : List Piece) (total : ℕ)
    → InRange o a ps
    → total_length total ps ≡ total + length (text_of o a ps)
unfolding total_length
total_length_lem o a [] total h = omega arith
total_length_lem o a (p ∷ ps) total (h, hs) =
    total_length_lem o a ps (total + p.length_of) hs
    ∙ omega (arith, length-content o a p h, length-append (content o a p) (text_of o a ps))

pub size_lem : (text : List ℕ) (t : PieceTable) → Holds text t → size t ≡ length text
unfolding size
size_lem text t (range, e) =
    omega (arith, total_length_lem t.original t.add t.pieces 0 range, ap length e)

buffer_of-chars : (t : PieceTable) (k : BufferType) → buffer_of k t ≡ chars t.original t.add k
buffer_of-chars t original_buffer = refl
buffer_of-chars t add_buffer = refl

append_pieces_lem :
    (t : PieceTable) (ps : List Piece) (res : List ℕ)
    → InRange t.original t.add ps
    → append_pieces t ps res ≡ returns (res ++ text_of t.original t.add ps)
unfolding append_pieces
append_pieces_lem t [] res h = ap returns (sym (append-nil res))
append_pieces_lem t (p ∷ ps) res (h, hs) =
    let o = t.original in
    let a = t.add in
    let within : ltb (length (chars o a p.buffer)) p.start ≡ false = ground arith in
    rw (append_pieces, buffer_of-chars t p.buffer, within)
      (append_pieces_lem t ps (res ++ content o a p) hs
        ∙ ap returns (append_assoc res (content o a p) (text_of o a ps)))

pub to_string_lem : (text : List ℕ) (t : PieceTable) → Holds text t → to_string t ≡ returns text
unfolding to_string
to_string_lem text t (range, e) = append_pieces_lem t t.pieces [] range ∙ ap returns e

-- A part of a piece, at its front or from a place on.
pub content_front :
    (o a : List ℕ) (p : Piece) (n : ℕ)
    → n ≤ p.length_of
    → content o a (record p { length_of = n }) ≡ take n (content o a p)
content_front o a p n h = sym (take-take (drop p.start (chars o a p.buffer)) n p.length_of h)

pub content_back :
    (o a : List ℕ) (p : Piece) (n : ℕ)
    → content o a (record p { start = p.start + n; length_of = p.length_of - n })
      ≡ drop n (content o a p)
content_back o a p n =
    let buf = chars o a p.buffer in
    sym (
      drop-take (drop p.start buf) n p.length_of
      ∙ ap (take (p.length_of - n)) (drop-drop buf p.start n))

-- What the pieces stand for stays when the buffer of added text grows.
slice-append :
    (xs ys : List ℕ) (s n : ℕ) → s + n ≤ length xs → take n (drop s (xs ++ ys)) ≡ take n (drop s xs)
slice-append xs ys s n h =
    let none_left : n - length (drop s xs) ≡ 0 = omega (arith, length-drop s xs) in
    ap (take n) (drop-append_sub xs ys s)
    ∙ take-append_sub (drop s xs) (drop (s - length xs) ys) n
    ∙ ap (λ k. take n (drop s xs) ++ take k (drop (s - length xs) ys)) none_left
    ∙ append-nil (take n (drop s xs))

content_grown :
    (o a x : List ℕ) (s n : ℕ) (k : BufferType)
    → s + n ≤ length (chars o a k)
    → (s + n ≤ length (chars o (a ++ x) k))
      × (take n (drop s (chars o (a ++ x) k)) ≡ take n (drop s (chars o a k)))
content_grown o a x s n original_buffer h = (h, refl)
content_grown o a x s n add_buffer h = (omega (arith, length-append a x), slice-append a x s n h)

pub text_of_grown :
    (o a x : List ℕ) (ps : List Piece)
    → InRange o a ps
    → InRange o (a ++ x) ps × (text_of o (a ++ x) ps ≡ text_of o a ps)
text_of_grown o a x [] h = (tt, refl)
text_of_grown o a x (p ∷ ps) (h, hs) =
    let (one, same) = content_grown o a x p.start p.length_of p.buffer h in
    let (all, rest) = text_of_grown o a x ps hs in
    ((one, all), ap (λ k. k ++ text_of o (a ++ x) ps) same ∙ ap (λ k. content o a p ++ k) rest)
