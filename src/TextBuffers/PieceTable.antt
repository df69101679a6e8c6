-- ===== src/TextBuffers/PieceTable.antt =====
-- Class PieceTable: the text as pieces of the original text and of the text that has been added.
pub mod Texts
pub mod Erasing
pub mod Inserting
pub mod Edits
use awesome_dsa.Prelude.{
  ℕ, zero, suc, ◌+◌, ◌-◌, ◌*◌, Bool, true, false, ◌&&◌, ◌||◌, Option, none, some, List, [], ◌∷◌,
  ◌++◌, length, take, drop, ◌==◌, ltb, leb, if◌then◌else◌,
}
use awesome_dsa.Prelude.Outcome.{Outcome, returns, throws, faults, out_of_range, ◌>>=◌}

pub data BufferType : Type 0 where
  original_buffer add_buffer : BufferType

pub record Piece : Type 0 where
  pub buffer : BufferType
  pub start : ℕ
  pub length_of : ℕ

pub record PieceTable : Type 0 where
  pub original : List ℕ
  pub add : List ℕ
  pub pieces : List Piece

unfoldable pub new_table : List ℕ → PieceTable
new_table [] = record { original = []; add = []; pieces = [] }
new_table (c ∷ text) = record {
  original = c ∷ text;
  add = [];
  pieces = record { buffer = original_buffer; start = 0; length_of = length (c ∷ text) } ∷ [];
}

-- The loop of `size`.
unfoldable pub total_length : ℕ → List Piece → ℕ
total_length total [] = total
total_length total (p ∷ pieces) = total_length (total + p.length_of) pieces

unfoldable pub size : PieceTable → ℕ
unfolding total_length
size t = total_length 0 t.pieces

abbrev pub is_add : BufferType → Bool
is_add original_buffer = false
is_add add_buffer = true

-- `pieces_.back()`
unfoldable pub last_piece : List Piece → Option Piece
last_piece [] = none
last_piece (p ∷ []) = some p
last_piece (p ∷ q ∷ pieces) = last_piece (q ∷ pieces)

-- `pieces_.back().length += text_len;`
unfoldable pub lengthen_last : ℕ → List Piece → List Piece
lengthen_last n [] = []
lengthen_last n (p ∷ []) = record p { length_of = p.length_of + n } ∷ []
lengthen_last n (p ∷ q ∷ pieces) = p ∷ lengthen_last n (q ∷ pieces)

-- The test of the fast path.
unfoldable pub continues_last : ℕ → PieceTable → Bool
unfolding size last_piece
continues_last pos t = pos == size t && elim (last_piece t.pieces) [
  | none ↦ false
  | some p ↦ is_add p.buffer && p.start + p.length_of == length t.add
]

-- The loop of `insert` from the piece at `curr_pos` on, for the new piece `q`.
unfoldable pub insert_piece : ℕ → ℕ → Piece → List Piece → List Piece
insert_piece pos curr_pos q [] = q ∷ []
insert_piece pos curr_pos q (p ∷ pieces) =
    let next_pos = curr_pos + p.length_of in
    let left_len = pos - curr_pos in
    let rest = insert_piece pos next_pos q pieces in
    if pos == curr_pos
    then q ∷ p ∷ pieces
    else if ltb curr_pos pos && ltb pos next_pos
    then record p { length_of = left_len }
      ∷ q
      ∷ record p { start = p.start + left_len; length_of = p.length_of - left_len }
      ∷ pieces
    else p ∷ rest

unfoldable pub insert : ℕ → List ℕ → PieceTable → PieceTable
unfolding continues_last lengthen_last insert_piece
insert pos [] t = t
insert pos (c ∷ text) t =
    let q : Piece = record {
      buffer = add_buffer;
      start = length t.add;
      length_of = length (c ∷ text);
    } in
    let t' : PieceTable = record t { add = t.add ++ (c ∷ text) } in
    elim t.pieces [
      | [] ↦ record t' { pieces = q ∷ [] }
      | p ∷ pieces ↦
          if continues_last pos t
          then record t' { pieces = lengthen_last (length (c ∷ text)) (p ∷ pieces) }
          else record t' { pieces = insert_piece pos 0 q (p ∷ pieces) }
    ]

-- What the loop of `erase` keeps of a piece that stands at `p_start`.
unfoldable pub keep_piece : ℕ → ℕ → ℕ → Piece → List Piece
keep_piece pos len p_start p =
    let p_end = p_start + p.length_of in
    let skipped = pos + len - p_start in
    if leb p_end pos || leb (pos + len) p_start
    then p ∷ []
    else (if ltb p_start pos then record p { length_of = pos - p_start } ∷ [] else [])
      ++ (if ltb (pos + len) p_end
          then record p { start = p.start + skipped; length_of = p.length_of - skipped } ∷ []
          else [])

-- The loop, with `new_pieces`.
unfoldable pub erase_pieces : ℕ → ℕ → ℕ → List Piece → List Piece → List Piece
unfolding keep_piece
erase_pieces pos len curr_pos [] new_pieces = new_pieces
erase_pieces pos len curr_pos (p ∷ pieces) new_pieces =
    erase_pieces pos len (curr_pos + p.length_of) pieces
      (new_pieces ++ keep_piece pos len curr_pos p)

unfoldable pub erase : ℕ → ℕ → PieceTable → PieceTable
unfolding erase_pieces
erase pos zero t = t
erase pos (suc len) t = elim t.pieces [
  | [] ↦ t
  | p ∷ pieces ↦ record t { pieces = erase_pieces pos (suc len) 0 (p ∷ pieces) [] }
]

abbrev pub buffer_of : BufferType → PieceTable → List ℕ
buffer_of original_buffer t = t.original
buffer_of add_buffer t = t.add

-- `res.append(buf, p.start, p.length)` throws where the start is past the end.
unfoldable pub append_pieces : PieceTable → List Piece → List ℕ → Outcome (List ℕ)
append_pieces t [] res = returns res
append_pieces t (p ∷ pieces) res =
    let buf = buffer_of p.buffer t in
    let rest = append_pieces t pieces (res ++ take p.length_of (drop p.start buf)) in
    if ltb (length buf) p.start then throws out_of_range else rest

unfoldable pub to_string : PieceTable → Outcome (List ℕ)
unfolding append_pieces
to_string t = append_pieces t t.pieces []
