-- ===== src/TextBuffers/Tests.antt =====
-- Runs of the two texts, and the theorems at small ones.
use awesome_dsa.Prelude.{true, [], ◌∷◌, ◌≡◌, refl, arith}
use awesome_dsa.Prelude.Outcome.{returns, ◌>>=◌}
use awesome_dsa.TextBuffers.GapBuffer
use awesome_dsa.TextBuffers.GapBuffer.{GapBuffer}
use awesome_dsa.TextBuffers.GapBuffer.Moves.{layout, Shows}
use awesome_dsa.TextBuffers.GapBuffer.Edits.{gap_buffer_refines}
use awesome_dsa.TextBuffers.PieceTable
use awesome_dsa.TextBuffers.PieceTable.{PieceTable, Piece, original_buffer, add_buffer}
use awesome_dsa.TextBuffers.PieceTable.Texts.{Holds}
use awesome_dsa.TextBuffers.PieceTable.Edits.{piece_table_refines}

-- A full buffer of two characters grows.
growing_test :
    (GapBuffer.insert_string (97 ∷ 98 ∷ []) (GapBuffer.new_buffer 2) >>= λ b.
    GapBuffer.move_cursor 1 b >>= λ b'. GapBuffer.insert 99 b' >>= GapBuffer.to_string)
    ≡ returns (97 ∷ 99 ∷ 98 ∷ [])
unfolding GapBuffer.insert_string GapBuffer.new_buffer GapBuffer.move_cursor GapBuffer.insert
    GapBuffer.to_string
growing_test = refl

gap_buffer_refines_example :
    (GapBuffer.to_string (layout (97 ∷ 98 ∷ []) (0 ∷ []) (99 ∷ [])) ≡ returns (97 ∷ 98 ∷ 99 ∷ []))
    × (GapBuffer.cursor (layout (97 ∷ 98 ∷ []) (0 ∷ []) (99 ∷ [])) ≡ 2)
    × (GapBuffer.size (layout (97 ∷ 98 ∷ []) (0 ∷ []) (99 ∷ [])) ≡ 3)
    × ((b' : GapBuffer) × (GapBuffer.insert 100 (layout (97 ∷ 98 ∷ []) (0 ∷ []) (99 ∷ []))
          ≡ returns b')
        × Shows (97 ∷ 98 ∷ 100 ∷ []) (99 ∷ []) b')
    × ((b' : GapBuffer) × (GapBuffer.insert_string
            (101 ∷ 102 ∷ [])
            (layout (97 ∷ 98 ∷ []) (0 ∷ []) (99 ∷ []))
          ≡ returns b')
        × Shows (97 ∷ 98 ∷ 101 ∷ 102 ∷ []) (99 ∷ []) b')
    × ((b' : GapBuffer) × (GapBuffer.erase_back (layout (97 ∷ 98 ∷ []) (0 ∷ []) (99 ∷ []))
          ≡ (true, b'))
        × Shows (97 ∷ []) (99 ∷ []) b')
    × ((b' : GapBuffer) × (GapBuffer.move_cursor 1 (layout (97 ∷ 98 ∷ []) (0 ∷ []) (99 ∷ []))
          ≡ returns b')
        × Shows (97 ∷ []) (98 ∷ 99 ∷ []) b')
gap_buffer_refines_example =
    gap_buffer_refines (97 ∷ 98 ∷ []) (99 ∷ []) (layout (97 ∷ 98 ∷ []) (0 ∷ []) (99 ∷ [])) 100
      (101 ∷ 102 ∷ []) (97 ∷ []) (98 ∷ 99 ∷ []) (0 ∷ [], refl) refl

-- "abcd", of two pieces: "ab" of the first text, and "cd" which has been added.
abbrev two_pieces : PieceTable
two_pieces = record {
  original = 97 ∷ 98 ∷ [];
  add = 99 ∷ 100 ∷ [];
  pieces =
      record { buffer = original_buffer; start = 0; length_of = 2 }
      ∷ record { buffer = add_buffer; start = 0; length_of = 2 }
      ∷ [];
}

piece_table_refines_example :
    (PieceTable.to_string two_pieces ≡ returns (97 ∷ 98 ∷ 99 ∷ 100 ∷ []))
    × (PieceTable.size two_pieces ≡ 4)
    × Holds (97 ∷ 120 ∷ 98 ∷ 99 ∷ 100 ∷ []) (PieceTable.insert 1 (120 ∷ []) two_pieces)
    × Holds (97 ∷ 100 ∷ []) (PieceTable.erase 1 2 two_pieces)
    × Holds (97 ∷ 98 ∷ 99 ∷ 100 ∷ []) (PieceTable.new_table (97 ∷ 98 ∷ 99 ∷ 100 ∷ []))
piece_table_refines_example =
    piece_table_refines (97 ∷ 98 ∷ 99 ∷ 100 ∷ []) two_pieces 1 2 (120 ∷ [])
      ((omega arith, (omega arith, tt)), refl) (omega arith)
