-- ===== src/TextBuffers.antt =====
-- implementations/cpp/ropes_gap_buffers_piece_tables.cpp: two texts under an editor. A character is a
-- number, and a failed assertion is outside the model: the operations are used where it holds.
pub mod GapBuffer
pub mod PieceTable
mod Tests
