-- ===== src/TextBuffers/GapBuffer.antt =====
-- Class GapBuffer: the text with a gap in it at the cursor.
pub mod Moves
pub mod Growth
pub mod Cursor
pub mod Edits
use awesome_dsa.Prelude.{
  ℕ, zero, suc, ◌+◌, ◌-◌, ◌*◌, Bool, true, false, List, [], ◌∷◌, ◌++◌, length, replicate, max, ◌==◌,
  ltb, if◌then◌else◌,
}
use awesome_dsa.Prelude.Cells.{read, write}
use awesome_dsa.Prelude.Outcome.{Outcome, returns, throws, faults, ◌>>=◌}

pub record GapBuffer : Type 0 where
  pub buffer : List ℕ
  pub gap_start : ℕ
  pub gap_end : ℕ
  pub capacity : ℕ

unfoldable pub new_buffer : ℕ → GapBuffer
new_buffer initial_cap = record {
  buffer = replicate initial_cap 0;
  gap_start = 0;
  gap_end = initial_cap;
  capacity = initial_cap;
}

unfoldable pub size : GapBuffer → ℕ
size b = b.capacity - (b.gap_end - b.gap_start)

unfoldable pub cursor : GapBuffer → ℕ
cursor b = b.gap_start

-- The copying loops of `grow`: `n` characters from the place `i` of one vector to the place `j` of
-- the other.
unfoldable pub copy_chars : ℕ → List ℕ → ℕ → List ℕ → ℕ → Outcome (List ℕ)
unfolding read write
copy_chars zero from i to j = returns to
copy_chars (suc n) from i to j =
    read from i >>= λ c. write to j c >>= λ to'. copy_chars n from (suc i) to' (suc j)

unfoldable pub grow : ℕ → GapBuffer → Outcome GapBuffer
unfolding copy_chars
grow min_needed b =
    let new_cap = max (b.capacity * 2) (b.capacity + min_needed + 16) in
    let suffix_len = b.capacity - b.gap_end in
    let new_gap_end = new_cap - suffix_len in
    copy_chars b.gap_start b.buffer 0 (replicate new_cap 0) 0 >>= λ new_buf.
    copy_chars suffix_len b.buffer b.gap_end new_buf new_gap_end >>= λ new_buf'.
    returns (record b { buffer = new_buf'; gap_end = new_gap_end; capacity = new_cap })

-- The two loops of `move_cursor`, with `shift` rounds left.
unfoldable pub shift_left : ℕ → GapBuffer → Outcome GapBuffer
unfolding read write
shift_left zero b = returns b
shift_left (suc shift) b = read b.buffer (b.gap_start - 1) >>= λ c.
    write b.buffer (b.gap_end - 1) c >>= λ buffer.
    shift_left shift
      (record b { buffer = buffer; gap_start = b.gap_start - 1; gap_end = b.gap_end - 1 })

unfoldable pub shift_right : ℕ → GapBuffer → Outcome GapBuffer
unfolding read write
shift_right zero b = returns b
shift_right (suc shift) b = read b.buffer b.gap_end >>= λ c.
    write b.buffer b.gap_start c >>= λ buffer.
    shift_right shift
      (record b { buffer = buffer; gap_start = b.gap_start + 1; gap_end = b.gap_end + 1 })

unfoldable pub move_cursor : ℕ → GapBuffer → Outcome GapBuffer
unfolding shift_left shift_right
move_cursor pos b =
    if ltb pos b.gap_start
    then shift_left (b.gap_start - pos) b
    else if ltb b.gap_start pos
    then shift_right (pos - b.gap_start) b
    else returns b

-- `buffer_[gap_start_++] = c;`
unfoldable pub put : ℕ → GapBuffer → Outcome GapBuffer
unfolding write
put c b = write b.buffer b.gap_start c >>= λ buffer.
    returns (record b { buffer = buffer; gap_start = b.gap_start + 1 })

unfoldable pub insert : ℕ → GapBuffer → Outcome GapBuffer
unfolding grow put
insert c b = if b.gap_start == b.gap_end then grow 1 b >>= put c else put c b

unfoldable pub put_all : List ℕ → GapBuffer → Outcome GapBuffer
unfolding put
put_all [] b = returns b
put_all (c ∷ str) b = put c b >>= put_all str

unfoldable pub insert_string : List ℕ → GapBuffer → Outcome GapBuffer
unfolding grow put_all
insert_string str b =
    if ltb (b.gap_end - b.gap_start) (length str)
    then grow (length str) b >>= put_all str
    else put_all str b

unfoldable pub erase_back : GapBuffer → Bool × GapBuffer
erase_back b =
    if b.gap_start == 0 then (false, b) else (true, record b { gap_start = b.gap_start - 1 })

-- The loops of `to_string`: `n` characters from the place `i` on, after `res`.
unfoldable pub push_chars : ℕ → List ℕ → ℕ → List ℕ → Outcome (List ℕ)
unfolding read
push_chars zero from i res = returns res
push_chars (suc n) from i res = read from i >>= λ c. push_chars n from (suc i) (res ++ c ∷ [])

unfoldable pub to_string : GapBuffer → Outcome (List ℕ)
unfolding push_chars
to_string b = push_chars b.gap_start b.buffer 0 [] >>= λ res.
    push_chars (b.capacity - b.gap_end) b.buffer b.gap_end res
