-- ===== src/Storage/Bitcask/Compaction.antt =====
-- What `merge_and_compact` keeps, and the engine as a map.
use awesome_dsa.Prelude.{ℕ, none, some, List, ◌≡◌}
use awesome_dsa.Storage.Bitcask.{RecordPointer, Keydir, find}
use awesome_dsa.Storage.Bitcask.Edits.{Contents, Entry}

-- The map `m` at the keys of `dir`, and `n` at the others.
abbrev over : Keydir → Contents → Contents → Contents
over dir m n k = elim (find k dir) [ none ↦ n k | some ptr ↦ m k ]

-- A key has the value that its entry says.
abbrev Entries : Contents → List ℕ → Keydir → Type 0
Entries m log dir =
    (k : List ℕ) → (ptr : RecordPointer) → find k dir ≡ some ptr → Entry log k (some ptr) (m k)

abbrev Unset : Contents → Keydir → Type 0
Unset n dir = (k : List ℕ) (ptr : RecordPointer) → find k dir ≡ some ptr → n k ≡ none
