-- ===== src/Storage/Bitcask/Edits.antt =====
-- The engine as a map: what `put`, `del` and `get` do to it.
use mathlib.Core.List.{append-nil}
use awesome_dsa.Prelude.{
  ℕ, ◌+◌, ◌%◌, ◌^◌, ◌<◌, true, false, Option, none, some, List, [], ◌++◌, length, arith, ◌≡◌, ◌⊎◌,
  inl, inr, refl, sym, ◌∙◌, ap, if◌then◌else◌, Bool-cases,
}
use awesome_dsa.Prelude.Outcome.{returns}
use awesome_dsa.Storage.Bitcask.{
  RecordPointer, Keydir, BitcaskEngine, same_key, find, assign, record_bytes, put, get, bury, del,
}
use awesome_dsa.Storage.Bitcask.Keydir.{
  eq_of_same_key, IsUnique, find-assign_self, find-assign_other, assign-IsUnique,
}
use awesome_dsa.Storage.Bitcask.Records.{Stored, read_value-Stored, Stored-append}

-- A map from keys to values.
abbrev pub Contents : Type 0
Contents = List ℕ → Option (List ℕ)

abbrev pub update : List ℕ → Option (List ℕ) → Contents → Contents
update key value m k = if same_key key k then value else m k

-- What the entry of a key says of its value.
abbrev pub Entry : List ℕ → List ℕ → Option RecordPointer → Option (List ℕ) → Type 0
Entry log key none value = value ≡ none
Entry log key (some ptr) value =
    ((ptr.is_tombstone ≡ true) × (value ≡ none))
    ⊎ ((ptr.is_tombstone ≡ false) × ((v : List ℕ) × (value ≡ some v) × Stored log key ptr v))

-- The log and the index hold the map `m`.
abbrev pub Holds : Contents → List ℕ → Keydir → Type 0
Holds m log dir = IsUnique dir × ((k : List ℕ) → Entry log k (find k dir) (m k))

Entry-append :
    (log more key : List ℕ) (ptr : Option RecordPointer) (value : Option (List ℕ))
    → Entry log key ptr value
    → Entry (log ++ more) key ptr value
Entry-append log more key none value h = h
Entry-append log more key (some ptr) value (inl h) = inl h
Entry-append log more key (some ptr) value (inr (live, (v, e, stored))) =
    inr (live, (v, e, Stored-append log key more ptr v stored))

-- A new entry for a key, with more bytes at the end of the log.
assign_lem :
    (m : Contents) (log more : List ℕ) (dir : Keydir) (key : List ℕ) (ptr : RecordPointer)
    (value : Option (List ℕ))
    → Entry (log ++ more) key (some ptr) value
    → Holds m log dir
    → Holds (update key value m) (log ++ more) (assign key ptr dir)
assign_lem m log more dir key ptr value new (once, all) = (
  assign-IsUnique key ptr dir once,
  λ k. elim (Bool-cases (same_key key k)) [
    | inl same ↦
        let eq = eq_of_same_key key k same in
        let found : find k (assign key ptr dir) ≡ some ptr =
          ap (λ z. find z (assign key ptr dir)) (sym eq) ∙ find-assign_self key ptr dir in
        rw (same, found) (rw eq at new)
    | inr other ↦
        rw (other, find-assign_other key k ptr dir other)
          (Entry-append log more k (find k dir) (m k) (all k))
  ],
)

-- The record of a value at the end of the log.
pub record_lem :
    (m : Contents) (log : List ℕ) (dir : Keydir) (key value : List ℕ) (ts : ℕ)
    → length key < 2 ^ 16
    → length value < 2 ^ 32
    → Holds m log dir
    → Holds
        (update key (some value) m)
        (log ++ record_bytes (length key % 2 ^ 16) (length value % 2 ^ 32) 0 ts key value)
        (assign key
          (record {
            offset = length log;
            val_size = length value % 2 ^ 32;
            timestamp = ts;
            is_tombstone = false;
          })
          dir)
record_lem m log dir key value ts short_key short_value h =
    let klen : length key % 2 ^ 16 ≡ length key = omega arith in
    let vlen : length value % 2 ^ 32 ≡ length value = omega arith in
    let ptr : RecordPointer = record {
      offset = length log;
      val_size = length value % 2 ^ 32;
      timestamp = ts;
      is_tombstone = false;
    } in
    let bytes = record_bytes (length key % 2 ^ 16) (length value % 2 ^ 32) 0 ts key value in
    assign_lem m log bytes dir key ptr (some value)
      (inr (
        refl,
        (
          value,
          refl,
          record {
            before = log;
            after = [];
            whole =
                ap (λ k. log ++ record_bytes k (length value % 2 ^ 32) 0 ts key value) klen
                ∙ ap (λ k. log ++ k)
                    (sym (
                      append-nil
                        (record_bytes (length key) (length value % 2 ^ 32) 0 ts key value)));
            at_offset = refl;
            fits = sym vlen;
            short_key = short_key;
            short_value = omega arith;
          },
        ),
      ))
      h

pub put_lem :
    (m : Contents) (ts : ℕ) (key value : List ℕ) (e : BitcaskEngine)
    → length key < 2 ^ 16
    → length value < 2 ^ 32
    → Holds m e.disk_log e.keydir
    → Holds (update key (some value) m) (put ts key value e).disk_log (put ts key value e).keydir
unfolding put
put_lem m ts key value e short_key short_value h =
    record_lem m e.disk_log e.keydir key value ts short_key short_value h

pub same_contents :
    (m n : Contents) (log : List ℕ) (dir : Keydir)
    → ((k : List ℕ) → m k ≡ n k)
    → Holds m log dir
    → Holds n log dir
same_contents m n log dir eq (once, all) = (once, λ k. rw (sym (eq k)) (all k))

pub del_lem :
    (m : Contents) (ts : ℕ) (key : List ℕ) (e : BitcaskEngine)
    → Holds m e.disk_log e.keydir
    → Holds (update key none m) (del ts key e).disk_log (del ts key e).keydir
unfolding del bury
del_lem m ts key e h = go (find key e.keydir) refl
  where
    bytes : List ℕ
    bytes = record_bytes (length key % 2 ^ 16) 0 1 ts key []

    unchanged : m key ≡ none → (k : List ℕ) → m k ≡ update key none m k
    unchanged gone k = elim (Bool-cases (same_key key k)) [
      | inl same ↦ rw same (ap m (sym (eq_of_same_key key k same)) ∙ gone)
      | inr other ↦ rw other refl
    ]

    go :
        (found : Option RecordPointer)
        → find key e.keydir ≡ found
        → Holds (update key none m) (del ts key e).disk_log (del ts key e).keydir
    go none eq =
        let gone : m key ≡ none = rw eq at (h.1 key) in
        rw (del, eq) (same_contents m (update key none m) e.disk_log e.keydir (unchanged gone) h)
    go (some ptr) eq =
        let entry : Entry e.disk_log key (some ptr) (m key) = rw eq at (h.1 key) in
        elim entry [
          | inl (dead, gone) ↦
              rw (del, eq, dead)
                (same_contents m (update key none m) e.disk_log e.keydir (unchanged gone) h)
          | inr (live, stored) ↦
              rw (del, eq, live)
                (assign_lem m e.disk_log bytes e.keydir key _ none (inl (refl, refl)) h)
        ]

pub get_lem :
    (m : Contents) (key : List ℕ) (e : BitcaskEngine)
    → Holds m e.disk_log e.keydir
    → (reads : ℕ) × (get key e ≡ returns (m key, record e { total_disk_reads = reads }))
unfolding get
get_lem m key e h = go (find key e.keydir) refl
  where
    go :
        (found : Option RecordPointer)
        → find key e.keydir ≡ found
        → (reads : ℕ) × (get key e ≡ returns (m key, record e { total_disk_reads = reads }))
    go none eq =
        let gone : m key ≡ none = rw eq at (h.1 key) in
        (e.total_disk_reads, rw (get, eq, gone) refl)
    go (some ptr) eq =
        let entry : Entry e.disk_log key (some ptr) (m key) = rw eq at (h.1 key) in
        elim entry [
          | inl (dead, gone) ↦ (e.total_disk_reads, rw (get, eq, dead, gone) refl)
          | inr (live, (v, is_v, stored)) ↦ (
            (e.total_disk_reads + 1) % 2 ^ 64,
            rw (get, eq, live, read_value-Stored e.disk_log key ptr v stored, is_v) refl,
          )
        ]
