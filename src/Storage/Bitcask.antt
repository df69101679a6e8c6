-- ===== src/Storage/Bitcask.antt =====
-- Class BitcaskEngine. Numbers are written with the low byte first. The clock is outside: the calls
-- that read it have its value as the argument `ts`.
pub mod Keydir
pub mod Records
pub mod Edits
pub mod Compaction
use awesome_dsa.Prelude.{
  ℕ, zero, suc, ◌+◌, ◌*◌, ◌/◌, ◌%◌, ◌^◌, Bool, true, false, ◌&&◌, Option, none, some, List, [], ◌∷◌,
  ◌++◌, length, take, drop, ◌==◌, leb, if◌then◌else◌,
}
use awesome_dsa.Prelude.Outcome.{Outcome, returns, throws, faults, ◌>>=◌}

pub record RecordPointer : Type 0 where
  pub offset : ℕ
  pub val_size : ℕ
  pub timestamp : ℕ
  pub is_tombstone : Bool

abbrev pub Keydir : Type 0
Keydir = List (List ℕ × RecordPointer)

pub record BitcaskEngine : Type 0 where
  pub disk_log : List ℕ
  pub keydir : Keydir
  pub total_payload_bytes_written : ℕ
  pub total_disk_bytes_written : ℕ
  pub total_disk_reads : ℕ

abbrev pub new_engine : BitcaskEngine
new_engine = record {
  disk_log = [];
  keydir = [];
  total_payload_bytes_written = 0;
  total_disk_bytes_written = 0;
  total_disk_reads = 0;
}

-- `==` on strings
unfoldable pub same_key : List ℕ → List ℕ → Bool
same_key [] [] = true
same_key [] (b ∷ l) = false
same_key (a ∷ k) [] = false
same_key (a ∷ k) (b ∷ l) = a == b && same_key k l

-- `keydir_.find(key)`
unfoldable pub find : List ℕ → Keydir → Option RecordPointer
unfolding same_key
find key [] = none
find key ((k, ptr) ∷ dir) = if same_key k key then some ptr else find key dir

-- `keydir_[key] = ptr`
unfoldable pub assign : List ℕ → RecordPointer → Keydir → Keydir
unfolding same_key
assign key ptr [] = (key, ptr) ∷ []
assign key ptr ((k, p) ∷ dir) =
    if same_key k key then (k, ptr) ∷ dir else (k, p) ∷ assign key ptr dir

-- The bytes of a number of `w` bytes.
unfoldable pub number_bytes : ℕ → ℕ → List ℕ
number_bytes zero n = []
number_bytes (suc w) n = n % 256 ∷ number_bytes w (n / 256)

-- The bytes that `append_bytes` puts at the end of the log for a record.
unfoldable pub record_bytes : ℕ → ℕ → ℕ → ℕ → List ℕ → List ℕ → List ℕ
unfolding number_bytes
record_bytes klen vlen flag ts key value =
    number_bytes 2 klen
    ++ (number_bytes 4 vlen ++ (number_bytes 1 flag ++ (number_bytes 8 ts ++ (key ++ value))))

unfoldable pub put : ℕ → List ℕ → List ℕ → BitcaskEngine → BitcaskEngine
unfolding record_bytes assign
put ts key value e =
    let klen = length key % 2 ^ 16 in
    let vlen = length value % 2 ^ 32 in
    let record_len = (15 + klen + vlen) % 2 ^ 32 in
    record {
      disk_log = e.disk_log ++ record_bytes klen vlen 0 ts key value;
      keydir =
          assign key
            (record {
              offset = length e.disk_log;
              val_size = vlen;
              timestamp = ts;
              is_tombstone = false;
            })
            e.keydir;
      total_payload_bytes_written =
          (e.total_payload_bytes_written + (klen + vlen) % 2 ^ 32) % 2 ^ 64;
      total_disk_bytes_written = (e.total_disk_bytes_written + record_len) % 2 ^ 64;
      total_disk_reads = e.total_disk_reads;
    }

-- `n` bytes of the log from `offset` on; a read past its end is outside what the language defines.
unfoldable pub read_bytes : List ℕ → ℕ → ℕ → Outcome (List ℕ)
read_bytes log offset n =
    if leb (offset + n) (length log) then returns (take n (drop offset log)) else faults

-- The number in bytes read by `memcpy`.
unfoldable pub number_of : List ℕ → ℕ
number_of [] = 0
number_of (b ∷ bytes) = b + 256 * number_of bytes

-- The value at a pointer.
unfoldable pub read_value : List ℕ → RecordPointer → Outcome (List ℕ)
unfolding read_bytes number_of
read_value log ptr = read_bytes log ptr.offset 2 >>= λ header.
    read_bytes log (ptr.offset + 15 + number_of header) ptr.val_size

unfoldable pub get : List ℕ → BitcaskEngine → Outcome (Option (List ℕ) × BitcaskEngine)
unfolding find read_value
get key e = elim (find key e.keydir) [
  | none ↦ returns (none, e)
  | some ptr ↦
      if ptr.is_tombstone
      then returns (none, e)
      else read_value e.disk_log ptr >>= λ result.
          returns (some result, record e { total_disk_reads = (e.total_disk_reads + 1) % 2 ^ 64 })
]

-- What `del` does to a key that has a value.
unfoldable pub bury : ℕ → List ℕ → BitcaskEngine → BitcaskEngine
unfolding record_bytes assign
bury ts key e =
    let klen = length key % 2 ^ 16 in
    record {
      disk_log = e.disk_log ++ record_bytes klen 0 1 ts key [];
      keydir =
          assign key
            (record {
              offset = length e.disk_log;
              val_size = 0;
              timestamp = ts;
              is_tombstone = true;
            })
            e.keydir;
      total_payload_bytes_written = (e.total_payload_bytes_written + klen) % 2 ^ 64;
      total_disk_bytes_written = (e.total_disk_bytes_written + (15 + klen)) % 2 ^ 64;
      total_disk_reads = e.total_disk_reads;
    }

unfoldable pub del : ℕ → List ℕ → BitcaskEngine → BitcaskEngine
unfolding find bury
del ts key e = elim (find key e.keydir) [
  | none ↦ e
  | some ptr ↦ if ptr.is_tombstone then e else bury ts key e
]

-- The new record of a key in the compacted log.
unfoldable pub copy_record : List ℕ → ℕ → Option (List ℕ) → List ℕ × Keydir → List ℕ × Keydir
unfolding record_bytes assign
copy_record key ts none compacted = compacted
copy_record key ts (some value) (log, dir) =
    let klen = length key % 2 ^ 16 in
    let vlen = length value % 2 ^ 32 in
    (
      log ++ record_bytes klen vlen 0 ts key value,
      assign key
          (record { offset = length log; val_size = vlen; timestamp = ts; is_tombstone = false })
          dir,
    )

-- The loop of `merge_and_compact` over the entries of `keydir_`.
unfoldable pub compact_entries :
    Keydir → BitcaskEngine → List ℕ × Keydir → Outcome (BitcaskEngine × (List ℕ × Keydir))
unfolding get copy_record
compact_entries [] e compacted = returns (e, compacted)
compact_entries ((key, ptr) ∷ dir) e compacted =
    if ptr.is_tombstone
    then compact_entries dir e compacted
    else get key e >>= λ got.
        compact_entries dir got.1 (copy_record key ptr.timestamp got.0 compacted)

unfoldable pub merge_and_compact : BitcaskEngine → Outcome BitcaskEngine
unfolding compact_entries
merge_and_compact e = compact_entries e.keydir e ([], []) >>= λ done.
    returns (record (done.0) { disk_log = done.1.0; keydir = done.1.1 })
