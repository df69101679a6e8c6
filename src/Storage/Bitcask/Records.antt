-- ===== src/Storage/Bitcask/Records.antt =====
-- A record in the log, and reading its value.
use mathlib.Core.List.{append_assoc, append-nil}
use awesome_dsa.Prelude.{
  ℕ, ◌+◌, ◌-◌, ◌^◌, ◌<◌, true, List, [], ◌++◌, length, length-append, take, drop, leb, arith, ◌≡◌,
  refl, sym, ◌∙◌, ap,
}
use awesome_dsa.Prelude.Slices.{take-append_sub, drop-append_sub, take_all, drop_all}
use awesome_dsa.Prelude.Outcome.{returns}
use awesome_dsa.Storage.Bitcask.{
  RecordPointer, number_bytes, record_bytes, read_bytes, number_of, read_value,
}

-- The log has the record of `value` at the pointer.
pub record Stored (log key : List ℕ) (ptr : RecordPointer) (value : List ℕ) : Type 0 where
  pub before : List ℕ
  pub after : List ℕ
  pub whole :
      log ≡ before ++ (record_bytes (length key) ptr.val_size 0 ptr.timestamp key value ++ after)
  pub at_offset : length before ≡ ptr.offset
  pub fits : length value ≡ ptr.val_size
  pub short_key : length key < 2 ^ 16
  pub short_value : ptr.val_size < 2 ^ 32

read_bytes_lem :
    (before bytes after : List ℕ) (i n : ℕ)
    → i ≡ length before
    → n ≡ length bytes
    → read_bytes (before ++ (bytes ++ after)) i n ≡ returns bytes
unfolding read_bytes
read_bytes_lem before bytes after i n e f =
    let within : leb (i + n) (length (before ++ (bytes ++ after))) ≡ true =
      ground (arith, length-append before (bytes ++ after), length-append bytes after) in
    let skip : i - length before ≡ 0 = omega arith in
    let left : n - length bytes ≡ 0 = omega arith in
    let front =
      drop-append_sub before (bytes ++ after) i
      ∙ ap (λ k. k ++ drop (i - length before) (bytes ++ after)) (drop_all before i (omega arith))
      ∙ ap (λ k. drop k (bytes ++ after)) skip in
    rw (read_bytes, within)
      (ap returns (
        ap (take n) front
        ∙ take-append_sub bytes after n
        ∙ ap (λ k. take n bytes ++ take k after) left
        ∙ append-nil (take n bytes)
        ∙ take_all bytes n (omega arith)))

number_of-number_bytes : (n : ℕ) → n < 2 ^ 16 → number_of (number_bytes 2 n) ≡ n
unfolding number_of number_bytes
number_of-number_bytes n h = omega arith

pub read_value-Stored :
    (log key : List ℕ) (ptr : RecordPointer) (value : List ℕ)
    → Stored log key ptr value
    → read_value log ptr ≡ returns value
unfolding read_value record_bytes number_bytes
read_value-Stored log key ptr value h =
    let klen = length key in
    let header = record_bytes klen ptr.val_size 0 ptr.timestamp [] [] in
    let size = number_of-number_bytes klen h.short_key in
    let rest = header ++ (key ++ value) in
    let first : read_bytes log ptr.offset 2 ≡ returns (number_bytes 2 klen) =
      ap (λ k. read_bytes k ptr.offset 2) h.whole
      ∙ read_bytes_lem h.before (number_bytes 2 klen) (drop 2 rest ++ h.after) ptr.offset 2
          (sym h.at_offset) refl in
    let to_value =
      h.whole
      ∙ ap (λ k. h.before ++ (header ++ k)) (append_assoc key value h.after)
      ∙ sym (append_assoc h.before header (key ++ (value ++ h.after)))
      ∙ sym (append_assoc (h.before ++ header) key (value ++ h.after)) in
    let second : read_bytes log (ptr.offset + 15 + number_of (number_bytes 2 klen)) ptr.val_size
        ≡ returns value =
      ap (λ k. read_bytes k (ptr.offset + 15 + number_of (number_bytes 2 klen)) ptr.val_size)
        to_value
      ∙ read_bytes_lem ((h.before ++ header) ++ key) value h.after _ ptr.val_size
          (omega (
            arith,
            h.at_offset,
            size,
            length-append h.before header,
            length-append (h.before ++ header) key,
          ))
          (sym h.fits) in
    rw (read_value, first, second) refl

pub Stored-append :
    (log key more : List ℕ) (ptr : RecordPointer) (value : List ℕ)
    → Stored log key ptr value
    → Stored (log ++ more) key ptr value
Stored-append log key more ptr value h =
    let bytes = record_bytes (length key) ptr.val_size 0 ptr.timestamp key value in
    record {
      before = h.before;
      after = h.after ++ more;
      whole =
          ap (λ k. k ++ more) h.whole
          ∙ append_assoc h.before (bytes ++ h.after) more
          ∙ ap (λ k. h.before ++ k) (append_assoc bytes h.after more);
      at_offset = h.at_offset;
      fits = h.fits;
      short_key = h.short_key;
      short_value = h.short_value;
    }
