-- ===== src/LogFile/Entries.antt =====
-- The entries of a file as its bytes, and the reads that take them apart.
use mathlib.Core.Path.{subst}
use dimdb.Prelude.{
  ℕ, suc, ◌+◌, ◌-◌, ◌%◌, ◌^◌, ◌≤◌, ◌<◌, ◌≡◌, refl, sym, ◌∙◌, ap, true, false, List, [], ◌∷◌, ◌++◌,
  length, length-append, take, drop, take-length, drop-length, append_assoc, ltb, arith,
}
use dimdb.Prelude.Int.{ℤ, pos, negsuc}
use dimdb.Io.{Answer, returned, all_live, moves}
use dimdb.Io.Read.{readn_complete, readn-end}
use dimdb.Frame.{to_size}
use dimdb.LogEntry
use dimdb.LogEntry.{LogHeader, LogEntry, head_size, max_payload_size, to_int32, new_entry, lsn}
use dimdb.LogFile.{File, read_file, header_bytes}
use dimdb.LogFile.Bytes.{FitsIn, length-header_bytes}

-- The bytes of the entries of a file, each with its header in front.
unfoldable pub file_bytes : List LogEntry → List ℕ
file_bytes [] = []
file_bytes (e ∷ entries) = header_bytes e.header ++ (e.payload ++ file_bytes entries)

-- An entry as `LogEntry::init` makes it.
pub record IsEntry (e : LogEntry) : Type 0 where
  pub lsn_fits : FitsIn (2 ^ 63) e.header.lsn
  pub module_fits : FitsIn (2 ^ 31) e.header.module_id
  pub sized : e.header.data_size ≡ pos (length e.payload)
  pub small : length e.payload ≤ max_payload_size

abbrev pub AreEntries : List LogEntry → Type 0
AreEntries [] = Unit
AreEntries (e ∷ entries) = IsEntry e × AreEntries entries

-- A file of which the reader has passed `front` and has `rest` in front of it.
abbrev pub at_file : List ℕ → List ℕ → List Answer → File
at_file front rest answers = record {
  content = front ++ rest;
  offset = length front;
  answers = answers;
}

pub read_file-next :
    (size : ℕ) (front bytes rest : List ℕ) (answers : List Answer)
    → length bytes ≡ size
    → all_live answers ≡ true
    → size ≤ moves answers
    → (answers' : List Answer) × (read_file size (at_file front (bytes ++ rest) answers)
        ≡ returned (pos 0, bytes, at_file (front ++ bytes) rest answers'))
      × (all_live answers' ≡ true)
      × (moves answers ≤ moves answers' + size)
unfolding read_file
read_file-next size front bytes rest answers e live enough =
    let total = length-append bytes rest in
    let (answers', r, l, m) =
      readn_complete answers size (bytes ++ rest) [] live enough (omega arith) in
    let got : take size (bytes ++ rest) ≡ bytes =
      ap (λ (n : ℕ). take n (bytes ++ rest)) (sym e) ∙ take-length bytes rest in
    let left : drop size (bytes ++ rest) ≡ rest =
      ap (λ (n : ℕ). drop n (bytes ++ rest)) (sym e) ∙ drop-length bytes rest in
    let place : length (front ++ (bytes ++ rest)) - length rest ≡ length (front ++ bytes) =
      omega (arith, length-append front (bytes ++ rest), total, length-append front bytes) in
    (
      answers',
      rw (drop-length front (bytes ++ rest), r, got, left, place)
          (λ i. returned (
            pos 0,
            bytes,
            record {
              content = sym (append_assoc front bytes rest) i;
              offset = length (front ++ bytes);
              answers = answers';
            },
          )),
      l,
      m,
    )

pub read_file-end :
    (size : ℕ) (front : List ℕ) (answers : List Answer)
    → all_live answers ≡ true
    → 0 < moves answers
    → (answers' : List Answer) × (read_file (suc size) (at_file front [] answers)
        ≡ returned (negsuc 0, [], at_file front [] answers'))
      × (all_live answers' ≡ true)
      × (moves answers ≤ moves answers' + 1)
unfolding read_file
read_file-end size front answers live enough =
    let (answers', r, l, m) = readn-end answers size [] live enough in
    let place : length (front ++ []) - 0 ≡ length front = omega (arith, length-append front []) in
    (answers', rw (drop-length front [], r, place) refl, l, m)

pub to_size-small : (n : ℕ) → n < 2 ^ 32 → to_size (pos n) ≡ n
unfolding to_size
to_size-small n h = omega arith

-- Reading an entry makes the entry again.
pub init-entry :
    (e : LogEntry)
    → IsEntry e
    → (LogEntry.init new_entry e.header.lsn e.header.module_id e.payload).0 ≡ e
unfolding LogEntry.init to_int32
init-entry e h =
    let small = h.small in
    let size : length e.payload % 2 ^ 32 ≡ length e.payload = omega arith in
    let fits : ltb (length e.payload) (2 ^ 31) ≡ true = ground arith in
    let accepted : ltb max_payload_size (length e.payload) ≡ false = ground arith in
    rw (size, fits, accepted)
      (λ i. record e { header = record e.header { data_size = sym h.sized i } })

pub size_fits : (e : LogEntry) → IsEntry e → FitsIn (2 ^ 31) e.header.data_size
size_fits e h =
    let small = h.small in subst (λ (z : ℤ). FitsIn (2 ^ 31) z) (sym h.sized) (omega arith)

pub length-file_bytes : (entries : List LogEntry) → length entries ≤ length (file_bytes entries)
unfolding file_bytes
length-file_bytes [] = omega arith
length-file_bytes (e ∷ entries) = omega (
  arith,
  length-append (header_bytes e.header) (e.payload ++ file_bytes entries),
  length-append e.payload (file_bytes entries),
  length-header_bytes e.header,
  length-file_bytes entries,
)
