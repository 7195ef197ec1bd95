-- ===== src/LogFile/Landing.antt =====
-- Where `go_to` lands: behind a header with a smaller LSN it goes on by 16 bytes.
use dimdb.Prelude.{
  ℕ, zero, suc, ◌+◌, ◌-◌, ◌≤◌, ◌<◌, ◌≡◌, refl, sym, ◌∙◌, ap, true, false, List, [], ◌∷◌, ◌++◌,
  length, length-append, append_assoc, ltb, arith,
}
use dimdb.Prelude.Int.{ℤ, pos, ltb_ℤ}
use dimdb.Rc.{success}
use dimdb.Io.{Answer, returned, all_live, moves}
use dimdb.LogEntry.{LogEntry, head_size, max_payload_size, lsn}
use dimdb.LogFile.{File, LogFileReader, header_bytes, is_negative, go_to_loop, go_to}
use dimdb.LogFile.Bytes.{length-header_bytes, header_of-header_bytes}
use dimdb.LogFile.Entries.{
  file_bytes, IsEntry, AreEntries, at_file, read_file-next, read_file-end, size_fits,
}
use dimdb.LogFile.Iterate.{IsBefore}

pub at_file-skip :
    (front bytes rest : List ℕ) (answers : List Answer)
    → length bytes ≡ 16
    → record (at_file front (bytes ++ rest) answers) { offset = length front + head_size }
      ≡ at_file (front ++ bytes) rest answers
at_file-skip front bytes rest answers e i = record {
  content = sym (append_assoc front bytes rest) i;
  offset =
      (let same : length front + head_size ≡ length (front ++ bytes) =
            omega (arith, length-append front bytes) in
          same)
        i;
  answers = answers;
}

-- A round of the loop behind which 16 bytes are skipped.
pub go_to_loop-skip :
    (fuel : ℕ) (start : ℤ) (e : LogEntry) (front bytes rest : List ℕ) (answers : List Answer)
    → IsEntry e
    → ltb_ℤ (lsn e) start ≡ true
    → length bytes ≡ 16
    → all_live answers ≡ true
    → 16 ≤ moves answers
    → (answers' : List Answer) × (go_to_loop
          (suc fuel)
          start
          (at_file front (header_bytes e.header ++ (bytes ++ rest)) answers)
        ≡ go_to_loop fuel start (at_file ((front ++ header_bytes e.header) ++ bytes) rest answers'))
      × (all_live answers' ≡ true)
      × (moves answers ≤ moves answers' + 16)
unfolding go_to_loop
go_to_loop-skip fuel start e front bytes rest answers h smaller sized live enough =
    let (answers', r, l, m) =
      read_file-next head_size front (header_bytes e.header) (bytes ++ rest) answers
        (length-header_bytes e.header) live enough in
    let back = header_of-header_bytes e.header h.lsn_fits (size_fits e h) h.module_fits in
    let small = h.small in
    let positive : ltb_ℤ e.header.data_size (pos 0) ≡ false = rw h.sized (ground arith) in
    let fits : ltb_ℤ (pos max_payload_size) e.header.data_size ≡ false =
      rw h.sized (ground arith) in
    (
      answers',
      rw (r, back, smaller, positive, fits)
          (ap (go_to_loop fuel start)
            (at_file-skip (front ++ header_bytes e.header) bytes rest answers' sized)),
      l,
      m,
    )

-- The last round: at the first entry that is not below `start`, or at the end.
pub go_to_loop-land :
    (fuel : ℕ) (start : ℤ) (entries : List LogEntry) (front : List ℕ) (answers : List Answer)
    → AreEntries entries
    → IsBefore start entries
    → all_live answers ≡ true
    → 16 ≤ moves answers
    → (answers' : List Answer) × (go_to_loop
          (suc fuel)
          start
          (at_file front (file_bytes entries) answers)
        ≡ returned (at_file front (file_bytes entries) answers', success))
      × (all_live answers' ≡ true)
      × (moves answers ≤ moves answers' + 16)
unfolding go_to_loop file_bytes
go_to_loop-land fuel start [] front answers h before live enough =
    let (answers', r, l, m) = read_file-end 15 front answers live (omega arith) in
    (answers', rw r refl, l, omega arith)
go_to_loop-land fuel start (e ∷ entries) front answers h before live enough =
    let rest = e.payload ++ file_bytes entries in
    let (answers', r, l, m) =
      read_file-next head_size front (header_bytes e.header) rest answers
        (length-header_bytes e.header) live enough in
    let back = header_of-header_bytes e.header h.0.lsn_fits (size_fits e h.0) h.0.module_fits in
    let size = length-append front (header_bytes e.header) in
    let head = length-header_bytes e.header in
    let behind : ltb (length (front ++ header_bytes e.header)) head_size ≡ false = ground arith in
    let place : length (front ++ header_bytes e.header) - head_size ≡ length front = omega arith in
    (
      answers',
      rw (r, back, before, behind, place)
          (λ i. returned (
            record {
              content = append_assoc front (header_bytes e.header) rest i;
              offset = length front;
              answers = answers';
            },
            success,
          )),
      l,
      m,
    )

pub file_bytes-append :
    (xs ys : List LogEntry) → file_bytes (xs ++ ys) ≡ file_bytes xs ++ file_bytes ys
unfolding file_bytes
file_bytes-append [] ys = refl
file_bytes-append (e ∷ xs) ys = simp (file_bytes-append xs ys, append_assoc)

pub length-file_bytes-append :
    (xs ys : List LogEntry)
    → length (file_bytes (xs ++ ys)) ≡ length (file_bytes xs) + length (file_bytes ys)
length-file_bytes-append xs ys =
    ap (λ (l : List ℕ). length l) (file_bytes-append xs ys)
    ∙ length-append (file_bytes xs) (file_bytes ys)

-- Entries with LSNs below `start`, and payloads of 16 bytes.
abbrev pub AreSkipped : ℤ → List LogEntry → Type 0
AreSkipped start [] = Unit
AreSkipped start (e ∷ entries) =
    (ltb_ℤ (lsn e) start ≡ true) × (length e.payload ≡ 16) × AreSkipped start entries

pub go_to_loop-skip_all :
    (skipped entries : List LogEntry) (fuel : ℕ) (start : ℤ) (front : List ℕ)
    (answers : List Answer)
    → length skipped < fuel
    → AreEntries skipped
    → AreSkipped start skipped
    → AreEntries entries
    → IsBefore start entries
    → all_live answers ≡ true
    → length (file_bytes skipped) + 16 ≤ moves answers
    → (front' : List ℕ) × (answers' : List Answer) × (go_to_loop fuel start
          (at_file front (file_bytes (skipped ++ entries)) answers)
        ≡ returned (at_file front' (file_bytes entries) answers', success))
      × (all_live answers' ≡ true)
      × (moves answers ≤ moves answers' + length (file_bytes skipped) + 16)
unfolding file_bytes
go_to_loop-skip_all skipped entries zero start front answers f h s h' before live enough =
    absurd (omega arith)
go_to_loop-skip_all [] entries (suc fuel) start front answers f h s h' before live enough =
    let (answers', r, l, m) =
      go_to_loop-land fuel start entries front answers h' before live (omega arith) in
    (front, answers', r, l, omega arith)
go_to_loop-skip_all (e ∷ skipped) entries (suc fuel) start front answers f h s h' before live
      enough =
    let total = length-append (header_bytes e.header) (e.payload ++ file_bytes skipped) in
    let total' = length-append e.payload (file_bytes skipped) in
    let head = length-header_bytes e.header in
    let (answers1, r1, l1, m1) =
      go_to_loop-skip fuel start e front e.payload (file_bytes (skipped ++ entries)) answers h.0 s.0
        s.1 live (let sized = s.1 in omega arith) in
    let (front', answers', r, l, m) =
      go_to_loop-skip_all skipped entries fuel start ((front ++ header_bytes e.header) ++ e.payload)
        answers1 (omega arith) h.1 s.2 h' before l1 (let sized = s.1 in omega arith) in
    (front', answers', r1 ∙ r, l, (let sized = s.1 in omega arith))

pub go_to-go_to_loop :
    (r : LogFileReader) (start : ℤ) (file : File) (bytes : List ℕ)
    → is_negative r.fd ≡ false
    → file.content ≡ bytes
    → go_to r start file
      ≡ go_to_loop (suc (length file.content)) start (at_file [] bytes file.answers)
unfolding go_to
go_to-go_to_loop r start file bytes open_r e = rw open_r (
    ap (λ (l : List ℕ). go_to_loop (suc (length file.content)) start (at_file [] l file.answers)) e)
