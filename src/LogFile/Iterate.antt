-- ===== src/LogFile/Iterate.antt =====
-- `iterate` passes the entries of a file to the callback, in order.
use dimdb.Prelude.{
  ℕ, zero, suc, ◌+◌, ◌≤◌, ◌<◌, ◌≡◌, refl, ◌∙◌, ap, true, false, List, [], ◌∷◌, ◌++◌, length,
  length-append, if◌then◌else◌, arith, Bool-cases, inl, inr,
}
use dimdb.Prelude.Int.{ℤ, pos, negsuc, ltb_ℤ}
use dimdb.Rc.{Rc, success, is_fail}
use dimdb.Io.{Answer, returned, all_live, moves}
use dimdb.Frame.{to_size}
use dimdb.LogEntry.{LogEntry, head_size, lsn}
use dimdb.LogFile.{
  File, LogFileReader, read_file, header_bytes, is_negative, go_to_loop, go_to, iterate_loop,
  iterate,
}
use dimdb.LogFile.Bytes.{length-header_bytes, header_of-header_bytes}
use dimdb.LogFile.Entries.{
  file_bytes, IsEntry, AreEntries, at_file, read_file-next, read_file-end, to_size-small,
  init-entry, size_fits, length-file_bytes,
}

-- An LSN that is not above that of the file's first entry.
abbrev pub IsBefore : ℤ → List LogEntry → Type 0
IsBefore start [] = Unit
IsBefore start (e ∷ entries) = ltb_ℤ (lsn e) start ≡ false

-- `go_to` an LSN that is not above the first entry's stays at the start of the file.
go_to-start :
    (r : LogFileReader) (start : ℤ) (entries : List LogEntry) (file : File)
    → is_negative r.fd ≡ false
    → AreEntries entries
    → IsBefore start entries
    → file.content ≡ file_bytes entries
    → all_live file.answers ≡ true
    → 16 < moves file.answers
    → (answers' : List Answer) × (go_to r start file
        ≡ returned (at_file [] (file_bytes entries) answers', success))
      × (all_live answers' ≡ true)
      × (moves file.answers ≤ moves answers' + 16)
unfolding go_to go_to_loop file_bytes
go_to-start r start [] file open_r h before e live enough =
    let (answers', r1, l, m) = read_file-end 15 [] file.answers live (omega arith) in
    (answers', rw (open_r, e, r1) refl, l, omega arith)
go_to-start r start (f ∷ entries) file open_r h before e live enough =
    let total = length-append (header_bytes f.header) (f.payload ++ file_bytes entries) in
    let (answers', r1, l, m) =
      read_file-next head_size [] (header_bytes f.header) (f.payload ++ file_bytes entries)
        file.answers (length-header_bytes f.header) live (omega arith) in
    let back = header_of-header_bytes f.header h.0.lsn_fits (size_fits f h.0) h.0.module_fits in
    (answers', rw (open_r, e, r1, back, before, length-header_bytes f.header) refl, l, omega arith)

-- The callback on the entries in order, up to the first failure.
module _ {S : Type 0} (callback : LogEntry → S → S × Rc) where
  unfoldable pub visit_all : List LogEntry → S → S × Rc
  visit_all [] s = (s, success)
  visit_all (e ∷ entries) s =
      let (s', rc) = callback e s in
      let rest = visit_all entries s' in if is_fail rc then (s', rc) else rest

  -- One round of the loop, given what its two reads return.
  iterate_loop_at_entry :
      (fuel : ℕ) (s : S) (e : LogEntry) (file file1 file2 : File)
      → IsEntry e
      → read_file head_size file ≡ returned (pos 0, header_bytes e.header, file1)
      → read_file (length e.payload) file1 ≡ returned (pos 0, e.payload, file2)
      → iterate_loop callback (suc fuel) s file ≡ (
          if is_fail (callback e s).1
          then returned ((callback e s).0, file2, (callback e s).1)
          else iterate_loop callback fuel (callback e s).0 file2)
  unfolding iterate_loop
  iterate_loop_at_entry fuel s e file file1 file2 h r1 r2 =
      let back = header_of-header_bytes e.header h.lsn_fits (size_fits e h) h.module_fits in
      let size : to_size e.header.data_size ≡ length e.payload =
        ap to_size h.sized
        ∙ to_size-small (length e.payload) (let small = h.small in omega arith) in
      let positive : is_negative e.header.data_size ≡ false = rw h.sized (ground arith) in
      rw (r1, back, positive, size, r2, init-entry e h) refl

  -- The last round, at the end of the file.
  iterate_loop_at_end :
      (fuel : ℕ) (s : S) (file file1 : File)
      → read_file head_size file ≡ returned (negsuc 0, [], file1)
      → iterate_loop callback (suc fuel) s file ≡ returned (s, file1, success)
  unfolding iterate_loop
  iterate_loop_at_end fuel s file file1 r1 = rw r1 refl

  pub iterate_loop-visit_all :
      (fuel : ℕ) (entries : List LogEntry) (s : S) (front : List ℕ) (answers : List Answer)
      → length entries < fuel
      → AreEntries entries
      → all_live answers ≡ true
      → length (file_bytes entries) < moves answers
      → (file' : File) × (iterate_loop callback fuel s (at_file front (file_bytes entries) answers)
          ≡ returned ((visit_all entries s).0, file', (visit_all entries s).1))
  unfolding visit_all file_bytes
  iterate_loop-visit_all zero entries s front answers f h live enough = absurd (omega arith)
  iterate_loop-visit_all (suc fuel) [] s front answers f h live enough =
      let (answers', r, l, m) = read_file-end 15 front answers live (omega arith) in
      (
        at_file front [] answers',
        iterate_loop_at_end fuel s (at_file front [] answers) (at_file front [] answers') r,
      )
  iterate_loop-visit_all (suc fuel) (e ∷ entries) s front answers f h live enough =
      let total = length-append (header_bytes e.header) (e.payload ++ file_bytes entries) in
      let total' = length-append e.payload (file_bytes entries) in
      let head = length-header_bytes e.header in
      let (answers1, r1, l1, m1) =
        read_file-next head_size front (header_bytes e.header) (e.payload ++ file_bytes entries)
          answers head live (omega arith) in
      let (answers2, r2, l2, m2) =
        read_file-next (length e.payload) (front ++ header_bytes e.header) e.payload
          (file_bytes entries) answers1 refl l1 (omega arith) in
      let step =
        iterate_loop_at_entry fuel s e (at_file front (file_bytes (e ∷ entries)) answers) _ _ h.0 r1
          r2 in
      elim (Bool-cases (is_fail (callback e s).1)) [
        | inl failed ↦ (
          at_file ((front ++ header_bytes e.header) ++ e.payload) (file_bytes entries) answers2,
          step ∙ rw failed refl,
        )
        | inr fine ↦
            let (file', r) =
              iterate_loop-visit_all fuel entries (callback e s).0
                ((front ++ header_bytes e.header) ++ e.payload) answers2 (omega arith) h.1 l2
                (omega arith) in
            (file', step ∙ rw fine r)
      ]

  -- `iterate` by an open reader of a file that holds entries as `LogEntry::init` makes them, from
  -- an LSN that is not above the first one's, calls the callback on each entry in order, until it
  -- fails, and returns its last result code. This is so when no answer is an error or a premature
  -- end, and enough of them move bytes: one for each byte of the file, 16 for the first header,
  -- which is read twice, and one for the end.
  pub iterate-visit_all :
      (r : LogFileReader) (start : ℤ) (entries : List LogEntry) (s : S) (file : File)
      → is_negative r.fd ≡ false
      → AreEntries entries
      → IsBefore start entries
      → file.content ≡ file_bytes entries
      → all_live file.answers ≡ true
      → length file.content + 16 < moves file.answers
      → (file' : File) × (iterate callback r start s file
          ≡ returned ((visit_all entries s).0, file', (visit_all entries s).1))
  unfolding iterate
  iterate-visit_all r start entries s file open_r h before e live enough =
      let (answers, g, l, m) =
        go_to-start r start entries file open_r h before e live (omega arith) in
      let same = ap (λ (b : List ℕ). length b) e in
      let (file', v) =
        iterate_loop-visit_all (suc (length file.content)) entries s [] answers
          (omega (arith, length-file_bytes entries)) h l (omega arith) in
      (file', rw (open_r, g) v)
