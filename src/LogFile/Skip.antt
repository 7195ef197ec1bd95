-- ===== src/LogFile/Skip.antt =====
-- What `iterate` passes on from an LSN behind the first entry's.
use dimdb.Prelude.{
  ℕ, suc, ◌+◌, ◌-◌, ◌≤◌, ◌<◌, ◌≡◌, sym, ◌∙◌, ap, true, false, List, [], ◌∷◌, ◌++◌, length,
  length-append, append_assoc, arith,
}
use dimdb.Prelude.Int.{ℤ, ltb_ℤ}
use dimdb.Rc.{Rc, success}
use dimdb.Io.{Answer, returned, all_live, moves}
use dimdb.LogEntry.{LogEntry, lsn}
use dimdb.LogFile.{File, LogFileReader, header_bytes, is_negative, go_to_loop, go_to, iterate}
use dimdb.LogFile.Bytes.{length-header_bytes}
use dimdb.LogFile.Entries.{file_bytes, IsEntry, AreEntries, at_file, length-file_bytes}
use dimdb.LogFile.Iterate.{IsBefore, visit_all, iterate_loop-visit_all}
use dimdb.LogFile.Landing.{
  go_to_loop-skip, go_to_loop-land, file_bytes-append, length-file_bytes-append, AreSkipped,
  go_to_loop-skip_all, go_to-go_to_loop,
}

module _ {S : Type 0} (callback : LogEntry → S → S × Rc) where
  -- From where `go_to` lands, `iterate` passes the entries on.
  iterate-landed :
      (r : LogFileReader) (start : ℤ) (entries : List LogEntry) (s : S) (file : File)
      (front : List ℕ) (answers : List Answer)
      → is_negative r.fd ≡ false
      → AreEntries entries
      → go_to r start file ≡ returned (at_file front (file_bytes entries) answers, success)
      → length entries ≤ length file.content
      → all_live answers ≡ true
      → length (file_bytes entries) < moves answers
      → (file' : File) × (iterate callback r start s file
          ≡ returned ((visit_all callback entries s).0, file', (visit_all callback entries s).1))
  unfolding iterate
  iterate-landed r start entries s file front answers open_r h landed short live enough =
      let (file', v) =
        iterate_loop-visit_all callback (suc (length file.content)) entries s front answers
          (omega arith) h live enough in
      (file', rw (open_r, landed) v)

  -- An open reader of a file of entries as `LogEntry::init` makes them, of which the first have LSNs
  -- below `start` and payloads of 16 bytes, and the next one's LSN is not below `start`: `iterate`
  -- from `start` calls the callback on just the entries behind the first ones, in order, until it
  -- fails. This is so when no answer is an error or a premature end, and enough of them move bytes:
  -- one for each byte of the file, and 17 more.
  pub iterate-suffix :
      (r : LogFileReader) (start : ℤ) (skipped entries : List LogEntry) (s : S) (file : File)
      → is_negative r.fd ≡ false
      → AreEntries skipped
      → AreSkipped start skipped
      → AreEntries entries
      → IsBefore start entries
      → file.content ≡ file_bytes (skipped ++ entries)
      → all_live file.answers ≡ true
      → length file.content + 16 < moves file.answers
      → (file' : File) × (iterate callback r start s file
          ≡ returned ((visit_all callback entries s).0, file', (visit_all callback entries s).1))
  iterate-suffix r start skipped entries s file open_r h p h' before e live enough =
      let total = length-file_bytes-append skipped entries in
      let same = ap (λ (l : List ℕ). length l) e in
      let (front, answers, g, l, m) =
        go_to_loop-skip_all skipped entries (suc (length file.content)) start [] file.answers
          (omega (arith, length-file_bytes skipped)) h p h' before live (omega arith) in
      iterate-landed r start entries s file front answers open_r h'
        (go_to-go_to_loop r start file (file_bytes (skipped ++ entries)) open_r e ∙ g)
        (omega (arith, length-file_bytes entries)) l (omega arith)

  -- From an LSN above the first entry's, `iterate` takes the bytes of that entry's payload behind
  -- its first 16 for entries: where they are those of entries, of which the first is not below
  -- `start`, the callback gets these, which were never appended to the log, and then the others.
  -- The file is open, and no answer is an error or a premature end, as above.
  pub iterate-payload :
      (r : LogFileReader) (start : ℤ) (e : LogEntry) (bytes : List ℕ)
      (inner entries : List LogEntry) (s : S) (file : File)
      → is_negative r.fd ≡ false
      → IsEntry e
      → ltb_ℤ (lsn e) start ≡ true
      → e.payload ≡ bytes ++ file_bytes inner
      → length bytes ≡ 16
      → AreEntries (inner ++ entries)
      → IsBefore start (inner ++ entries)
      → file.content ≡ file_bytes (e ∷ entries)
      → all_live file.answers ≡ true
      → length file.content + 32 < moves file.answers
      → (file' : File) × (iterate callback r start s file
          ≡ returned (
            (visit_all callback (inner ++ entries) s).0,
            file',
            (visit_all callback (inner ++ entries) s).1,
          ))
  unfolding file_bytes
  iterate-payload r start e bytes inner entries s file open_r h smaller parts sized h' before
        content live enough =
      let all : file.content ≡ header_bytes e.header ++ (bytes ++ file_bytes (inner ++ entries)) =
        content
        ∙ ap (λ (l : List ℕ). header_bytes e.header ++ (l ++ file_bytes entries)) parts
        ∙ ap (λ (l : List ℕ). header_bytes e.header ++ l)
            (append_assoc bytes (file_bytes inner) (file_bytes entries)
              ∙ ap (λ (l : List ℕ). bytes ++ l) (sym (file_bytes-append inner entries))) in
      let size = ap (λ (l : List ℕ). length l) all in
      let total = length-append (header_bytes e.header) (bytes ++ file_bytes (inner ++ entries)) in
      let total' = length-append bytes (file_bytes (inner ++ entries)) in
      let head = length-header_bytes e.header in
      let count = length-file_bytes (inner ++ entries) in
      let (answers1, r1, l1, m1) =
        go_to_loop-skip (length file.content) start e [] bytes (file_bytes (inner ++ entries))
          file.answers h smaller sized live (omega arith) in
      let room : length file.content ≡ suc (length file.content - 1) = omega arith in
      let (answers2, r2, l2, m2) =
        go_to_loop-land (length file.content - 1) start (inner ++ entries)
          (header_bytes e.header ++ bytes) answers1 h' before l1 (omega arith) in
      iterate-landed r start (inner ++ entries) s file (header_bytes e.header ++ bytes) answers2
        open_r h'
        (go_to-go_to_loop r start file _ open_r all
          ∙ r1
          ∙ ap
              (λ (n : ℕ).
                go_to_loop n start (
                  at_file (header_bytes e.header ++ bytes) (file_bytes (inner ++ entries))
                    answers1))
              room
          ∙ r2)
        (omega arith) l2 (omega arith)
