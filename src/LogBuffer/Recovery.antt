-- ===== src/LogBuffer/Recovery.antt =====
-- From the buffer through a log file to a reader: the writer of `flush` is a `LogFileWriter`.
use dimdb.Prelude.{
  ℕ, ◌+◌, ◌≤◌, ◌<◌, ◌≡◌, refl, ◌∙◌, ap, Bool, true, false, List, [], ◌∷◌, ◌++◌, length,
  length-append, append_assoc, arith,
}
use dimdb.Prelude.Int.{ℤ}
use dimdb.Rc.{Rc, success, internal}
use dimdb.Io.{Answer, Run, returned, running, thrown, all_soft, all_live, moves}
use dimdb.LogEntry.{LogEntry, lsn}
use dimdb.LogFile.{File, LogFileReader, LogFileWriter, is_negative, write, iterate}
use dimdb.LogFile.Entries.{AreEntries, file_bytes}
use dimdb.LogFile.Iterate.{IsBefore, visit_all, iterate-visit_all}
use dimdb.LogFile.Append.{write-file_bytes}
use dimdb.LogFile.RoundTrip.{AreBelow, new_file, file_bytes-one, file_bytes-none}
use dimdb.LogBuffer.{LogBuffer, flush}
use dimdb.LogBuffer.Flush.{write_all, flush-write_all}

-- What the buffer gets of a call of the writer. One that does not return stands for a failure.
abbrev pub outcome_of :
    LogFileWriter × File → Run (LogFileWriter × File × Rc) → (LogFileWriter × File) × Rc
outcome_of before (returned (w, file, rc)) = ((w, file), rc)
outcome_of before running = (before, internal)
outcome_of before thrown = (before, internal)

unfoldable pub file_write : LogEntry → LogFileWriter × File → (LogFileWriter × File) × Rc
file_write e (w, file) = outcome_of (w, file) (write e w file)

file_write-returned :
    (e : LogEntry) (w w' : LogFileWriter) (file file' : File) (rc : Rc)
    → write e w file ≡ returned (w', file', rc)
    → file_write e (w, file) ≡ ((w', file'), rc)
unfolding file_write
file_write-returned e w w' file file' rc h = ap (outcome_of (w, file)) h

write_all-file_bytes :
    (entries : List LogEntry) (w : LogFileWriter) (file : File)
    → is_negative w.fd ≡ false
    → AreEntries entries
    → AreBelow w.end_lsn entries
    → all_soft file.answers ≡ true
    → length (file_bytes entries) ≤ moves file.answers
    → (w' : LogFileWriter) × (file' : File) × (write_all file_write entries (w, file)
        ≡ ((w', file'), [], success))
      × (file'.content ≡ file.content ++ file_bytes entries)
unfolding write_all
write_all-file_bytes [] w file open_w h below soft enough =
    (w, file, refl, file_bytes-none file.content)
write_all-file_bytes (e ∷ entries) w file open_w h below soft enough =
    let one = file_bytes-one e entries in
    let sizes = ap (λ (l : List ℕ). length l) one in
    let total = length-append (file_bytes (e ∷ [])) (file_bytes entries) in
    let (file1, w1, c1, o1, s1, m1) =
      write-file_bytes e w file open_w h.0 below.0 soft (omega arith) in
    let (w2, file2, r, c2) =
      write_all-file_bytes entries (record w { last_lsn = lsn e }) file1 open_w h.1 below.1 s1
        (omega arith) in
    (
      w2,
      file2,
      rw (file_write-returned e w (record w { last_lsn = lsn e }) file file1 success w1) r,
      c2
          ∙ ap (λ (l : List ℕ). l ++ file_bytes entries) c1
          ∙ append_assoc file.content (file_bytes (e ∷ [])) (file_bytes entries)
          ∙ ap (λ (l : List ℕ). file.content ++ l) one,
    )

module _ {S : Type 0} (callback : LogEntry → S → S × Rc) where
  -- `flush` of entries as `LogEntry::init` makes them, to an open writer of an empty file whose
  -- last LSN is above theirs, empties the buffer and succeeds. An open reader of the file, from an
  -- LSN not above the first entry's, then passes just these entries to its callback, in order,
  -- until it fails. This is so when the operating system gives no error and enough of its answers
  -- move bytes: one for each byte, and for the reader 17 more.
  pub flush-iterate :
      (reaches : ℕ → ℕ → ℕ → Bool) (elapsed : ℕ) (b : LogBuffer) (w : LogFileWriter)
      (r : LogFileReader) (start : ℤ) (s : S) (writes reads : List Answer)
      → is_negative w.fd ≡ false
      → is_negative r.fd ≡ false
      → AreEntries b.entries
      → AreBelow w.end_lsn b.entries
      → IsBefore start b.entries
      → all_soft writes ≡ true
      → length (file_bytes b.entries) ≤ moves writes
      → all_live reads ≡ true
      → length (file_bytes b.entries) + 16 < moves reads
      → (w' : LogFileWriter) × (file : File) × (b' : LogBuffer) × (file' : File) × (flush file_write
            reaches elapsed
            (w, new_file writes)
            b
          ≡ ((w', file), b', success))
        × (b'.entries ≡ [])
        × (iterate callback r start s (record file { answers = reads })
            ≡ returned
                ((visit_all callback b.entries s).0, file', (visit_all callback b.entries s).1))
  flush-iterate reaches elapsed b w r start s writes reads open_w open_r h below before soft enough
        live enough' =
      let (w', file, written, content) =
        write_all-file_bytes b.entries w (new_file writes) open_w h below soft enough in
      let (f0, f1, f2) = flush-write_all file_write reaches elapsed (w, new_file writes) b in
      let same = ap (λ (l : List ℕ). length l) content in
      let (file', v) =
        iterate-visit_all callback r start b.entries s (record file { answers = reads }) open_r h
          before content live (omega arith) in
      let out = flush file_write reaches elapsed (w, new_file writes) b in
      let state : out.0 ≡ (w', file) = f0 ∙ ap (λ x. x.0) written in
      let code : out.2 ≡ success = f2 ∙ ap (λ x. x.2) written in
      (w', file, out.1, file', (λ i. (state i, out.1, code i)), f1 ∙ ap (λ x. x.1) written, v)
