-- ===== src/LogFile/RoundTrip.antt =====
-- What a writer appends to a new log file, a reader gives back.
use dimdb.Prelude.{
  ℕ, ◌+◌, ◌≤◌, ◌<◌, ◌≡◌, refl, sym, ◌∙◌, ap, true, false, List, [], ◌∷◌, ◌++◌, length,
  length-append, append_nil, append_assoc, if◌then◌else◌, arith,
}
use dimdb.Prelude.Int.{ℤ, ltb_ℤ}
use dimdb.Rc.{Rc, success, is_fail}
use dimdb.Io.{Answer, Run, returned, ◌>>=◌, all_soft, all_live, moves}
use dimdb.LogEntry.{LogEntry, lsn}
use dimdb.LogFile.{File, LogFileReader, LogFileWriter, header_bytes, is_negative, write, iterate}
use dimdb.LogFile.Entries.{AreEntries, file_bytes}
use dimdb.LogFile.Iterate.{IsBefore, visit_all, iterate-visit_all}
use dimdb.LogFile.Append.{write-file_bytes}

-- Writing entries one after the other, up to the first failure.
pub write_each : List LogEntry → LogFileWriter → File → Run (LogFileWriter × File × Rc)
write_each [] w file = returned (w, file, success)
write_each (e ∷ entries) w file = do
  (w', file', rc) ← write e w file
  let rest = write_each entries w' file'
  if is_fail rc then returned (w', file', rc) else rest

abbrev pub AreBelow : ℤ → List LogEntry → Type 0
AreBelow end_lsn [] = Unit
AreBelow end_lsn (e ∷ entries) = (ltb_ℤ (lsn e) end_lsn ≡ true) × AreBelow end_lsn entries

pub file_bytes-none : (content : List ℕ) → content ≡ content ++ file_bytes []
unfolding file_bytes
file_bytes-none content = sym (append_nil content)

pub file_bytes-one :
    (e : LogEntry) (entries : List LogEntry)
    → file_bytes (e ∷ []) ++ file_bytes entries ≡ file_bytes (e ∷ entries)
unfolding file_bytes
file_bytes-one e entries =
    append_assoc (header_bytes e.header) (e.payload ++ []) (file_bytes entries)
    ∙ ap (λ (l : List ℕ). header_bytes e.header ++ (l ++ file_bytes entries)) (append_nil e.payload)

write_each-file_bytes :
    (entries : List LogEntry) (w : LogFileWriter) (file : File)
    → is_negative w.fd ≡ false
    → AreEntries entries
    → AreBelow w.end_lsn entries
    → all_soft file.answers ≡ true
    → length (file_bytes entries) ≤ moves file.answers
    → (w' : LogFileWriter) × (file' : File) × (write_each entries w file
        ≡ returned (w', file', success))
      × (file'.content ≡ file.content ++ file_bytes entries)
unfolding write_each
write_each-file_bytes [] w file open_w h below soft enough =
    (w, file, refl, file_bytes-none file.content)
write_each-file_bytes (e ∷ entries) w file open_w h below soft enough =
    let one = file_bytes-one e entries in
    let sizes = ap (λ (l : List ℕ). length l) one in
    let total = length-append (file_bytes (e ∷ [])) (file_bytes entries) in
    let (file1, w1, c1, o1, s1, m1) =
      write-file_bytes e w file open_w h.0 below.0 soft (omega arith) in
    let (w2, file2, r, c2) =
      write_each-file_bytes entries (record w { last_lsn = lsn e }) file1 open_w h.1 below.1 s1
        (omega arith) in
    (
      w2,
      file2,
      rw w1 r,
      c2
          ∙ ap (λ (l : List ℕ). l ++ file_bytes entries) c1
          ∙ append_assoc file.content (file_bytes (e ∷ [])) (file_bytes entries)
          ∙ ap (λ (l : List ℕ). file.content ++ l) one,
    )

abbrev pub new_file : List Answer → File
new_file answers = record { content = []; offset = 0; answers = answers }

module _ {S : Type 0} (callback : LogEntry → S → S × Rc) where
  -- Entries as `LogEntry::init` makes them, below the file's last LSN and written one after the
  -- other by an open writer to an empty file, are all written. An open reader, from an LSN not
  -- above the first one's, then passes the same entries to its callback, in order, until that
  -- fails. This is so when the operating system gives no error and enough of its answers move
  -- bytes: one for each byte, and for the reader 17 more.
  pub iterate-write_each :
      (entries : List LogEntry) (w : LogFileWriter) (r : LogFileReader) (start : ℤ) (s : S)
      (writes reads : List Answer)
      → is_negative w.fd ≡ false
      → is_negative r.fd ≡ false
      → AreEntries entries
      → AreBelow w.end_lsn entries
      → IsBefore start entries
      → all_soft writes ≡ true
      → length (file_bytes entries) ≤ moves writes
      → all_live reads ≡ true
      → length (file_bytes entries) + 16 < moves reads
      → (w' : LogFileWriter) × (file : File) × (file' : File) × (write_each entries w
            (new_file writes)
          ≡ returned (w', file, success))
        × (iterate callback r start s (record file { answers = reads })
            ≡ returned ((visit_all callback entries s).0, file', (visit_all callback entries s).1))
  iterate-write_each entries w r start s writes reads open_w open_r h below before soft enough live
        enough' =
      let (w', file, written, content) =
        write_each-file_bytes entries w (new_file writes) open_w h below soft enough in
      let same = ap (λ (l : List ℕ). length l) content in
      let (file', v) =
        iterate-visit_all callback r start entries s (record file { answers = reads }) open_r h
          before content live (omega arith) in
      (w', file, file', written, v)
