-- ===== src/LogFile/Append.antt =====
-- `write` appends the bytes of an entry, and refuses what it must not write.
use dimdb.Prelude.{
  ℕ, ◌+◌, ◌≤◌, ◌≡◌, refl, sym, ◌∙◌, ap, true, false, List, [], ◌∷◌, ◌++◌, length, length-append,
  take, take-length, append_nil, append_assoc, arith,
}
use dimdb.Prelude.Int.{ltb_ℤ}
use dimdb.Rc.{success, file_full}
use dimdb.Io.{Answer, returned, all_soft, moves}
use dimdb.Io.Write.{writen_complete}
use dimdb.Frame.{to_size}
use dimdb.LogEntry.{LogEntry, lsn}
use dimdb.LogFile.{File, LogFileWriter, append_file, header_bytes, is_negative, write}
use dimdb.LogFile.Entries.{IsEntry, file_bytes, to_size-small}

append_file_complete :
    (bytes : List ℕ) (file : File)
    → all_soft file.answers ≡ true
    → length bytes ≤ moves file.answers
    → (answers' : List Answer) × (append_file bytes file
        ≡ returned (0, record file { content = file.content ++ bytes; answers = answers' }))
      × (all_soft answers' ≡ true)
      × (moves file.answers ≤ moves answers' + length bytes)
unfolding append_file
append_file_complete bytes file soft enough =
    let (answers', w, s, m) = writen_complete file.answers bytes file.content soft enough in
    (answers', rw w refl, s, m)

take-sized : (e : LogEntry) → IsEntry e → take (to_size e.header.data_size) e.payload ≡ e.payload
take-sized e h =
    let size : to_size e.header.data_size ≡ length e.payload =
      ap to_size h.sized ∙ to_size-small (length e.payload) (let small = h.small in omega arith) in
    ap (λ (n : ℕ). take n e.payload) size
    ∙ ap (λ (l : List ℕ). take (length e.payload) l) (sym (append_nil e.payload))
    ∙ take-length e.payload []

module _ (e : LogEntry) (w : LogFileWriter) (file : File) (open_w : is_negative w.fd ≡ false) where
  -- `write` by an open writer of an entry as `LogEntry::init` makes it, below the file's last LSN,
  -- appends the entry's bytes to the file and notes its LSN, when no answer is an error and enough
  -- of them move bytes.
  pub write-file_bytes :
      IsEntry e
      → ltb_ℤ (lsn e) w.end_lsn ≡ true
      → all_soft file.answers ≡ true
      → length (file_bytes (e ∷ [])) ≤ moves file.answers
      → (file' : File) × (write e w file ≡ returned (record w { last_lsn = lsn e }, file', success))
        × (file'.content ≡ file.content ++ file_bytes (e ∷ []))
        × (file'.offset ≡ file.offset)
        × (all_soft file'.answers ≡ true)
        × (moves file.answers ≤ moves file'.answers + length (file_bytes (e ∷ [])))
  unfolding write file_bytes
  write-file_bytes h below soft enough =
      let total = length-append (header_bytes e.header) (e.payload ++ []) in
      let same = append_nil e.payload in
      let sizes = ap (λ (l : List ℕ). length l) same in
      let (answers1, w1, s1, m1) =
        append_file_complete (header_bytes e.header) file soft (omega arith) in
      let file1 : File = record file {
        content = file.content ++ header_bytes e.header;
        answers = answers1;
      } in
      let (answers2, w2, s2, m2) = append_file_complete e.payload file1 s1 (omega arith) in
      (
        record file {
          content = (file.content ++ header_bytes e.header) ++ e.payload;
          answers = answers2;
        },
        rw (open_w, below, w1, take-sized e h, w2) refl,
        append_assoc file.content (header_bytes e.header) e.payload
            ∙ ap (λ (l : List ℕ). file.content ++ (header_bytes e.header ++ l)) (sym same),
        refl,
        s2,
        omega arith,
      )

  -- `write` of an entry from the file's last LSN on writes nothing and returns FILE_FULL.
  pub write_full : ltb_ℤ (lsn e) w.end_lsn ≡ false → write e w file ≡ returned (w, file, file_full)
  unfolding write
  write_full above = rw (open_w, above) refl
