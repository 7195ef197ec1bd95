-- ===== src/LogFile/Manager/Restart.antt =====
-- A manager that is set up again finds the file that `next_file` opened.
use mathlib.Core.Path.{subst}
use dimdb.Prelude.{
  ℕ, ◌≡◌, refl, sym, ap, ◌∙◌, true, false, not, Bool, ◌||◌, some, Option, List, [], ◌∷◌, ◌++◌,
  Bool-cases, Option-cases, inl, inr,
}
use dimdb.Prelude.Int.{ℤ}
use dimdb.Rc.{success}
use dimdb.Text.{decimal_ℤ}
use dimdb.Utils.{starts_with, ends_with}
use dimdb.LogFile.Manager.{
  join, has_filename, add_lsn, clog_file_prefix, clog_file_suffix, clog_file_name,
  get_lsn_from_filename, LogFileManager, new_log_files, add_lsn, insert_file, last_of, scan, init,
  last_file, next_file, next_lsn_of,
}
use dimdb.LogFile.{LogFileWriter, open_writer, close_writer, is_negative}
use dimdb.LogFile.Manager.Sorted.{IsSorted, scan-IsSorted}
use dimdb.LogFile.Manager.Names.{
  clog_file_name-ends_with, clog_file_name-starts_with, get_lsn_from_filename-clog_file_name,
}
use dimdb.LogFile.Manager.Below.{
  last_of-append, IsBelow, insert_file-IsBelow, insert_file-append, IsBelow-insert_file,
  next_lsn_of-IsBelow, advances,
}

module _ (stol : List ℕ → Option ℤ) (dir : List ℕ) where
  scan-append :
      (xs ys : List (Bool × List ℕ)) (files : List (ℤ × List ℕ))
      → scan stol dir (xs ++ ys) files ≡ scan stol dir ys (scan stol dir xs files)
  unfolding scan
  scan-append [] ys files = refl
  scan-append ((regular, name) ∷ xs) ys files = elim (Bool-cases regular) [
    | inr r ↦ rw r (scan-append xs ys files)
    | inl r ↦
        elim (Bool-cases
          (not (starts_with name clog_file_prefix) || not (ends_with name clog_file_suffix))) [
            | inl n ↦ rw (r, n) (scan-append xs ys files)
            | inr n ↦ elim (Option-cases (get_lsn_from_filename stol name)) [
              | inl o ↦ rw (r, n, o) (scan-append xs ys files)
              | inr (lsn, o) ↦
                  rw (r, n, o) (scan-append xs ys (insert_file lsn (join dir name) files))
            ]
          ]
  ]

  scan-clog_file_name :
      (lsn : ℤ) (ys : List (Bool × List ℕ)) (files : List (ℤ × List ℕ))
      → stol (decimal_ℤ lsn) ≡ some lsn
      → scan stol dir ((true, clog_file_name lsn) ∷ ys) files
        ≡ scan stol dir ys (insert_file lsn (join dir (clog_file_name lsn)) files)
  unfolding scan
  scan-clog_file_name lsn ys files h = rw (clog_file_name-starts_with lsn) (
      rw (clog_file_name-ends_with lsn) (rw (get_lsn_from_filename-clog_file_name stol lsn h) refl))

  -- A file behind all that the loop finds stays there.
  scan-IsBelow :
      (n : ℤ) (path : List ℕ) (ys : List (Bool × List ℕ)) (files : List (ℤ × List ℕ))
      → IsBelow n (scan stol dir ys files)
      → IsBelow n files
        × (scan stol dir ys (files ++ (n, path) ∷ []) ≡ scan stol dir ys files ++ (n, path) ∷ [])
  unfolding scan
  scan-IsBelow n path [] files = λ b. (b, refl)
  scan-IsBelow n path ((regular, name) ∷ ys) files = elim (Bool-cases regular) [
    | inr r ↦ rw r (scan-IsBelow n path ys files)
    | inl r ↦
        elim (Bool-cases
          (not (starts_with name clog_file_prefix) || not (ends_with name clog_file_suffix))) [
            | inl m ↦ rw (r, m) (scan-IsBelow n path ys files)
            | inr m ↦ elim (Option-cases (get_lsn_from_filename stol name)) [
              | inl o ↦ rw (r, m, o) (scan-IsBelow n path ys files)
              | inr (lsn, o) ↦
                  rw (r, m, o)
                    (λ (b : IsBelow n (scan stol dir ys (insert_file lsn (join dir name) files))).
                      let (inserted, e) =
                        scan-IsBelow n path ys (insert_file lsn (join dir name) files) b in
                      let (less, b') = IsBelow-insert_file n lsn (join dir name) files inserted in
                      (
                        b',
                        ap (scan stol dir ys)
                              (insert_file-append n lsn path (join dir name) files less)
                            ∙ e,
                      ))
            ]
          ]
  ]

  -- The manager's files with that of the next LSN, wherever the directory lists it.
  scan-next :
      (xs ys : List (Bool × List ℕ)) (m : LogFileManager)
      → m.log_files ≡ scan stol dir (xs ++ ys) []
      → advances m ≡ true
      → stol (decimal_ℤ (next_lsn_of m)) ≡ some (next_lsn_of m)
      → scan stol dir (xs ++ (true, clog_file_name (next_lsn_of m)) ∷ ys) []
        ≡ m.log_files ++ (next_lsn_of m, join dir (clog_file_name (next_lsn_of m))) ∷ []
  scan-next xs ys m e larger h =
      let lsn = next_lsn_of m in
      let path = join dir (clog_file_name lsn) in
      let front = scan stol dir xs [] in
      let sorted = subst IsSorted (sym e) (scan-IsSorted stol dir (xs ++ ys) [] tt) in
      let same = e ∙ scan-append xs ys [] in
      let (b, kept) =
        scan-IsBelow lsn path ys front
          (subst (IsBelow lsn) same (next_lsn_of-IsBelow m sorted larger)) in
      scan-append xs ((true, clog_file_name lsn) ∷ ys) []
      ∙ scan-clog_file_name lsn ys front h
      ∙ ap (scan stol dir ys) (insert_file-IsBelow lsn path front b)
      ∙ kept
      ∙ ap (λ (files : List (ℤ × List ℕ)). files ++ (lsn, path) ∷ []) (sym same)

close_writer-closed : (w : LogFileWriter) → is_negative (close_writer w).0.fd ≡ true
unfolding close_writer
close_writer-closed w = elim (Bool-cases (is_negative w.fd)) [ inl e ↦ rw e e | inr e ↦ rw e refl ]

open_writer-closed :
    (w : LogFileWriter) (filename : List ℕ) (end_lsn fd : ℤ)
    → is_negative w.fd ≡ true
    → is_negative fd ≡ false
    → open_writer w filename end_lsn fd
      ≡ (record w { fd = fd; filename = filename; end_lsn = end_lsn }, success)
unfolding open_writer
open_writer-closed w filename end_lsn fd shut valid = rw (shut, valid) refl

last_file-last_of :
    (m : LogFileManager) (w : LogFileWriter) (fd lsn : ℤ) (path : List ℕ)
    → last_of m.log_files ≡ some (lsn, path)
    → last_file m w fd ≡ open_writer w path (add_lsn lsn m.max_entry_number_per_file) fd
unfolding last_file
last_file-last_of m w fd lsn path e = rw (e, last_file) refl

join-separate : (dir name : List ℕ) → has_filename dir ≡ true → join dir name ≡ dir ++ 47 ∷ name
unfolding join
join-separate dir name e = rw e refl

module _ (stol : List ℕ → Option ℤ) (created : Bool) (xs ys : List (Bool × List ℕ)) (dir : List ℕ)
    (max_file_count : ℤ) where
  -- A manager over a directory opens its next file. A manager that is set up again with the same
  -- number of entries per file, while the directory lists that file too, in whatever place, opens
  -- the same file as its last one, up to the same LSN. This is so when the directory's path is not
  -- empty and does not end with a slash, the next LSN is above the last file's, `stol` reads its
  -- text, both calls of `open` give a descriptor, and the second writer is not open.
  pub last_file-next_file :
      (w w' : LogFileWriter) (fd fd' : ℤ)
      → let m = (init stol true created (xs ++ ys) new_log_files dir max_file_count).0 in
        has_filename dir ≡ true
        → advances m ≡ true
        → stol (decimal_ℤ (next_lsn_of m)) ≡ some (next_lsn_of m)
        → is_negative fd ≡ false
        → is_negative fd' ≡ false
        → is_negative w'.fd ≡ true
        → let found : Bool × List ℕ = (true, clog_file_name (next_lsn_of m)) in
          let again =
            (init stol true created (xs ++ found ∷ ys) new_log_files dir max_file_count).0 in
          let (opened, rc) = next_file m w fd in
          let (reopened, rc') = last_file again w' fd' in
          (rc ≡ success)
          × (rc' ≡ success)
          × (reopened.filename ≡ opened.filename)
          × (reopened.end_lsn ≡ opened.end_lsn)
          × (opened.end_lsn ≡ add_lsn (next_lsn_of m) max_file_count)
  unfolding init next_file
  last_file-next_file w w' fd fd' separate larger read valid valid' shut =
      let m = (init stol true created (xs ++ ys) new_log_files dir max_file_count).0 in
      let lsn = next_lsn_of m in
      let found : Bool × List ℕ = (true, clog_file_name lsn) in
      let again = (init stol true created (xs ++ found ∷ ys) new_log_files dir max_file_count).0 in
      let end_lsn = add_lsn lsn max_file_count in
      let path = dir ++ 47 ∷ clog_file_name lsn in
      let joined = join dir (clog_file_name lsn) in
      let new : ℤ × List ℕ = (lsn, joined) in
      let first =
        open_writer-closed (close_writer w).0 path end_lsn fd (close_writer-closed w) valid in
      let last =
        ap last_of (scan-next stol dir xs ys m refl larger read) ∙ last_of-append m.log_files new in
      let second =
        last_file-last_of again w' fd' lsn joined last
        ∙ open_writer-closed w' joined end_lsn fd' shut valid' in
      rw (first, second) (refl, refl, join-separate dir (clog_file_name lsn) separate, refl, refl)
