-- ===== src/LogFile/Manager.antt =====
-- src/dimserver/storage/clog/log_file.h and log_file.cpp: `LogFileManager`.
--
-- A path is the list of its bytes. What the file system answers is an argument: whether the
-- directory exists or can be made, and the entries that it lists, each with whether it is a regular
-- file. `stol` is the standard library's conversion, with `none` for an exception. A sum of
-- LSNs wraps around.
pub mod Sorted
pub mod Names
pub mod Below
pub mod Restart
use dimdb.Prelude.{
  ℕ, zero, suc, ◌+◌, ◌-◌, ◌≡◌, Bool, true, false, not, ◌&&◌, ◌||◌, Option, none, some, List, [],
  ◌∷◌, ◌++◌, length, take, drop, ltb, ◌==◌, if◌then◌else◌,
}
use dimdb.Prelude.Int.{ℤ, pos, negsuc, ltb_ℤ}
use dimdb.Rc.{Rc, success, file_name_invalid, file_create_err, file_not_found, is_fail}
use dimdb.Text.{decimal_ℤ}
use dimdb.Utils.{starts_with, ends_with}
use dimdb.Frame.{eq_ℤ, to_size}
use dimdb.LogFile.{to_int64, LogFileWriter, open_writer, close_writer}

-- "clog_" and ".log"
abbrev pub clog_file_prefix : List ℕ
clog_file_prefix = 99 ∷ 108 ∷ 111 ∷ 103 ∷ 95 ∷ []

abbrev pub clog_file_suffix : List ℕ
clog_file_suffix = 46 ∷ 108 ∷ 111 ∷ 103 ∷ []

-- The map from first LSNs to paths, in the order of its keys.
pub record LogFileManager : Type 0 where
  pub dir : List ℕ
  pub max_entry_number_per_file : ℤ
  pub log_files : List (ℤ × List ℕ)

abbrev pub new_log_files : LogFileManager
new_log_files = record { dir = []; max_entry_number_per_file = pos 0; log_files = [] }

unfoldable pub add_ℤ : ℤ → ℤ → ℤ
add_ℤ (pos a) (pos b) = pos (a + b)
add_ℤ (pos a) (negsuc b) = if ltb b a then pos (a - b - 1) else negsuc (b - a)
add_ℤ (negsuc a) (pos b) = if ltb a b then pos (b - a - 1) else negsuc (a - b)
add_ℤ (negsuc a) (negsuc b) = negsuc (a + b + 1)

-- A sum of two `int64_t`.
unfoldable pub add_lsn : ℤ → ℤ → ℤ
add_lsn a b = to_int64 (to_size (add_ℤ a b))

-- `m_log_files[lsn] = path`
unfoldable pub insert_file : ℤ → List ℕ → List (ℤ × List ℕ) → List (ℤ × List ℕ)
insert_file lsn path [] = (lsn, path) ∷ []
insert_file lsn path ((l, p) ∷ files) =
    let rest = insert_file lsn path files in
    if eq_ℤ lsn l
    then (lsn, path) ∷ files
    else if ltb_ℤ lsn l
    then (lsn, path) ∷ (l, p) ∷ files
    else (l, p) ∷ rest

-- `has_filename` of a path: it is not empty and does not end with a separator.
unfoldable pub has_filename : List ℕ → Bool
has_filename [] = false
has_filename (c ∷ []) = not (c == 47)
has_filename (c ∷ d ∷ path) = has_filename (d ∷ path)

-- `operator/` of paths, which makes the path of a directory's entry.
unfoldable pub join : List ℕ → List ℕ → List ℕ
join dir name = if has_filename dir then dir ++ 47 ∷ name else dir ++ name

-- `m_log_files.rbegin()`
unfoldable pub last_of : List (ℤ × List ℕ) → Option (ℤ × List ℕ)
last_of [] = none
last_of (f ∷ []) = some f
last_of (f ∷ g ∷ files) = last_of (g ∷ files)

module _ (stol : List ℕ → Option ℤ) where
  -- The LSN, or FILE_NAME_INVALID as `none`.
  unfoldable pub get_lsn_from_filename : List ℕ → Option ℤ
  get_lsn_from_filename filename =
      if not (starts_with filename clog_file_prefix) || not (ends_with filename clog_file_suffix)
      then none
      else let without_prefix = drop (length clog_file_prefix) filename in
        stol (take (length without_prefix - length clog_file_suffix) without_prefix)

  -- The loop of `init` over the directory's entries.
  unfoldable pub scan : List ℕ → List (Bool × List ℕ) → List (ℤ × List ℕ) → List (ℤ × List ℕ)
  scan dir [] log_files = log_files
  scan dir ((is_regular_file, filename) ∷ entries) log_files =
      if not is_regular_file
      then scan dir entries log_files
      else if not (starts_with filename clog_file_prefix)
          || not (ends_with filename clog_file_suffix)
      then scan dir entries log_files
      else elim (get_lsn_from_filename filename) [
        | none ↦ scan dir entries log_files
        | some lsn ↦ scan dir entries (insert_file lsn (join dir filename) log_files)
      ]

  unfoldable pub init :
      Bool → Bool → List (Bool × List ℕ) → LogFileManager → List ℕ → ℤ → LogFileManager × Rc
  init exists created entries m dir max_file_count =
      let m' = record m { dir = dir; max_entry_number_per_file = max_file_count } in
      if not exists && not created
      then (m', file_create_err)
      else (record m' { log_files = scan dir entries m.log_files }, success)

pub list_files : LogFileManager → ℤ → List (List ℕ)
list_files m start_lsn = paths m.log_files
  where
    paths : List (ℤ × List ℕ) → List (List ℕ)
    paths [] = []
    paths ((lsn, path) ∷ files) =
        let rest = paths files in if not (ltb_ℤ lsn start_lsn) then path ∷ rest else rest

-- `fd` is what `::open` returns.
unfoldable pub last_file : LogFileManager → LogFileWriter → ℤ → LogFileWriter × Rc
last_file m w fd = elim (last_of m.log_files) [
  | none ↦ (w, file_not_found)
  | some (lsn, path) ↦ open_writer w path (add_lsn lsn m.max_entry_number_per_file) fd
]

-- The name of the file with the first LSN.
unfoldable pub clog_file_name : ℤ → List ℕ
clog_file_name lsn = clog_file_prefix ++ (decimal_ℤ lsn ++ clog_file_suffix)

-- The first LSN of the next file.
unfoldable pub next_lsn_of : LogFileManager → ℤ
next_lsn_of m = elim (last_of m.log_files) [
  | none ↦ pos 0
  | some (lsn, path) ↦ add_lsn lsn m.max_entry_number_per_file
]

unfoldable pub next_file : LogFileManager → LogFileWriter → ℤ → LogFileWriter × Rc
next_file m w fd =
    let next_lsn = next_lsn_of m in
    open_writer (close_writer w).0 (m.dir ++ 47 ∷ clog_file_name next_lsn)
      (add_lsn next_lsn m.max_entry_number_per_file) fd
