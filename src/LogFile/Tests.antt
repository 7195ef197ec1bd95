-- ===== src/LogFile/Tests.antt =====
-- Runs of the log file, and the theorems at two entries of one and two bytes.
use dimdb.Prelude.{
  ℕ, ◌+◌, ◌-◌, ◌*◌, ◌≤◌, ◌<◌, ◌≡◌, refl, Bool, true, false, Option, none, some, List, [], ◌∷◌, ◌++◌,
  length, replicate, arith,
}
use dimdb.Prelude.Int.{ℤ, pos}
use dimdb.Rc.{Rc, success}
use dimdb.Io.{Answer, moved, returned, all_soft, all_live, moves, readn}
use dimdb.Frame.{to_size}
use dimdb.LogEntry.{LogEntry, to_int32}
use dimdb.LogFile.{
  File, LogFileReader, LogFileWriter, new_reader, new_writer, header_bytes, header_of, le, from_le,
  bits_32, to_int64, iterate, iterate_loop, go_to, go_to_loop, read_file,
}
use dimdb.LogFile.Entries.{IsEntry, file_bytes}
use dimdb.LogFile.Iterate.{visit_all}
use dimdb.LogFile.Skip.{iterate-suffix, iterate-payload}
use dimdb.LogFile.Manager.{
  new_log_files, init, last_file, next_file, clog_file_name, next_lsn_of, scan,
  get_lsn_from_filename, insert_file, last_of, add_lsn, has_filename, add_ℤ,
}
use dimdb.LogFile.Manager.Restart.{last_file-next_file}
use dimdb.Text.{decimal_ℤ}
use dimdb.Utils.{starts_with, ends_with}

abbrev first : LogEntry
first = record {
  header = record { lsn = pos 1; data_size = pos 1; module_id = pos 0 };
  payload = 65 ∷ [];
}

abbrev second : LogEntry
second = record {
  header = record { lsn = pos 2; data_size = pos 2; module_id = pos 3 };
  payload = 66 ∷ 67 ∷ [];
}

first-IsEntry : IsEntry first
first-IsEntry = record {
  lsn_fits = omega arith;
  module_fits = omega arith;
  sized = refl;
  small = omega arith;
}

second-IsEntry : IsEntry second
second-IsEntry = record {
  lsn_fits = omega arith;
  module_fits = omega arith;
  sized = refl;
  small = omega arith;
}

abbrev answers : List Answer
answers = replicate 60 (moved 7)

abbrev reader : LogFileReader
reader = record new_reader { fd = pos 3 }

abbrev writer : LogFileWriter
writer = record new_writer { fd = pos 4; end_lsn = pos 100 }

abbrev collect : LogEntry → List LogEntry → List LogEntry × Rc
collect e seen = (seen ++ e ∷ [], success)

abbrev both : List LogEntry
both = first ∷ second ∷ []

abbrev file : File
file = record { content = file_bytes both; offset = 0; answers = answers }

live : all_live answers ≡ true
unfolding all_live replicate
live = refl

soft : all_soft answers ≡ true
unfolding all_soft replicate
soft = refl

enough : length (file_bytes both) + 16 < moves answers
unfolding file_bytes header_bytes le moves replicate
enough = omega arith

-- "clog_7.log", and the number that digits stand for.
abbrev seventh : List ℕ
seventh = 99 ∷ 108 ∷ 111 ∷ 103 ∷ 95 ∷ 55 ∷ 46 ∷ 108 ∷ 111 ∷ 103 ∷ []

digits_from : ℕ → List ℕ → ℕ
digits_from n [] = n
digits_from n (digit ∷ digits) = digits_from (10 * n + (digit - 48)) digits

digits_value : List ℕ → Option ℤ
digits_value digits = some (pos (digits_from 0 digits))

last_file-next_file_example :
    let m =
      (init digits_value true false ((true, seventh) ∷ []) new_log_files (100 ∷ []) (pos 3)).0 in
    let found : Bool × List ℕ = (true, clog_file_name (next_lsn_of m)) in
    let again =
      (init digits_value true false
        (found ∷ (true, seventh) ∷ [])
        new_log_files
        (100 ∷ [])
        (pos 3)).0 in
    let (opened, rc) = next_file m writer (pos 5) in
    let (reopened, rc') = last_file again new_writer (pos 6) in
    (rc ≡ success)
    × (rc' ≡ success)
    × (reopened.filename ≡ opened.filename)
    × (reopened.end_lsn ≡ opened.end_lsn)
    × (opened.end_lsn ≡ pos 13)
unfolding has_filename add_lsn to_int64 to_size digits_value digits_from init scan
    get_lsn_from_filename insert_file next_lsn_of last_of add_ℤ decimal_ℤ starts_with ends_with
    dimdb.Prelude.take dimdb.Prelude.drop dimdb.Text.decimal dimdb.Text.digits
last_file-next_file_example =
    last_file-next_file digits_value false [] ((true, seventh) ∷ []) (100 ∷ []) (pos 3) writer
      new_writer (pos 5) (pos 6) refl refl refl refl refl refl

-- From LSN 2 on the same file, `go_to` skips 16 bytes in place of the first payload's one, and
-- `iterate` reports success without the second entry.
iterate-skips :
    iterate collect reader (pos 2) [] file
    ≡ returned ([], record file { offset = 35; answers = replicate 54 (moved 7) }, success)
unfolding iterate iterate_loop go_to go_to_loop read_file readn file_bytes header_bytes header_of le
    from_le bits_32 to_int64 to_int32 to_size replicate dimdb.Prelude.drop dimdb.Prelude.take
iterate-skips = refl

abbrev zeros : List ℕ
zeros = 0 ∷ 0 ∷ 0 ∷ 0 ∷ 0 ∷ 0 ∷ 0 ∷ 0 ∷ 0 ∷ 0 ∷ 0 ∷ 0 ∷ 0 ∷ 0 ∷ 0 ∷ 0 ∷ []

-- An entry of 16 bytes, and one with the bytes of another in it.
abbrev sixteen : LogEntry
sixteen = record {
  header = record { lsn = pos 1; data_size = pos 16; module_id = pos 0 };
  payload = zeros;
}

abbrev carrier : LogEntry
carrier = record {
  header = record { lsn = pos 1; data_size = pos 34; module_id = pos 0 };
  payload = zeros ++ file_bytes (second ∷ []);
}

sixteen-IsEntry : IsEntry sixteen
sixteen-IsEntry = record {
  lsn_fits = omega arith;
  module_fits = omega arith;
  sized = refl;
  small = omega arith;
}

carrier-IsEntry : IsEntry carrier
unfolding file_bytes header_bytes le
carrier-IsEntry = record {
  lsn_fits = omega arith;
  module_fits = omega arith;
  sized = refl;
  small = omega arith;
}

abbrev many : List Answer
many = replicate 100 (moved 7)

many_live : all_live many ≡ true
unfolding all_live replicate
many_live = refl

iterate-suffix_example :
    (file' : File) × (iterate collect reader
        (pos 2)
        []
        (record { content = file_bytes (sixteen ∷ second ∷ []); offset = 0; answers = many })
      ≡ returned (second ∷ [], file', success))
unfolding visit_all
iterate-suffix_example =
    iterate-suffix collect reader (pos 2) (sixteen ∷ []) (second ∷ []) []
      (record { content = file_bytes (sixteen ∷ second ∷ []); offset = 0; answers = many }) refl
      (sixteen-IsEntry, tt) (refl, refl, tt) (second-IsEntry, tt) refl refl many_live
      (unfold file_bytes header_bytes le moves replicate in omega arith)

iterate-payload_example :
    (file' : File) × (iterate collect reader
        (pos 2)
        []
        (record { content = file_bytes (carrier ∷ []); offset = 0; answers = many })
      ≡ returned (second ∷ [], file', success))
unfolding visit_all
iterate-payload_example =
    iterate-payload collect reader (pos 2) carrier zeros (second ∷ []) [] []
      (record { content = file_bytes (carrier ∷ []); offset = 0; answers = many }) refl
      carrier-IsEntry refl refl refl (second-IsEntry, tt) refl refl many_live
      (unfold file_bytes header_bytes le moves replicate in omega arith)
