-- ===== src/Logger.antt =====
-- src/dimserver/common/log/log.h and log.cpp: appenders and loggers.
--
-- Texts are lists of bytes. An appender is shared: loggers hold its address, and the store maps
-- addresses to appenders. The files are a list of names with their contents. Local time, the texts of
-- dates, which files can be opened, and whether the directory of a file is there or can be made are
-- parameters. A thread that locks a `std::mutex` of its own again waits, as with POSIX threads. What
-- goes to `std::cerr` is left out.
pub mod Names
pub mod Rotate
pub mod Filter
pub mod Loggers
pub mod Macros
pub mod Trace
pub mod Message
pub mod Manager
pub mod Shared
mod Tests
use dimdb.Prelude.{
  ℕ, zero, suc, ◌+◌, ◌%◌, ◌^◌, Bool, true, false, not, ◌&&◌, ◌||◌, Option, none, some, List, [],
  ◌∷◌, ◌++◌, length, ltb, ◌==◌, if◌then◌else◌,
}
use dimdb.Prelude.Int.{ℤ, pos}
use dimdb.Frame.{eq_ℤ}
use dimdb.LogEvent.{has_slash}
use dimdb.Outcome.{Outcome, done, deadlock, fault, exception, ◌>>=◌}
use dimdb.Utils.{equal_bytes}
use dimdb.Text.{decimal}
pub use dimdb.LogEvent.{LogLevel, trace, debug, info, warn, error, LogEvent}
unfoldable pub use dimdb.LogEvent.{level_code, below, format}

pub record StdoutLogAppender : Type 0 where
  pub level : LogLevel
  pub formatter : Option (List ℕ)

pub data LogRotate : Type 0 where
  rotate_size rotate_time : LogRotate

-- An `ofstream`: the name of the file that is open, and whether an operation has failed.
pub record Stream : Type 0 where
  pub opened : Option (List ℕ)
  pub failed : Bool

abbrev pub new_stream : Stream
new_stream = record { opened = none; failed = false }

pub record FileLogAppender : Type 0 where
  pub level : LogLevel
  pub formatter : Option (List ℕ)
  pub filename : List ℕ
  pub filestream : Stream
  pub rotate : LogRotate
  pub max_size : ℕ
  pub current_size : ℕ
  pub last_rotate_time : ℤ
  pub test_mode : Bool
  pub test_time : ℤ

abbrev pub Files : Type 0
Files = List (List ℕ × List ℕ)

-- Whether a file of that name is there.
unfoldable pub exists : List ℕ → Files → Bool
exists name [] = false
exists name ((n, content) ∷ files) = equal_bytes n name || exists name files

-- A file opened to append is made when it is not there.
unfoldable pub touch : List ℕ → Files → Files
touch name files = if exists name files then files else (name, []) ∷ files

unfoldable pub append_to : List ℕ → List ℕ → Files → Files
append_to name bytes [] = []
append_to name bytes ((n, content) ∷ files) =
    let later = append_to name bytes files in
    if equal_bytes n name then (n, content ++ bytes) ∷ files else (n, content) ∷ later

-- The C and C++ libraries and the operating system.
pub record Platform : Type 0 where
  pub mday : ℤ → ℤ
  pub mon : ℤ → ℤ
  pub year : ℤ → ℤ
  pub date_text : ℤ → List ℕ
  pub can_open : List ℕ → Bool
  pub make_directory : List ℕ → Bool

-- The index is written to the name behind a dot.
unfoldable pub indexed : List ℕ → ℕ → List ℕ
indexed name index = name ++ 46 ∷ decimal index

-- The loop for the first free index. Its rounds are bounded by the number of files; the index behind
-- them all is free.
unfoldable pub free_index : ℕ → ℕ → List ℕ → Files → ℕ
free_index zero index name files = index
free_index (suc fuel) index name files =
    let later = free_index fuel (index + 1) name files in
    if exists (indexed name index) files then later else index

abbrev pub is_some {ℓ} : {A : Type ℓ} → Option A → Bool
is_some none = false
is_some (some a) = true

-- `if (m_filestream) m_filestream.close()`: a close without an open file is a failure.
unfoldable pub close_stream : Stream → Stream
close_stream s = if s.failed then s else record { opened = none; failed = not (is_some s.opened) }

abbrev pub append_opened : Option (List ℕ) → List ℕ → Files → Files
append_opened none bytes files = files
append_opened (some name) bytes files = append_to name bytes files

-- `m_testMode ? m_testTime : std::time(nullptr)`
abbrev pub now_of : FileLogAppender → ℤ → ℤ
now_of a time = if a.test_mode then a.test_time else time

module _ (platform : Platform) where
  -- `open` to append. An open stream, one that a failure has kept from being closed, fails.
  unfoldable pub open_stream : List ℕ → Stream → Files → Stream × Files
  open_stream name s files =
      if is_some s.opened || not (platform.can_open name)
      then (record s { failed = true }, files)
      else (record { opened = some name; failed = false }, touch name files)

  unfoldable pub check_rotate : LogRotate → FileLogAppender → ℤ → Bool
  check_rotate rotate_size a time = not (ltb a.current_size a.max_size)
  check_rotate rotate_time a time =
      let now = now_of a time in
      let last = a.last_rotate_time in
      not (eq_ℤ (platform.mday now) (platform.mday last))
      || not (eq_ℤ (platform.mon now) (platform.mon last))
      || not (eq_ℤ (platform.year now) (platform.year last))

  -- The name that `createNewFile` chooses.
  unfoldable pub new_name : LogRotate → FileLogAppender → ℤ → Files → List ℕ
  new_name rotate_time a time files = a.filename ++ platform.date_text (now_of a time)
  new_name rotate_size a time files =
      indexed a.filename (free_index (length files) 0 a.filename files)

  abbrev pub rotated_at : LogRotate → FileLogAppender → ℤ → ℤ
  rotated_at rotate_time a time = now_of a time
  rotated_at rotate_size a time = a.last_rotate_time

  -- Whether the directory of the name is there, or `create_directories` makes it. A name without a
  -- slash has an empty parent path, which is never there, and from which that call throws.
  unfoldable pub has_directory : List ℕ → Bool
  has_directory filename = has_slash filename && platform.make_directory filename

  unfoldable pub create_new_file : FileLogAppender → ℤ → Files → Outcome (FileLogAppender × Files)
  create_new_file a time files =
      let (s, files') =
        open_stream (new_name a.rotate a time files) (close_stream a.filestream) files in
      if not (has_directory a.filename)
      then exception
      else done (
        record a {
          filestream = s;
          last_rotate_time = rotated_at a.rotate a time;
          current_size = 0;
        },
        files',
      )

  unfoldable pub new_appender :
      List ℕ → LogRotate → ℕ → ℤ → Files → Outcome (FileLogAppender × Files)
  new_appender filename rotate max_size time files = do
    (a, files') ←
        create_new_file
          (record {
            level = info;
            formatter = none;
            filename = filename;
            filestream = new_stream;
            rotate = rotate;
            max_size = max_size;
            current_size = 0;
            last_rotate_time = pos 0;
            test_mode = false;
            test_time = pos 0;
          })
          time files
    done (record a { last_rotate_time = time }, files')

  -- `reopen`, by a thread that does not hold the appender's mutex.
  unfoldable pub reopen : FileLogAppender → Files → FileLogAppender × Files × Bool
  reopen a files =
      let (s, files') = open_stream a.filename (close_stream a.filestream) files in
      (record a { filestream = s }, files', is_some s.opened)

  -- A line goes to the open file, unless the stream has failed.
  unfoldable pub write_line : List ℕ → FileLogAppender → Files → FileLogAppender × Files
  write_line line a files =
      let size = (a.current_size + (length line + 1)) % 2 ^ 64 in
      let written = append_opened a.filestream.opened (line ++ 10 ∷ []) files in
      (record a { current_size = size }, (if a.filestream.failed then files else written))

  unfoldable pub formatted : Option (List ℕ) → LogEvent → Outcome (List ℕ)
  formatted none event = fault
  formatted (some pattern) event = done (format pattern event)

  -- `log` holds the mutex that `reopen` locks.
  unfoldable pub log_file :
      FileLogAppender → LogEvent → ℤ → Files → Outcome (FileLogAppender × Files)
  log_file a event time files =
      let created = create_new_file a time files in
      let write = do
        (a', files') ← if check_rotate a.rotate a time then created else done (a, files)
        let written = do line ← formatted a'.formatter event; done (write_line line a' files')
        if not (is_some a'.filestream.opened) then deadlock else written
      in if below event.level a.level then done (a, files) else write

  unfoldable pub log_stdout : StdoutLogAppender → LogEvent → List (List ℕ) → Outcome (List (List ℕ))
  log_stdout a event output =
      let write = do line ← formatted a.formatter event; done (output ++ line ∷ [])
      in if below event.level a.level then done output else write
