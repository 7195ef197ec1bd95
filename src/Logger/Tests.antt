-- ===== src/Logger/Tests.antt =====
-- Loggers at work, and the theorems on concrete ones.
use dimdb.Prelude.{
  ℕ, ◌≡◌, ◌≢◌, refl, false, true, none, some, List, [], ◌∷◌, ◌==◌, if◌then◌else◌, take,
}
use dimdb.Prelude.Int.{pos}
use dimdb.Outcome.{done, deadlock}
use dimdb.Utils.{equal_bytes}
use dimdb.Logger.{
  LogEvent, FileLogAppender, Platform, Files, new_stream, debug, info, warn, error, below,
  level_code, format, rotate_size, new_appender, has_directory, new_name, indexed, exists,
  free_index, log_file,
}
use dimdb.Text.{codes, decimal, decimal_ℤ, digits}
use dimdb.Regex.{regex_replace, replace_from, matches, matches_byte, expand}
use dimdb.LogEvent.{level_text, has_slash}
use dimdb.Logger.Loggers.{Logger, World, stdout, new_logger}
use dimdb.Logger.Manager.{LogManager, find, get_logger}
use dimdb.Logger.Macros.{log_level}
use dimdb.Logger.Trace.{hex_digits, address_lines, stacktrace}
use dimdb.Logger.Message.{log_level-lines}
use dimdb.Logger.Filter.{lines, log_file-new_appender}
use dimdb.Logger.Rotate.{IsFirstFree, new_name-IsFirstFree}
use dimdb.Logger.Shared.{IsValid, get_logger-IsValid}

-- No file can be opened.
abbrev platform : Platform
platform = record {
  mday = λ time. time;
  mon = λ time. pos 0;
  year = λ time. pos 0;
  date_text = λ time. [];
  can_open = λ name. false;
  make_directory = λ name. true;
}

abbrev event : LogEvent
event = record {
  level = warn;
  file = [];
  line = pos 1;
  func = [];
  pid = 1;
  tid = 1;
  ctx = 0;
  time = [];
  content = [];
}

abbrev logger : Logger
logger = record { name = []; level = info; appenders = 4 ∷ 5 ∷ [] }

abbrev world : World
world = record {
  appenders = λ a.
      stdout (record {
        level = (if a == 4 then error else debug);
        formatter = some (a ∷ 37 ∷ 109 ∷ []);
      });
  output = [];
  files = [];
}

log_level-lines_example :
    log_level platform (some logger) event (7 ∷ []) (pos 0) world
    ≡ done (record world { output = (5 ∷ 7 ∷ []) ∷ [] })
unfolding lines below level_code format level_text regex_replace replace_from matches matches_byte
    expand decimal decimal_ℤ digits take
log_level-lines_example =
    log_level-lines platform logger event (7 ∷ []) (pos 0) world
      ((error, 4 ∷ 37 ∷ 109 ∷ []) ∷ (debug, 5 ∷ 37 ∷ 109 ∷ []) ∷ []) (refl, (refl, tt))

-- "a/b"
abbrev in_directory : List ℕ
in_directory = 97 ∷ 47 ∷ 98 ∷ []

log_file-new_appender_example :
    (a : FileLogAppender) × (files : Files) × (new_appender platform in_directory rotate_size 9
        (pos 1)
        []
      ≡ done (a, files))
    × (log_file platform a event (pos 2) [] ≡ deadlock)
unfolding below level_code has_directory has_slash
log_file-new_appender_example =
    log_file-new_appender platform (λ name. refl) in_directory rotate_size 9 (pos 1) (pos 2) [] []
      event refl refl

abbrev appender : FileLogAppender
appender = record {
  level = info;
  formatter = none;
  filename = 97 ∷ [];
  filestream = new_stream;
  rotate = rotate_size;
  max_size = 9;
  current_size = 0;
  last_rotate_time = pos 0;
  test_mode = false;
  test_time = pos 0;
}

-- The files `a.0` and `a.2` are there.
abbrev files : Files
files = (97 ∷ 46 ∷ 48 ∷ [], []) ∷ (97 ∷ 46 ∷ 50 ∷ [], []) ∷ []

new_name-IsFirstFree_example :
    (index : ℕ) × (new_name platform rotate_size appender (pos 0) files ≡ indexed (97 ∷ []) index)
    × IsFirstFree (97 ∷ []) 0 index files
new_name-IsFirstFree_example = new_name-IsFirstFree platform appender (pos 0) files

takes_one : new_name platform rotate_size appender (pos 0) files ≡ 97 ∷ 46 ∷ 49 ∷ []
unfolding new_name free_index exists indexed equal_bytes decimal digits
takes_one = refl

abbrev manager : LogManager
manager = record { loggers = []; root = 0; next_address = 1; store = λ a. new_logger [] }

manager-IsValid : IsValid manager
unfolding find
manager-IsValid = record {
  apart = λ a b address f g. absurd (cc f);
  allotted = λ a address f. absurd (cc f);
}

get_logger-IsValid_example :
    IsValid (get_logger (97 ∷ []) manager).1
    × (get_logger (97 ∷ []) (get_logger (97 ∷ []) manager).1 ≡ get_logger (97 ∷ []) manager)
    × ((other : List ℕ)
        → (97 ∷ []) ≢ other
        → find other (get_logger (97 ∷ []) manager).1.loggers ≡ find other manager.loggers)
get_logger-IsValid_example = get_logger-IsValid (97 ∷ []) manager manager-IsValid

-- Without the symbols the call stack is a line of hexadecimal digits for each address.
two_frames :
    stacktrace (λ limit. 255 ∷ 65536 ∷ []) (λ addresses. none) true ≡ codes "0xff\n0x10000\n"
unfolding stacktrace address_lines hex_digits
two_frames = refl
