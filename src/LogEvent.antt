-- ===== src/LogEvent.antt =====
-- src/dimserver/common/log/log.h and log.cpp: levels, events and `LogFormatter`. Texts are lists of
-- bytes.
pub mod Line
mod Tests
use dimdb.Prelude.{
  ℕ, zero, suc, ◌%◌, Bool, true, false, ◌||◌, List, [], ◌∷◌, ◌++◌, take, ltb, ◌==◌, if◌then◌else◌,
}
use dimdb.Prelude.Int.{ℤ}
use dimdb.Text.{codes, decimal, decimal_ℤ, padded}
use dimdb.Regex.{regex_replace}

pub data LogLevel : Type 0 where
  trace debug info warn error panic : LogLevel

unfoldable pub level_code : LogLevel → ℕ
level_code trace = 0
level_code debug = 1
level_code info = 2
level_code warn = 3
level_code error = 4
level_code panic = 5

-- `<` of two levels
unfoldable pub below : LogLevel → LogLevel → Bool
below a b = ltb (level_code a) (level_code b)

-- `content` is what was written to the event's stream, `ctx` what the function `m_ctx` returns.
pub record LogEvent : Type 0 where
  pub level : LogLevel
  pub file : List ℕ
  pub line : ℤ
  pub func : List ℕ
  pub pid : ℕ
  pub tid : ℕ
  pub ctx : ℕ
  pub time : List ℕ
  pub content : List ℕ

abbrev pub slash : ℕ
slash = 47

unfoldable pub has_slash : List ℕ → Bool
has_slash [] = false
has_slash (b ∷ path) = b == slash || has_slash path

-- `find_last_of` and `substr`: what stands behind the last slash.
unfoldable pub file_name : List ℕ → List ℕ
file_name [] = []
file_name (b ∷ path) =
    let rest = file_name path in
    if has_slash path then rest else if b == slash then path else b ∷ path

-- `GetContextId`
unfoldable pub context_id : ℕ
context_id = 0

-- `GetCurrentTimeStr`: what `strftime` makes of the local time, and the microseconds since the epoch.
unfoldable pub current_time : List ℕ → ℕ → List ℕ
current_time date micros = date ++ take 9 (46 ∷ padded 6 (micros % 1000000))

-- The ids of the process and the thread, and the time, are what the constructor asks for.
unfoldable pub new_event : LogLevel → List ℕ → ℤ → List ℕ → ℕ → ℕ → List ℕ → LogEvent
unfolding context_id
new_event level file line func pid tid time = record {
  level = level;
  file = file_name file;
  line = line;
  func = func;
  pid = pid;
  tid = tid;
  ctx = context_id;
  time = time;
  content = [];
}

-- `LogLevelToString`
unfoldable pub level_text : LogLevel → List ℕ
level_text trace = codes "TRACE"
level_text debug = codes "DEBUG"
level_text info = codes "INFO"
level_text warn = codes "WARN"
level_text error = codes "ERROR"
level_text panic = codes "PANIC"

unfoldable pub default_pattern : List ℕ
default_pattern = codes "[%Y-%m-%d %H:%M:%S.%f pid:%P tid:%T ctx:%C %L: %F@%f:%l] >> %m"

abbrev pub time_pattern : List ℕ
time_pattern = codes "%Y-%m-%d %H:%M:%S.%f"

-- `LogFormatter::format`
unfoldable pub format : List ℕ → LogEvent → List ℕ
format pattern event =
    let result = regex_replace time_pattern event.time pattern in
    let result = regex_replace (codes "%P") (decimal event.pid) result in
    let result = regex_replace (codes "%T") (decimal event.tid) result in
    let result = regex_replace (codes "%C") (decimal event.ctx) result in
    let result = regex_replace (codes "%L") (level_text event.level) result in
    let result = regex_replace (codes "%F") event.func result in
    let result = regex_replace (codes "%f") event.file result in
    let result = regex_replace (codes "%l") (decimal_ℤ event.line) result in
    regex_replace (codes "%m") event.content result
