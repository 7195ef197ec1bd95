-- ===== src/Logger/Loggers.antt =====
-- `Logger`: the appenders of a logger and the world that they write to.
use dimdb.Prelude.{ℕ, Option, none, some, List, [], ◌∷◌, ◌++◌, ◌==◌, if◌then◌else◌}
use dimdb.Prelude.Int.{ℤ}
use dimdb.Outcome.{Outcome, done, ◌>>=◌}
use dimdb.LogEvent.{default_pattern}
use dimdb.Logger.{
  LogLevel, LogEvent, StdoutLogAppender, FileLogAppender, Files, Platform, info, below, log_file,
  log_stdout,
}

pub data Appender : Type 0 where
  stdout : StdoutLogAppender → Appender
  file : FileLogAppender → Appender

-- The appenders by their addresses, the lines on the console, and the files.
pub record World : Type 0 where
  pub appenders : ℕ → Appender
  pub output : List (List ℕ)
  pub files : Files

abbrev pub update : (ℕ → Appender) → ℕ → Appender → ℕ → Appender
update appenders address a other = if address == other then a else appenders other

abbrev pub set_formatter : Option (List ℕ) → Appender → Appender
set_formatter formatter (stdout a) = stdout (record a { formatter = formatter })
set_formatter formatter (file a) = file (record a { formatter = formatter })

abbrev pub set_level : LogLevel → Appender → Appender
set_level level (stdout a) = stdout (record a { level = level })
set_level level (file a) = file (record a { level = level })

abbrev pub get_formatter : Appender → Option (List ℕ)
get_formatter (stdout a) = a.formatter
get_formatter (file a) = a.formatter

pub record Logger : Type 0 where
  pub name : List ℕ
  pub level : LogLevel
  pub appenders : List ℕ

abbrev pub new_logger : List ℕ → Logger
new_logger name = record { name = name; level = info; appenders = [] }

abbrev pub with_default : Option (List ℕ) → Option (List ℕ)
with_default none = some default_pattern
with_default (some pattern) = some pattern

unfoldable pub add_appender : ℕ → Logger → World → Logger × World
add_appender address l world =
    let a = world.appenders address in
    (
      record l { appenders = l.appenders ++ address ∷ [] },
      record world {
        appenders =
            update world.appenders address (set_formatter (with_default (get_formatter a)) a);
      },
    )

-- `erase` of the first appender that is the one to delete.
unfoldable pub erase_first : ℕ → List ℕ → List ℕ
erase_first address [] = []
erase_first address (a ∷ appenders) =
    let rest = erase_first address appenders in if a == address then appenders else a ∷ rest

unfoldable pub del_appender : ℕ → Logger → Logger
del_appender address l = record l { appenders = erase_first address l.appenders }

unfoldable pub clear_appenders : Logger → Logger
clear_appenders l = record l { appenders = [] }

module _ (platform : Platform) where
  -- `appender->log(event)`, at a time
  unfoldable pub log_to : ℤ → LogEvent → ℕ → Appender → World → Outcome World
  log_to time event address (stdout a) world = do
    output ← log_stdout platform a event world.output
    done (record world { output = output })
  log_to time event address (file a) world = do
    (a', files) ← log_file platform a event time world.files
    done (record world { appenders = update world.appenders address (file a'); files = files })

  -- The loop over the appenders.
  unfoldable pub log_each : ℤ → LogEvent → List ℕ → World → Outcome World
  log_each time event [] world = done world
  log_each time event (address ∷ addresses) world = do
    world' ← log_to time event address (world.appenders address) world
    log_each time event addresses world'

  unfoldable pub log : LogLevel → LogEvent → Logger → ℤ → World → Outcome World
  log level event l time world =
      let write = log_each time event l.appenders world in
      if below level l.level then done world else write
