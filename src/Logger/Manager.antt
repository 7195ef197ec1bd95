-- ===== src/Logger/Manager.antt =====
-- `LogManager` and `InitLogger`: the loggers by their names.
--
-- A logger is shared: the map holds its address. The mutex is free when a call begins.
use dimdb.Prelude.{ℕ, suc, ◌*◌, Option, none, some, List, [], ◌∷◌, if◌then◌else◌, ◌==◌}
use dimdb.Prelude.Int.{ℤ}
use dimdb.Utils.{equal_bytes}
use dimdb.Outcome.{Outcome, done, ◌>>=◌}
use dimdb.Logger.{LogLevel, Platform, info, trace, rotate_time, new_appender}
use dimdb.Logger.Loggers.{Logger, World, stdout, file, new_logger, add_appender, update}

-- `m_loggers`, the address of the root, where the next logger is put, and the loggers.
pub record LogManager : Type 0 where
  pub loggers : List (List ℕ × ℕ)
  pub root : ℕ
  pub next_address : ℕ
  pub store : ℕ → Logger

unfoldable pub find : List ℕ → List (List ℕ × ℕ) → Option ℕ
find name [] = none
find name ((n, address) ∷ loggers) =
    let later = find name loggers in if equal_bytes n name then some address else later

abbrev pub put : (ℕ → Logger) → ℕ → Logger → ℕ → Logger
put store address l other = if address == other then l else store other

unfoldable pub make_logger : List ℕ → LogManager → ℕ × LogManager
make_logger name m = (
  m.next_address,
  record m {
    loggers = (name, m.next_address) ∷ m.loggers;
    next_address = suc m.next_address;
    store = put m.store m.next_address (new_logger name);
  },
)

abbrev pub found_or_made : Option ℕ → List ℕ → LogManager → ℕ × LogManager
found_or_made none name m = make_logger name m
found_or_made (some address) name m = (address, m)

unfoldable pub get_logger : List ℕ → LogManager → ℕ × LogManager
get_logger name m = found_or_made (find name m.loggers) name m

-- `system` and `root`, in bytes.
abbrev pub system : List ℕ
system = 115 ∷ 121 ∷ 115 ∷ 116 ∷ 101 ∷ 109 ∷ []

abbrev pub root_name : List ℕ
root_name = 114 ∷ 111 ∷ 111 ∷ 116 ∷ []

-- The root logger with its console appender, which is put at the address.
unfoldable pub new_manager : ℕ → World → LogManager × World
new_manager console world =
    let world' = record world {
      appenders =
          update world.appenders console (stdout (record { level = info; formatter = none }));
    } in
    let (l, world'') = add_appender console (new_logger system) world' in
    (
      record { loggers = (root_name, 0) ∷ []; root = 0; next_address = 1; store = λ address. l },
      world'',
    )

-- The patterns of the console and of the file, and the name of the file, in bytes.
abbrev pub console_pattern : List ℕ
console_pattern = 91 ∷ 37 ∷ 76 ∷ 93 ∷ 32 ∷ 62 ∷ 62 ∷ 32 ∷ 37 ∷ 109 ∷ []

abbrev pub file_pattern : List ℕ
file_pattern =
    91 ∷ 37 ∷ 89 ∷ 45 ∷ 37 ∷ 109 ∷ 45 ∷ 37 ∷ 100 ∷ 32 ∷ 37 ∷ 72 ∷ 58 ∷ 37 ∷ 77 ∷ 58 ∷ 37 ∷ 83 ∷ 46
    ∷ 37 ∷ 102 ∷ 32 ∷ 112 ∷ 105 ∷ 100 ∷ 58 ∷ 37 ∷ 80 ∷ 32 ∷ 116 ∷ 105 ∷ 100 ∷ 58 ∷ 37 ∷ 84 ∷ 32 ∷ 99
    ∷ 116 ∷ 120 ∷ 58 ∷ 37 ∷ 67 ∷ 32 ∷ 37 ∷ 76 ∷ 58 ∷ 32 ∷ 37 ∷ 70 ∷ 64 ∷ 37 ∷ 102 ∷ 58 ∷ 37 ∷ 108
    ∷ 93 ∷ 32 ∷ 62 ∷ 62 ∷ 32 ∷ 37 ∷ 109 ∷ []

abbrev pub common_log : List ℕ
common_log =
    108 ∷ 111 ∷ 103 ∷ 115 ∷ 47 ∷ 99 ∷ 111 ∷ 109 ∷ 109 ∷ 111 ∷ 110 ∷ 46 ∷ 108 ∷ 111 ∷ 103 ∷ []

-- `InitLogger`, with the addresses of the two new appenders: the address for `g_log`.
unfoldable pub init_logger :
    Platform
    → List ℕ
    → LogLevel
    → LogLevel
    → ℕ
    → ℕ
    → ℤ
    → LogManager
    → World
    → Outcome (ℕ × LogManager × World)
init_logger platform name console_level level console_address file_address time m world =
    let (address, m') = get_logger name m in
    let l = record (m'.store address) { level = trace } in
    let console = stdout (record { level = console_level; formatter = some console_pattern }) in
    let world' = record world { appenders = update world.appenders console_address console } in
    let (l', world'') = add_appender console_address l world' in
    do
      (a, files) ←
          new_appender platform common_log rotate_time (10 * 1024 * 1024) time world''.files
      let a' = file (record a { level = level; formatter = some file_pattern })
      let world3 = record world'' {
        appenders = update world''.appenders file_address a';
        files = files;
      }
      let (l'', world4) = add_appender file_address l' world3
      done (address, record m' { store = put m'.store address l'' }, world4)
