-- ===== src/Logger/Message.antt =====
-- What the macro `LOG_LEVEL` puts on the consoles of the global logger.
use dimdb.Prelude.{ℕ, ◌≡◌, refl, some, List, ◌++◌, take, Bool-cases, inl, inr, if◌then◌else◌}
use dimdb.Prelude.Int.{ℤ}
use dimdb.Outcome.{done}
use dimdb.LogEvent.{LogEvent, LogLevel, below}
use dimdb.Logger.{Platform}
use dimdb.Logger.Loggers.{Logger, World}
use dimdb.Logger.Filter.{Consoles, lines, log-lines}
use dimdb.Logger.Macros.{log_level, log_level_stream, log_event}

module _ (platform : Platform) where
  -- `LOG_LEVEL` with a global logger whose appenders are consoles writes the first 2047 bytes of the
  -- message, formatted: one line, in the order of the appenders, for each console whose own level the
  -- event reaches. Below the logger's level it writes nothing.
  pub log_level-lines :
      (logger : Logger) (event : LogEvent) (text : List ℕ) (time : ℤ) (world : World)
      (consoles : List (LogLevel × List ℕ))
      → Consoles world.appenders logger.appenders consoles
      → log_level platform (some logger) event text time world
        ≡ done (
            if below event.level logger.level then world else record world {
              output = world.output ++ lines (record event { content = take 2047 text }) consoles;
            })
  unfolding log_level log_level_stream log_event
  log_level-lines logger event text time world consoles h =
      rw
        (log-lines platform (record event { content = take 2047 text }) logger time world consoles
          h)
        (elim (Bool-cases (below event.level logger.level)) [
          | inl b ↦ rw b refl
          | inr b ↦ rw b refl
        ])
