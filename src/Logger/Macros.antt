-- ===== src/Logger/Macros.antt =====
-- The macros for log lines, `ASSERT` and `TRACE` of src/dimserver/common/log/log.h.
--
-- `g_log` is the global logger, if it was set. The text that `snprintf` makes is an argument, and has
-- no byte 0; what `new_event` asks for is given with it.
use dimdb.Prelude.{ℕ, Bool, Option, none, some, List, take, if◌then◌else◌}
use dimdb.Prelude.Int.{ℤ}
use dimdb.Outcome.{Outcome, done, abort, ◌>>=◌}
use dimdb.LogEvent.{LogEvent, trace, debug, info, warn, error, panic, below}
use dimdb.Logger.{Platform}
use dimdb.Logger.Loggers.{Logger, World, log}

module _ (platform : Platform) where
  -- The destructor of `LogEventWrapper`, when its stream has got the text.
  unfoldable pub log_event : Logger → LogEvent → List ℕ → ℤ → World → Outcome World
  log_event logger event text time world =
      log platform event.level (record event { content = text }) logger time world

  -- `LOG_LEVEL_STREAM`, with what the caller writes to the stream.
  unfoldable pub log_level_stream : Option Logger → LogEvent → List ℕ → ℤ → World → Outcome World
  unfolding log_event
  log_level_stream none event text time world = done world
  log_level_stream (some logger) event text time world =
      let logged = log_event logger event text time world in
      if below event.level logger.level then done world else logged

  -- `LOG_LEVEL`: the buffer has 2048 bytes, of which one is for the 0 at the end.
  unfoldable pub log_level : Option Logger → LogEvent → List ℕ → ℤ → World → Outcome World
  unfolding log_level_stream
  log_level g_log event text time world = log_level_stream g_log event (take 2047 text) time world

  abbrev pub log_trace : Option Logger → LogEvent → List ℕ → ℤ → World → Outcome World
  log_trace g_log event = log_level g_log (record event { level = trace })

  abbrev pub log_debug : Option Logger → LogEvent → List ℕ → ℤ → World → Outcome World
  log_debug g_log event = log_level g_log (record event { level = debug })

  abbrev pub log_info : Option Logger → LogEvent → List ℕ → ℤ → World → Outcome World
  log_info g_log event = log_level g_log (record event { level = info })

  abbrev pub log_warn : Option Logger → LogEvent → List ℕ → ℤ → World → Outcome World
  log_warn g_log event = log_level g_log (record event { level = warn })

  abbrev pub log_error : Option Logger → LogEvent → List ℕ → ℤ → World → Outcome World
  log_error g_log event = log_level g_log (record event { level = error })

  abbrev pub log_panic : Option Logger → LogEvent → List ℕ → ℤ → World → Outcome World
  log_panic g_log event = log_level g_log (record event { level = panic })

  abbrev pub log_trace_stream : Option Logger → LogEvent → List ℕ → ℤ → World → Outcome World
  log_trace_stream g_log event = log_level_stream g_log (record event { level = trace })

  abbrev pub log_debug_stream : Option Logger → LogEvent → List ℕ → ℤ → World → Outcome World
  log_debug_stream g_log event = log_level_stream g_log (record event { level = debug })

  abbrev pub log_info_stream : Option Logger → LogEvent → List ℕ → ℤ → World → Outcome World
  log_info_stream g_log event = log_level_stream g_log (record event { level = info })

  abbrev pub log_warn_stream : Option Logger → LogEvent → List ℕ → ℤ → World → Outcome World
  log_warn_stream g_log event = log_level_stream g_log (record event { level = warn })

  abbrev pub log_error_stream : Option Logger → LogEvent → List ℕ → ℤ → World → Outcome World
  log_error_stream g_log event = log_level_stream g_log (record event { level = error })

  abbrev pub log_panic_stream : Option Logger → LogEvent → List ℕ → ℤ → World → Outcome World
  log_panic_stream g_log event = log_level_stream g_log (record event { level = panic })

  -- `TRACE`, which a release build leaves out.
  abbrev pub trace_if : Bool → Option Logger → LogEvent → List ℕ → ℤ → World → Outcome World
  trace_if debugging g_log event text time world =
      let logged = log_trace g_log event text time world in if debugging then logged else done world

  -- `ASSERT`, which a release build leaves out. `event` is that of `LOG_PANIC`.
  unfoldable pub assert :
      Bool → Bool → Option Logger → LogEvent → List ℕ → ℤ → World → Outcome World
  unfolding log_level
  assert debugging expression g_log event text time world =
      let failed = do world' ← log_panic g_log event text time world; abort
      in if debugging then (if expression then done world else failed) else done world
