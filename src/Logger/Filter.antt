-- ===== src/Logger/Filter.antt =====
-- Which lines a logger writes to its consoles, and a file appender that cannot open its file.
use dimdb.Prelude.{
  ℕ, ◌≡◌, refl, sym, ap, ◌∙◌, true, false, none, some, List, [], ◌∷◌, ◌++◌, Bool-cases, inl, inr,
  if◌then◌else◌, append_assoc, append_nil,
}
use dimdb.Prelude.Int.{ℤ, pos}
use dimdb.Outcome.{done, deadlock}
use dimdb.Logger.{
  LogLevel, LogEvent, LogRotate, FileLogAppender, Files, Platform, Stream, info, below, log_file,
  format, log_stdout, formatted, new_appender, create_new_file, open_stream, close_stream,
  check_rotate, has_directory, new_name, new_stream, rotated_at,
}
use dimdb.Logger.Loggers.{Logger, World, Appender, stdout, log, log_each, log_to}

-- The appenders at the addresses are consoles with these levels and patterns.
abbrev pub Consoles : (ℕ → Appender) → List ℕ → List (LogLevel × List ℕ) → Type 0
Consoles appenders [] [] = Unit
Consoles appenders [] (c ∷ consoles) = ⊥
Consoles appenders (address ∷ addresses) [] = ⊥
Consoles appenders (address ∷ addresses) ((level, pattern) ∷ consoles) =
    (appenders address ≡ stdout (record { level = level; formatter = some pattern }))
    × Consoles appenders addresses consoles

-- The lines of the consoles whose level the event reaches.
unfoldable pub lines : LogEvent → List (LogLevel × List ℕ) → List (List ℕ)
lines event [] = []
lines event ((level, pattern) ∷ consoles) =
    let rest = lines event consoles in
    if below event.level level then rest else format pattern event ∷ rest

module _ (platform : Platform) where
  log_each-lines :
      (time : ℤ) (event : LogEvent) (addresses : List ℕ) (consoles : List (LogLevel × List ℕ))
      (world : World)
      → Consoles world.appenders addresses consoles
      → log_each platform time event addresses world
        ≡ done (record world { output = world.output ++ lines event consoles })
  unfolding log_each log_to log_stdout formatted lines
  log_each-lines time event [] [] world h =
      ap (λ o. done (record world { output = o })) (sym (append_nil world.output))
  log_each-lines time event [] (c ∷ consoles) world h = absurd h
  log_each-lines time event (address ∷ addresses) [] world h = absurd h
  log_each-lines time event (address ∷ addresses) ((level, pattern) ∷ consoles) world (e, h) =
      elim (Bool-cases (below event.level level)) [
        | inl b ↦ rw (e, b) (log_each-lines time event addresses consoles world h)
        | inr b ↦
            rw (e, b)
              (log_each-lines time event addresses consoles
                  (record world { output = world.output ++ format pattern event ∷ [] }) h
                ∙ ap (λ o. done (record world { output = o }))
                    (append_assoc world.output (format pattern event ∷ []) (lines event consoles)))
      ]

  -- A logger whose appenders are consoles writes an event that reaches its level: one line, in the
  -- order of the appenders, for each console whose own level the event reaches. Below the logger's
  -- level it writes nothing.
  pub log-lines :
      (event : LogEvent) (l : Logger) (time : ℤ) (world : World)
      (consoles : List (LogLevel × List ℕ))
      → Consoles world.appenders l.appenders consoles
      → log platform event.level event l time world
        ≡ done (
            if below event.level l.level
            then world
            else record world { output = world.output ++ lines event consoles })
  unfolding log
  log-lines event l time world consoles h =
      rw (log_each-lines time event l.appenders consoles world h)
        (elim (Bool-cases (below event.level l.level)) [ inl b ↦ rw b refl | inr b ↦ rw b refl ])

  module _ (shut : (name : List ℕ) → platform.can_open name ≡ false) where
    open_stream-shut :
        (name : List ℕ) (s : Stream) (files : Files)
        → s.opened ≡ none
        → (open_stream platform name (close_stream s) files).0.opened ≡ none
    unfolding open_stream close_stream
    open_stream-shut name s files e = elim (Bool-cases s.failed) [
      | inl f ↦ rw (f, e, shut name) refl
      | inr f ↦ rw (f, shut name) refl
    ]

    create_new_file-shut :
        (a : FileLogAppender) (time : ℤ) (files : Files)
        → a.filestream.opened ≡ none
        → has_directory platform a.filename ≡ true
        → (a' : FileLogAppender) × (files' : Files) × (create_new_file platform a time files
            ≡ done (a', files'))
          × (a'.filestream.opened ≡ none)
          × (a'.filename ≡ a.filename)
          × (a'.level ≡ a.level)
    unfolding create_new_file
    create_new_file-shut a time files e there = (
      record a {
        filestream =
            (open_stream platform (new_name platform a.rotate a time files)
              (close_stream a.filestream) files).0;
        last_rotate_time = rotated_at platform a.rotate a time;
        current_size = 0;
      },
      (open_stream platform (new_name platform a.rotate a time files) (close_stream a.filestream)
          files).1,
      rw there refl,
      open_stream-shut _ a.filestream files e,
      refl,
      refl,
    )

    log_file-shut :
        (a : FileLogAppender) (event : LogEvent) (time : ℤ) (files : Files)
        → a.filestream.opened ≡ none
        → has_directory platform a.filename ≡ true
        → below event.level a.level ≡ false
        → log_file platform a event time files ≡ deadlock
    unfolding log_file
    log_file-shut a event time files e there reached =
        elim (Bool-cases (check_rotate platform a.rotate a time)) [
          | inl r ↦
              let (a', files', created, shut', name, level) =
                create_new_file-shut a time files e there in
              rw (r, reached, created, shut') refl
          | inr r ↦ rw (r, reached, e) refl
        ]

    -- When no file can be opened, and the name has a directory that is there or can be made, a new file
    -- appender is made without a file. The first event that then reaches its level, which is INFO,
    -- waits forever for the mutex that its own thread holds.
    pub log_file-new_appender :
        (filename : List ℕ) (rotate : LogRotate) (max_size : ℕ) (time time' : ℤ)
        (files files' : Files) (event : LogEvent)
        → has_directory platform filename ≡ true
        → below event.level info ≡ false
        → (a : FileLogAppender) × (files'' : Files) × (new_appender platform filename rotate
              max_size time files
            ≡ done (a, files''))
          × (log_file platform a event time' files' ≡ deadlock)
    unfolding new_appender
    log_file-new_appender filename rotate max_size time time' files files' event there reached =
        let fresh : FileLogAppender = record {
          level = info;
          formatter = none;
          filename = filename;
          filestream = new_stream;
          rotate = rotate;
          max_size = max_size;
          current_size = 0;
          last_rotate_time = pos 0;
          test_mode = false;
          test_time = pos 0;
        } in
        let (a, files'', created, shut', name, level) =
          create_new_file-shut fresh time files refl there in
        (
          record a { last_rotate_time = time },
          files'',
          rw created refl,
          log_file-shut (record a { last_rotate_time = time }) event time' files' shut'
              (ap (has_directory platform) name ∙ there) (ap (below event.level) level ∙ reached),
        )
