-- ===== src/LogEvent/Line.antt =====
-- The line that the default pattern makes of an event.
use dimdb.Prelude.{ℕ, ◌≡◌, refl, ap, ◌∙◌, List, [], ◌∷◌, ◌++◌, append_nil, arith}
use dimdb.Prelude.Int.{ℤ}
use dimdb.Text.{codes, decimal, decimal_ℤ, Lacks, append-Lacks, decimal-Lacks, decimal_ℤ-Lacks}
use dimdb.Regex.{matches_byte, matches, replace_from, regex_replace}
use dimdb.Regex.Plain.{expand-plain, regex_replace-next}
use dimdb.LogEvent.{
  LogLevel, trace, debug, info, warn, error, panic, LogEvent, level_text, format, default_pattern,
  time_pattern,
}

-- The event's parts, and the text between them.
unfoldable pub line_of : LogEvent → List ℕ
line_of event =
    codes "["
    ++ event.time
    ++ codes " pid:"
    ++ decimal event.pid
    ++ codes " tid:"
    ++ decimal event.tid
    ++ codes " ctx:"
    ++ decimal event.ctx
    ++ codes " "
    ++ level_text event.level
    ++ codes ": "
    ++ event.func
    ++ codes "@"
    ++ event.file
    ++ codes ":"
    ++ decimal_ℤ event.line
    ++ codes "] >> "
    ++ event.content

-- No `$`, which a replacement gives a meaning, and no `%`, with which a placeholder starts.
abbrev pub IsPlain : List ℕ → Type 0
IsPlain text = Lacks 36 text × Lacks 37 text

level_text-IsPlain : (level : LogLevel) → IsPlain (level_text level)
unfolding level_text
level_text-IsPlain trace = ground arith
level_text-IsPlain debug = ground arith
level_text-IsPlain info = ground arith
level_text-IsPlain warn = ground arith
level_text-IsPlain error = ground arith
level_text-IsPlain panic = ground arith

decimal-IsPlain : (n : ℕ) → IsPlain (decimal n)
decimal-IsPlain n = (decimal-Lacks 36 n (omega arith), decimal-Lacks 37 n (omega arith))

decimal_ℤ-IsPlain : (z : ℤ) → IsPlain (decimal_ℤ z)
decimal_ℤ-IsPlain z = (decimal_ℤ-Lacks 36 z (omega arith), decimal_ℤ-Lacks 37 z (omega arith))

-- The first replacement finds the pattern of the time.
after_time : List ℕ
after_time = codes " pid:%P tid:%T ctx:%C %L: %F@%f:%l] >> %m"

regex_replace-time :
    (time : List ℕ)
    → Lacks 36 time
    → regex_replace time_pattern time default_pattern ≡ (codes "[" ++ time) ++ after_time
unfolding regex_replace replace_from matches matches_byte default_pattern after_time
regex_replace-time time h =
    ap (λ (l : List ℕ). 91 ∷ (l ++ after_time)) (expand-plain (codes "[") _ _ time h)

-- Up to `done` the placeholders are replaced, and `text` is behind it.
record IsReplaced (result done text : List ℕ) : Type 0 where
  same : result ≡ done ++ text
  clear : Lacks 37 done

-- The next placeholder.
next-IsReplaced :
    {result done : List ℕ} (c : ℕ) (front text fmt : List ℕ)
    → IsReplaced result done (front ++ 37 ∷ c ∷ text)
    → Lacks 37 front
    → IsPlain fmt
    → regex_replace (37 ∷ c ∷ []) fmt text ≡ text
    → IsReplaced (regex_replace (37 ∷ c ∷ []) fmt result) ((done ++ front) ++ fmt) text
next-IsReplaced {result} {done} c front text fmt r between value stays =
    let clear = append-Lacks 37 done front r.clear between in
    record {
      same =
          ap (regex_replace (37 ∷ c ∷ []) fmt) r.same
          ∙ regex_replace-next c fmt value.0 done front text clear stays;
      clear = append-Lacks 37 (done ++ front) fmt clear value.1;
    }

-- The last placeholder, whose value may have a `%`.
regex_replace-last :
    {result done : List ℕ} (c : ℕ) (front fmt : List ℕ)
    → IsReplaced result done (front ++ 37 ∷ c ∷ [])
    → Lacks 37 front
    → Lacks 36 fmt
    → regex_replace (37 ∷ c ∷ []) fmt result ≡ (done ++ front) ++ fmt
unfolding regex_replace replace_from
regex_replace-last {result} {done} c front fmt r between value =
    ap (regex_replace (37 ∷ c ∷ []) fmt) r.same
    ∙ regex_replace-next c fmt value done front [] (append-Lacks 37 done front r.clear between) refl
    ∙ append_nil ((done ++ front) ++ fmt)

-- The formatter's default pattern makes of an event the line with its time, the ids, the level, the
-- function, the file, the line number and the content. It does so for every event whose time,
-- function and file have neither `$` nor `%`, and whose content has no `$`.
pub format-line_of :
    (event : LogEvent)
    → IsPlain event.time
    → IsPlain event.func
    → IsPlain event.file
    → Lacks 36 event.content
    → format default_pattern event ≡ line_of event
unfolding format line_of after_time regex_replace replace_from matches matches_byte
format-line_of event time func file content =
    let start : IsReplaced (regex_replace time_pattern event.time default_pattern)
        (codes "[" ++ event.time) after_time =
      record { same = regex_replace-time event.time time.0; clear = (refl, time.1) } in
    let pid =
      next-IsReplaced b'P' (codes " pid:") (codes " tid:%T ctx:%C %L: %F@%f:%l] >> %m")
        (decimal event.pid) start (refl, (refl, (refl, (refl, (refl, tt)))))
        (decimal-IsPlain event.pid) refl in
    let tid =
      next-IsReplaced b'T' (codes " tid:") (codes " ctx:%C %L: %F@%f:%l] >> %m") (decimal event.tid)
        pid (refl, (refl, (refl, (refl, (refl, tt))))) (decimal-IsPlain event.tid) refl in
    let ctx =
      next-IsReplaced b'C' (codes " ctx:") (codes " %L: %F@%f:%l] >> %m") (decimal event.ctx) tid
        (refl, (refl, (refl, (refl, (refl, tt))))) (decimal-IsPlain event.ctx) refl in
    let level =
      next-IsReplaced b'L' (codes " ") (codes ": %F@%f:%l] >> %m") (level_text event.level) ctx
        (refl, tt) (level_text-IsPlain event.level) refl in
    let func' =
      next-IsReplaced b'F' (codes ": ") (codes "@%f:%l] >> %m") event.func level (refl, (refl, tt))
        func refl in
    let file' =
      next-IsReplaced b'f' (codes "@") (codes ":%l] >> %m") event.file func' (refl, tt) file refl in
    let line =
      next-IsReplaced b'l' (codes ":") (codes "] >> %m") (decimal_ℤ event.line) file' (refl, tt)
        (decimal_ℤ-IsPlain event.line) refl in
    regex_replace-last b'm' (codes "] >> ") event.content line
      (refl, (refl, (refl, (refl, (refl, tt))))) content
