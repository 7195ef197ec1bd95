-- ===== src/LogEvent/Tests.antt =====
-- The formatter at work.
use dimdb.Prelude.{◌≡◌, refl, [], ◌∷◌}
use dimdb.Prelude.Int.{pos}
use dimdb.Text.{codes, decimal, decimal_ℤ, digits}
use dimdb.Regex.{regex_replace, replace_from, matches, matches_byte, expand}
use dimdb.LogEvent.Line.{line_of, format-line_of}
use dimdb.LogEvent.{LogEvent, warn, file_name, has_slash, format, default_pattern, level_text}

abbrev event : LogEvent
event = record {
  level = warn;
  file = codes "a.cpp";
  line = pos 12;
  func = codes "main";
  pid = 4;
  tid = 50;
  ctx = 0;
  time = codes "now";
  content = codes "full";
}

whole_line :
    format default_pattern event ≡ codes "[now pid:4 tid:50 ctx:0 WARN: main@a.cpp:12] >> full"
unfolding format default_pattern level_text regex_replace replace_from matches matches_byte expand
    decimal decimal_ℤ digits
whole_line = refl

-- `src/a.c`
last_part : file_name (115 ∷ 114 ∷ 99 ∷ 47 ∷ 97 ∷ 46 ∷ 99 ∷ []) ≡ 97 ∷ 46 ∷ 99 ∷ []
unfolding file_name has_slash
last_part = refl

format-line_of_example :
    format default_pattern event ≡ codes "[now pid:4 tid:50 ctx:0 WARN: main@a.cpp:12] >> full"
unfolding line_of level_text decimal decimal_ℤ digits
format-line_of_example =
    format-line_of event ((refl, (refl, (refl, tt))), (refl, (refl, (refl, tt))))
      ((refl, (refl, (refl, (refl, tt)))), (refl, (refl, (refl, (refl, tt)))))
      ((refl, (refl, (refl, (refl, (refl, tt))))), (refl, (refl, (refl, (refl, (refl, tt))))))
      (refl, (refl, (refl, (refl, tt))))

-- Another pattern's month is taken for the content, and a content of `$&` for the placeholder.
month_is_content : format (codes "%Y/%m") event ≡ codes "%Y/full"
unfolding format default_pattern level_text regex_replace replace_from matches matches_byte expand
    decimal decimal_ℤ digits
month_is_content = refl

dollar_is_placeholder :
    format (codes ">> %m") (record event { content = codes "$&" }) ≡ codes ">> %m"
unfolding format default_pattern level_text regex_replace replace_from matches matches_byte expand
    decimal decimal_ℤ digits
dollar_is_placeholder = refl
