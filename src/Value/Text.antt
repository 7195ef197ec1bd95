-- ===== src/Value/Text.antt =====
-- The text of a value: `to_string`, over the standard library's texts of `float` numbers.
use dimdb.Prelude.{ℕ, List, [], ◌∷◌, if◌then◌else◌}
use dimdb.CharString
use dimdb.Text.{decimal_ℤ}
use dimdb.Value.{
  ArrrType, Value, undefined, integer, float, varchar, boolean, timestamp, char, max_type, Result,
  returned, ◌>>=◌, get_integer, get_float, get_boolean, get_string, get_timestamp, get_char,
}
use dimdb.Value.Serial.{defined}

-- `NULL`, `true`, `false` and `INVALID` in bytes.
abbrev null_text : List ℕ
null_text = 78 ∷ 85 ∷ 76 ∷ 76 ∷ []

abbrev true_text : List ℕ
true_text = 116 ∷ 114 ∷ 117 ∷ 101 ∷ []

abbrev false_text : List ℕ
false_text = 102 ∷ 97 ∷ 108 ∷ 115 ∷ 101 ∷ []

abbrev invalid_text : List ℕ
invalid_text = 73 ∷ 78 ∷ 86 ∷ 65 ∷ 76 ∷ 73 ∷ 68 ∷ []

module _ (float_text : ℕ → List ℕ) where
  -- The `switch` of `to_string`.
  unfoldable pub text_of : ArrrType → Value → Result (List ℕ)
  text_of integer v = do val ← get_integer v; returned (decimal_ℤ val)
  text_of float v = do val ← get_float v; returned (float_text val)
  text_of boolean v = do val ← get_boolean v; returned (if val then true_text else false_text)
  text_of varchar v = get_string v
  text_of timestamp v = do val ← get_timestamp v; returned (decimal_ℤ val)
  text_of char v = do str ← get_char v; defined (CharString.to_string str)
  text_of undefined v = returned invalid_text
  text_of max_type v = returned invalid_text

  unfoldable pub to_string : Value → Result (List ℕ)
  to_string v = if v.is_null_ then returned null_text else text_of v.type_ v
