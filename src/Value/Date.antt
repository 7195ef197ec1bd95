-- ===== src/Value/Date.antt =====
-- The constructor from a date or a time, and the texts of a timestamp, over the C library's calendar.
use dimdb.Prelude.{
  ℕ, suc, ◌+◌, ◌-◌, Bool, false, not, Option, List, [], ◌∷◌, ◌++◌, take, ltb, ◌==◌, if◌then◌else◌,
}
use dimdb.Prelude.Int.{ℤ, pos, negsuc}
use dimdb.Text.{codes, padded}
use dimdb.Value.Serial.{defined}
use dimdb.Value.{
  Value, Result, returned, thrown, ◌>>=◌, invalid_date, invalid_time, not_timestamp, timestamp,
  int64, Exception, type_code, get_timestamp,
}

-- `struct tm` with its members, the one of zeros, `strptime` with what it leaves in the `tm` also when it
-- fails, `mktime`, and `localtime`, which may return the null pointer.
pub record Calendar : Type 1 where
  pub Tm : Type 0
  pub zero_tm : Tm
  pub strptime : List ℕ → List ℕ → Tm → Bool × Tm
  pub mktime : Tm → ℤ
  pub localtime : ℤ → Option Tm
  pub tm_year : Tm → ℤ
  pub tm_mon : Tm → ℤ
  pub tm_mday : Tm → ℤ
  pub tm_hour : Tm → ℤ
  pub tm_min : Tm → ℤ
  pub tm_sec : Tm → ℤ

-- The formats `%Y-%m-%d`, `%Y-%m`, `%Y`, and `%H:%M:%S`, `%H:%M`, `%H`, in bytes.
abbrev pub date_formats : List (List ℕ)
date_formats =
    (37 ∷ 89 ∷ 45 ∷ 37 ∷ 109 ∷ 45 ∷ 37 ∷ 100 ∷ [])
    ∷ (37 ∷ 89 ∷ 45 ∷ 37 ∷ 109 ∷ [])
    ∷ (37 ∷ 89 ∷ [])
    ∷ []

abbrev pub time_formats : List (List ℕ)
time_formats =
    (37 ∷ 72 ∷ 58 ∷ 37 ∷ 77 ∷ 58 ∷ 37 ∷ 83 ∷ [])
    ∷ (37 ∷ 72 ∷ 58 ∷ 37 ∷ 77 ∷ [])
    ∷ (37 ∷ 72 ∷ [])
    ∷ []

module _ (calendar : Calendar) where
  -- The chain of `||`: the first format that matches ends it.
  unfoldable pub parse : List (List ℕ) → List ℕ → calendar.Tm → Exception → Result ℤ
  parse [] str tm failure = thrown failure
  parse (format ∷ formats) str tm failure =
      let (matches, tm') = calendar.strptime str format tm in
      let later = parse formats str tm' failure in
      if matches then returned (calendar.mktime tm') else later

  -- `Value(const std::string &dateStr, bool isDate)`
  unfoldable pub new_date : List ℕ → Bool → Result Value
  new_date str is_date = do
    val ←
        if is_date
        then parse date_formats str calendar.zero_tm invalid_date
        else parse time_formats str calendar.zero_tm invalid_time
    returned (record { type_ = timestamp; is_null_ = false; value_ = int64 val })

-- `%0*d`: a minus sign counts for the width.
unfoldable pub padded_ℤ : ℕ → ℤ → List ℕ
padded_ℤ width (pos n) = padded width n
padded_ℤ width (negsuc n) = 45 ∷ padded (width - 1) (suc n)

-- The sum of an `int` and a number, which is taken not to overflow.
unfoldable pub plus : ℤ → ℕ → ℤ
plus (pos n) k = pos (n + k)
plus (negsuc n) k = if ltb n k then pos (k - 1 - n) else negsuc (n - k)

module _ (calendar : Calendar) where
  -- Both functions start with these steps.
  unfoldable pub time_of : Value → Result calendar.Tm
  time_of v =
      if not (type_code v.type_ == type_code timestamp)
      then thrown not_timestamp
      else do val ← get_timestamp v; defined (calendar.localtime val)

  -- The buffers have 16 bytes, of which one is for the 0 at the end.
  unfoldable pub get_date_string : Value → Result (List ℕ)
  get_date_string v = do
    tm ← time_of v
    returned (
        take 15 (
          padded_ℤ 4 (plus (calendar.tm_year tm) 1900)
          ++ codes "-"
          ++ padded_ℤ 2 (plus (calendar.tm_mon tm) 1)
          ++ codes "-"
          ++ padded_ℤ 2 (calendar.tm_mday tm)))

  unfoldable pub get_time_string : Value → Result (List ℕ)
  get_time_string v = do
    tm ← time_of v
    returned (
        take 15 (
          padded_ℤ 2 (calendar.tm_hour tm)
          ++ codes ":"
          ++ padded_ℤ 2 (calendar.tm_min tm)
          ++ codes ":"
          ++ padded_ℤ 2 (calendar.tm_sec tm)))
