-- ===== src/Regex.antt =====
-- `std::regex_replace` as libstdc++ has it, for the patterns of the log's formatter: bytes that stand for
-- themselves, and dots.
pub mod Plain
use dimdb.Prelude.{
  ℕ, zero, suc, ◌+◌, ◌-◌, ◌*◌, Bool, not, ◌&&◌, ◌||◌, Option, none, some, List, [], ◌∷◌, ◌++◌,
  length, leb, ◌==◌, if◌then◌else◌,
}

-- A dot matches any byte that ends no line.
unfoldable pub matches_byte : ℕ → ℕ → Bool
matches_byte p b = p == b || p == 46 && not (b == 10 || b == 13)

-- The bytes of a match at the start of the text, and those behind them.
unfoldable pub matches : List ℕ → List ℕ → Option (List ℕ × List ℕ)
unfolding matches_byte
matches [] text = some ([], text)
matches (p ∷ pattern) [] = none
matches (p ∷ pattern) (b ∷ text) =
    let rest = elim (matches pattern text) as (λ _. Option (List ℕ × List ℕ)) [
      | none ↦ none
      | some (found, behind) ↦ some (b ∷ found, behind)
    ] in
    if matches_byte p b then rest else none

-- What has been read of the format: text, a `$`, or a `$` and a digit.
pub data Reading : Type 0 where
  plain dollar : Reading
  group : ℕ → Reading

abbrev pub is_digit : ℕ → Bool
is_digit c = leb 48 c && leb c 57

module _ (before found behind : List ℕ) where
  -- The patterns have no groups: only `$0` is there.
  abbrev pub group_text : ℕ → List ℕ
  group_text n = if n == 0 then found else []

  -- `match_results::format`
  unfoldable pub expand : Reading → List ℕ → List ℕ
  expand plain [] = []
  expand dollar [] = 36 ∷ []
  expand (group n) [] = group_text n
  expand plain (c ∷ fmt) =
      let text = expand plain fmt in
      let special = expand dollar fmt in if c == 36 then special else c ∷ text
  expand dollar (c ∷ fmt) =
      let text = expand plain fmt in
      let digit = expand (group (c - 48)) fmt in
      if c == 36
      then 36 ∷ text
      else if c == 38
      then found ++ text
      else if c == 96
      then before ++ text
      else if c == 39
      then behind ++ text
      else if is_digit c
      then digit
      else 36 ∷ c ∷ text
  expand (group n) (c ∷ fmt) =
      let text = expand plain fmt in
      let special = expand dollar fmt in
      if is_digit c
      then group_text (n * 10 + (c - 48)) ++ text
      else group_text n ++ (if c == 36 then special else c ∷ text)

module _ (pattern fmt : List ℕ) where
  -- `before` is the text since the last match, `left` how many bytes of that are still to be passed.
  unfoldable pub replace_from : List ℕ → ℕ → List ℕ → List ℕ
  replace_from before left [] = []
  replace_from before (suc left) (b ∷ text) = replace_from [] left text
  replace_from before zero (b ∷ text) = elim (matches pattern (b ∷ text)) [
    | none ↦ b ∷ replace_from (before ++ b ∷ []) zero text
    | some (found, behind) ↦
        expand before found behind plain fmt ++ replace_from [] (length found - 1) text
  ]

  unfoldable pub regex_replace : List ℕ → List ℕ
  regex_replace text = replace_from [] zero text
