-- ===== src/Regex/Plain.antt =====
-- `regex_replace` by a text without `$`.
use dimdb.Prelude.{
  ℕ, zero, suc, ◌≡◌, refl, sym, ap, ◌-◌, length, ◌∙◌, true, false, none, some, List, [], ◌∷◌, ◌++◌,
  ◌==◌, Option-cases, inl, inr, arith, append_assoc,
}
use dimdb.Text.{Lacks}
use dimdb.Regex.{matches_byte, matches, expand, plain, replace_from, regex_replace}

pub expand-plain :
    (before found behind fmt : List ℕ) → Lacks 36 fmt → expand before found behind plain fmt ≡ fmt
unfolding expand
expand-plain before found behind [] h = refl
expand-plain before found behind (c ∷ fmt) (e, h) =
    let other : (c == 36) ≡ false = ground (arith, e) in
    rw other (ap (◌∷◌ c) (expand-plain before found behind fmt h))

module _ (pattern fmt : List ℕ) where
  replace_from-miss :
      (before : List ℕ) (b : ℕ) (text : List ℕ)
      → matches pattern (b ∷ text) ≡ none
      → replace_from pattern fmt before zero (b ∷ text)
        ≡ b ∷ replace_from pattern fmt (before ++ b ∷ []) zero text
  unfolding replace_from
  replace_from-miss before b text e = rw (e, replace_from) refl

  replace_from-hit :
      (before : List ℕ) (b : ℕ) (text found behind : List ℕ)
      → matches pattern (b ∷ text) ≡ some (found, behind)
      → replace_from pattern fmt before zero (b ∷ text)
        ≡ expand before found behind plain fmt
          ++ replace_from pattern fmt [] (length found - 1) text
  unfolding replace_from
  replace_from-hit before b text found behind e = rw (e, replace_from) refl

-- What stands between the matches does not matter then.
replace_from-before :
    (pattern fmt before : List ℕ) (left : ℕ) (text : List ℕ)
    → Lacks 36 fmt
    → replace_from pattern fmt before left text ≡ replace_from pattern fmt [] left text
unfolding replace_from
replace_from-before pattern fmt before zero [] h = refl
replace_from-before pattern fmt before (suc left) [] h = refl
replace_from-before pattern fmt before (suc left) (b ∷ text) h = refl
replace_from-before pattern fmt before zero (b ∷ text) h =
    elim (Option-cases (matches pattern (b ∷ text))) [
      | inl e ↦
          replace_from-miss pattern fmt before b text e
          ∙ ap (◌∷◌ b) (
              replace_from-before pattern fmt (before ++ b ∷ []) zero text h
              ∙ sym (replace_from-before pattern fmt (b ∷ []) zero text h))
          ∙ sym (replace_from-miss pattern fmt [] b text e)
      | inr ((found, behind), e) ↦
          replace_from-hit pattern fmt before b text found behind e
          ∙ ap (λ (l : List ℕ). l ++ replace_from pattern fmt [] (length found - 1) text)
              (expand-plain before found behind fmt h ∙ sym (expand-plain [] found behind fmt h))
          ∙ sym (replace_from-hit pattern fmt [] b text found behind e)
    ]

module _ (c : ℕ) (fmt : List ℕ) (no_dollar : Lacks 36 fmt) where
  -- Text without `%` is passed over.
  replace_from-pass :
      (front text : List ℕ)
      → Lacks 37 front
      → replace_from (37 ∷ c ∷ []) fmt [] zero (front ++ text)
        ≡ front ++ replace_from (37 ∷ c ∷ []) fmt [] zero text
  unfolding matches matches_byte
  replace_from-pass [] text h = refl
  replace_from-pass (b ∷ front) text (e, h) =
      replace_from-miss (37 ∷ c ∷ []) fmt [] b (front ++ text) (rw e refl)
      ∙ ap (◌∷◌ b) (
          replace_from-before (37 ∷ c ∷ []) fmt (b ∷ []) zero (front ++ text) no_dollar
          ∙ replace_from-pass front text h)

  found_here : (text : List ℕ) → matches (37 ∷ c ∷ []) (37 ∷ c ∷ text) ≡ some (37 ∷ c ∷ [], text)
  unfolding matches matches_byte
  found_here text = let same : (c == c) ≡ true = ground arith in rw same refl

  replace_from-here :
      (text : List ℕ)
      → replace_from (37 ∷ c ∷ []) fmt [] zero (37 ∷ c ∷ text)
        ≡ fmt ++ regex_replace (37 ∷ c ∷ []) fmt text
  unfolding regex_replace replace_from
  replace_from-here text =
      replace_from-hit (37 ∷ c ∷ []) fmt [] 37 (c ∷ text) (37 ∷ c ∷ []) text (found_here text)
      ∙ ap (λ (l : List ℕ). l ++ replace_from (37 ∷ c ∷ []) fmt [] zero text)
          (expand-plain [] (37 ∷ c ∷ []) text fmt no_dollar)

  -- A `%` with its letter, behind text without `%` and in front of text that stays.
  pub regex_replace-next :
      (done front text : List ℕ)
      → Lacks 37 (done ++ front)
      → regex_replace (37 ∷ c ∷ []) fmt text ≡ text
      → regex_replace (37 ∷ c ∷ []) fmt (done ++ (front ++ 37 ∷ c ∷ text))
        ≡ ((done ++ front) ++ fmt) ++ text
  unfolding regex_replace
  regex_replace-next done front text h stays =
      ap (replace_from (37 ∷ c ∷ []) fmt [] zero) (sym (append_assoc done front (37 ∷ c ∷ text)))
      ∙ replace_from-pass (done ++ front) (37 ∷ c ∷ text) h
      ∙ ap (λ (l : List ℕ). (done ++ front) ++ l)
          (replace_from-here text ∙ ap (λ (l : List ℕ). fmt ++ l) stays)
      ∙ sym (append_assoc (done ++ front) fmt text)
