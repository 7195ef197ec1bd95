-- ===== src/Logger/Names.antt =====
-- Names of files and loggers: their equality, and the files without one name.
use dimdb.Prelude.{
  ℕ, ◌<◌, ◌≤◌, ◌≡◌, ◌≢◌, refl, ap, ◌∙◌, true, false, List, [], ◌∷◌, ◌++◌, length, Bool-cases, inl,
  inr, if◌then◌else◌, arith,
}
use dimdb.Utils.{equal_bytes}
use dimdb.Text.{decimal_injective}
use dimdb.Logger.{Files, exists, indexed}

pub equal_bytes-path : (a b : List ℕ) → equal_bytes a b ≡ true → a ≡ b
unfolding equal_bytes
equal_bytes-path [] [] h = refl
equal_bytes-path [] (y ∷ b) h = absurd (cc h)
equal_bytes-path (x ∷ a) [] h = absurd (cc h)
equal_bytes-path (x ∷ a) (y ∷ b) h =
    let e : x ≡ y = ground arith in
    let e' : equal_bytes a b ≡ true = ground arith in λ i. e i ∷ equal_bytes-path a b e' i

tail_of : List ℕ → List ℕ
tail_of [] = []
tail_of (x ∷ a) = a

append_cancel : (a b c : List ℕ) → a ++ b ≡ a ++ c → b ≡ c
unfolding tail_of
append_cancel [] b c h = h
append_cancel (x ∷ a) b c h = append_cancel a b c (ap tail_of h)

-- Names with different indices are different, as the texts of numbers are.
pub indexed-ne :
    (name : List ℕ) (i j : ℕ) → i ≢ j → equal_bytes (indexed name i) (indexed name j) ≡ false
unfolding indexed tail_of
indexed-ne name i j n = elim (Bool-cases (equal_bytes (indexed name i) (indexed name j))) [
  | inl e ↦
      absurd
        (n (decimal_injective i j (ap tail_of (append_cancel name _ _ (equal_bytes-path _ _ e)))))
  | inr e ↦ e
]

unfoldable pub without : List ℕ → Files → Files
without name [] = []
without name ((n, content) ∷ files) =
    let rest = without name files in if equal_bytes n name then rest else (n, content) ∷ rest

pub length-without_le : (name : List ℕ) (files : Files) → length (without name files) ≤ length files
unfolding without
length-without_le name [] = omega arith
length-without_le name ((n, content) ∷ files) = ground (arith, length-without_le name files)

pub length-without :
    (name : List ℕ) (files : Files)
    → exists name files ≡ true
    → length (without name files) < length files
unfolding without exists
length-without name [] h = absurd (cc h)
length-without name ((n, content) ∷ files) h = elim (Bool-cases (equal_bytes n name)) [
  | inl e ↦ rw e (omega (arith, length-without_le name files))
  | inr e ↦ rw e (omega (arith, length-without name files (rw e at h)))
]

pub exists-without :
    (name other : List ℕ) (files : Files)
    → equal_bytes name other ≡ false
    → exists other (without name files) ≡ exists other files
unfolding without exists
exists-without name other [] n = refl
exists-without name other ((m, content) ∷ files) n = elim (Bool-cases (equal_bytes m name)) [
  | inl e ↦
      let differ : equal_bytes m other ≡ false =
        ap (λ k. equal_bytes k other) (equal_bytes-path m name e) ∙ n in
      rw (e, differ) (exists-without name other files n)
  | inr e ↦ rw (e, exists-without name other files n) refl
]
