-- ===== src/Text.antt =====
-- The texts that `std::to_string`, `operator<<` and `%0*d` make of integers, as lists of bytes.
use Prim.Native.Char.{code}
use Prim.Native.String.{String}
use dimdb.Prelude.{
  ℕ, zero, suc, ◌+◌, ◌-◌, ◌*◌, ◌/◌, ◌%◌, ◌<◌, ◌≡◌, ap, ◌∙◌, sym, false, List, [], ◌∷◌, ◌++◌, length,
  replicate, ltb, ◌==◌, if◌then◌else◌, arith, Bool-cases, inl, inr,
}
use dimdb.Prelude.Int.{ℤ, pos, negsuc}

-- The bytes of a text literal.
abbrev pub codes : String → List ℕ
codes String.[] = []
codes (String.◌∷◌ c s) = code c ∷ codes s

-- The digits in front of `behind`; each round takes one, and `fuel` bounds them.
unfoldable pub digits : ℕ → ℕ → List ℕ → List ℕ
digits zero n behind = behind
digits (suc fuel) n behind =
    let rest = digits fuel (n / 10) ((48 + n % 10) ∷ behind) in
    if ltb n 10 then (48 + n) ∷ behind else rest

unfoldable pub decimal : ℕ → List ℕ
decimal n = digits (suc n) n []

unfoldable pub decimal_ℤ : ℤ → List ℕ
decimal_ℤ (pos n) = decimal n
decimal_ℤ (negsuc n) = 45 ∷ decimal (suc n)

-- At least `width` digits, with zeros in front.
unfoldable pub padded : ℕ → ℕ → List ℕ
padded width n = replicate (width - length (decimal n)) 48 ++ decimal n

read_digits : ℕ → List ℕ → ℕ
read_digits n [] = n
read_digits n (d ∷ text) = read_digits (n * 10 + (d - 48)) text

read_digits-digits :
    (fuel n : ℕ) (behind : List ℕ)
    → n < fuel
    → read_digits 0 (digits fuel n behind) ≡ read_digits n behind
unfolding read_digits digits
read_digits-digits zero n behind h = absurd (omega arith)
read_digits-digits (suc fuel) n behind h = elim (Bool-cases (ltb n 10)) [
  | inl e ↦ rw e (ap (λ (k : ℕ). read_digits k behind) (omega arith))
  | inr e ↦ rw e (
      read_digits-digits fuel (n / 10) ((48 + n % 10) ∷ behind) (ground (arith, e))
      ∙ ap (λ (k : ℕ). read_digits k behind) (omega arith))
]

-- Two numbers have two texts.
pub decimal_injective : (m n : ℕ) → decimal m ≡ decimal n → m ≡ n
unfolding decimal read_digits
decimal_injective m n e =
    sym (read_digits-digits (suc m) m [] (omega arith))
    ∙ ap (read_digits 0) e
    ∙ read_digits-digits (suc n) n [] (omega arith)

-- A byte that does not occur.
abbrev pub Lacks : ℕ → List ℕ → Type 0
Lacks c [] = Unit
Lacks c (b ∷ text) = ((c == b) ≡ false) × Lacks c text

pub append-Lacks : (c : ℕ) (s t : List ℕ) → Lacks c s → Lacks c t → Lacks c (s ++ t)
append-Lacks c [] t h k = k
append-Lacks c (b ∷ s) t (e, h) k = (e, append-Lacks c s t h k)

digits-Lacks :
    (c fuel n : ℕ) (behind : List ℕ) → c < 48 → Lacks c behind → Lacks c (digits fuel n behind)
unfolding digits
digits-Lacks c zero n behind small h = h
digits-Lacks c (suc fuel) n behind small h = elim (Bool-cases (ltb n 10)) [
  | inl e ↦ rw e (ground arith, h)
  | inr e ↦ rw e (digits-Lacks c fuel (n / 10) ((48 + n % 10) ∷ behind) small (ground arith, h))
]

pub decimal-Lacks : (c n : ℕ) → c < 45 → Lacks c (decimal n)
unfolding decimal
decimal-Lacks c n small = digits-Lacks c (suc n) n [] (omega arith) tt

pub decimal_ℤ-Lacks : (c : ℕ) (z : ℤ) → c < 45 → Lacks c (decimal_ℤ z)
unfolding decimal_ℤ
decimal_ℤ-Lacks c (pos n) small = decimal-Lacks c n small
decimal_ℤ-Lacks c (negsuc n) small = (ground arith, decimal-Lacks c (suc n) small)
