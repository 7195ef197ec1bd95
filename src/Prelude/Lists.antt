-- ===== src/Prelude/Lists.antt =====
-- Lists measured and indexed by native numbers, under the library's names.
use Prim.Native.Nat.{ℕ, zero, suc, ◌+◌, ◌<◌, ◌≤◌}
use mathlib.Core.Path.{◌≡◌, refl, ap}
use mathlib.Core.Logic.{◌≢◌, ◌⊎◌, inl, inr}
use mathlib.Core.List.{List, [], ◌∷◌, ◌++◌}
use mathlib.Core.Option.{Option, none, some}
use native.Mathlib.Omega.{arith}
use dimdb.Prelude.Tests.{◌==◌, if◌then◌else◌}

module _ {ℓ} {A : Type ℓ} where
  abbrev pub length : List A → ℕ
  length [] = 0
  length (x ∷ xs) = suc (length xs)

  abbrev pub get_elem? : List A → ℕ → Option A
  get_elem? [] i = none
  get_elem? (x ∷ xs) zero = some x
  get_elem? (x ∷ xs) (suc i) = get_elem? xs i

  abbrev pub set : List A → ℕ → A → List A
  set [] i v = []
  set (x ∷ xs) zero v = v ∷ xs
  set (x ∷ xs) (suc i) v = x ∷ set xs i v

  pub length-append : (xs ys : List A) → length (xs ++ ys) ≡ length xs + length ys
  length-append [] ys = omega arith
  length-append (x ∷ xs) ys = omega (arith, length-append xs ys)

module _ {ℓ} {A : Type ℓ} where
  pub length-set : (xs : List A) (i : ℕ) (v : A) → length (set xs i v) ≡ length xs
  length-set [] i v = refl
  length-set (x ∷ xs) zero v = refl
  length-set (x ∷ xs) (suc i) v = ap suc (length-set xs i v)

  pub get_elem?-set_self :
      (xs : List A) (i : ℕ) (v : A) → i < length xs → get_elem? (set xs i v) i ≡ some v
  get_elem?-set_self [] i v h = elim h [ ]
  get_elem?-set_self (x ∷ xs) zero v h = refl
  get_elem?-set_self (x ∷ xs) (suc i) v h = get_elem?-set_self xs i v (omega arith)

  pub get_elem?-set_ne :
      (xs : List A) (i j : ℕ) (v : A) → i ≢ j → get_elem? (set xs i v) j ≡ get_elem? xs j
  get_elem?-set_ne [] i j v h = refl
  get_elem?-set_ne (x ∷ xs) zero zero v h = absurd (h refl)
  get_elem?-set_ne (x ∷ xs) zero (suc j) v h = refl
  get_elem?-set_ne (x ∷ xs) (suc i) zero v h = refl
  get_elem?-set_ne (x ∷ xs) (suc i) (suc j) v h = get_elem?-set_ne xs i j v (λ e. h (ap suc e))

  -- A read in range succeeds, and only such a read.
  pub get_elem?_in_range :
      (xs : List A) (i : ℕ) → i < length xs → (a : A) × (get_elem? xs i ≡ some a)
  get_elem?_in_range [] i h = elim h [ ]
  get_elem?_in_range (x ∷ xs) zero h = (x, refl)
  get_elem?_in_range (x ∷ xs) (suc i) h = get_elem?_in_range xs i (omega arith)

  pub length_of_get_elem? : (xs : List A) (i : ℕ) {a : A} → get_elem? xs i ≡ some a → i < length xs
  length_of_get_elem? [] i h = absurd (cc h)
  length_of_get_elem? (x ∷ xs) zero h = omega arith
  length_of_get_elem? (x ∷ xs) (suc i) h = omega (arith, length_of_get_elem? xs i h)

unfoldable pub replicate {ℓ} : {A : Type ℓ} → ℕ → A → List A
replicate zero a = []
replicate (suc n) a = a ∷ replicate n a

-- How often a number occurs in a list, and the list without its first occurrence.
abbrev pub count : ℕ → List ℕ → ℕ
count n [] = 0
count n (m ∷ rest) = count n rest + (if m == n then 1 else 0)

abbrev pub remove_one : ℕ → List ℕ → List ℕ
remove_one n [] = []
remove_one n (m ∷ rest) = if m == n then rest else m ∷ remove_one n rest

pub count-append :
    (n : ℕ) (front rest : List ℕ) → count n (front ++ rest) ≡ count n front + count n rest
count-append n [] rest = omega arith
count-append n (m ∷ front) rest = omega (arith, count-append n front rest)

pub count-remove_one :
    (gone n : ℕ) (l : List ℕ)
    → 0 < count gone l
    → count n (remove_one gone l) + (if gone == n then 1 else 0) ≡ count n l
count-remove_one gone n [] there = absurd (omega arith)
count-remove_one gone n (m ∷ rest) there = ground (arith, count-remove_one gone n rest)

pub length-remove_one :
    (gone : ℕ) (l : List ℕ) → 0 < count gone l → length (remove_one gone l) + 1 ≡ length l
length-remove_one gone [] there = absurd (omega arith)
length-remove_one gone (m ∷ rest) there = ground (arith, length-remove_one gone rest)

pub List-cases {ℓ} :
    {A : Type ℓ} (l : List A) → (l ≡ []) ⊎ ((a : A) × (rest : List A) × (l ≡ a ∷ rest))
List-cases [] = inl refl
List-cases (a ∷ rest) = inr (a, rest, refl)

unfoldable pub take {ℓ} : {A : Type ℓ} → ℕ → List A → List A
take zero l = []
take (suc n) [] = []
take (suc n) (a ∷ l) = a ∷ take n l

unfoldable pub drop {ℓ} : {A : Type ℓ} → ℕ → List A → List A
drop zero l = l
drop (suc n) [] = []
drop (suc n) (a ∷ l) = drop n l

pub take-drop {ℓ} : {A : Type ℓ} (n : ℕ) (l : List A) → take n l ++ drop n l ≡ l
unfolding take drop
take-drop zero l = refl
take-drop (suc n) [] = refl
take-drop (suc n) (a ∷ l) = ap (◌∷◌ a) (take-drop n l)

pub length-drop {ℓ} :
    {A : Type ℓ} (n : ℕ) (l : List A) → n ≤ length l → length (drop n l) + n ≡ length l
unfolding drop
length-drop zero l h = omega arith
length-drop (suc n) [] h = absurd (omega arith)
length-drop (suc n) (a ∷ l) h = omega (arith, length-drop n l (omega arith))

pub take-length {ℓ} : {A : Type ℓ} (l r : List A) → take (length l) (l ++ r) ≡ l
unfolding take
take-length [] r = refl
take-length (a ∷ l) r = ap (◌∷◌ a) (take-length l r)

pub drop-length {ℓ} : {A : Type ℓ} (l r : List A) → drop (length l) (l ++ r) ≡ r
unfolding drop
drop-length [] r = refl
drop-length (a ∷ l) r = drop-length l r

pub append_assoc {ℓ} : {A : Type ℓ} (k l r : List A) → (k ++ l) ++ r ≡ k ++ (l ++ r)
append_assoc [] l r = refl
append_assoc (a ∷ k) l r = ap (◌∷◌ a) (append_assoc k l r)

pub append_nil {ℓ} : {A : Type ℓ} (l : List A) → l ++ [] ≡ l
append_nil [] = refl
append_nil (a ∷ l) = ap (◌∷◌ a) (append_nil l)
