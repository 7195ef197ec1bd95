-- ===== src/Value/Trichotomy.antt =====
-- Of two values one is less, or they are equal.
use dimdb.Prelude.{◌≡◌, refl, Bool, true, false, not, ◌&&◌, ◌==◌, arith}
use dimdb.Prelude.{Bool-cases, inl, inr}
use dimdb.Frame.Id.{one_of, ltb_ℤ-eq_ℤ}
use dimdb.CharString
use dimdb.CharString.Order
use dimdb.CharString.Order.{less_bytes-equal_bytes}
use dimdb.Float
use dimdb.Float.{is_nan}
use dimdb.Value.{Data, Value, int32, float32, truth, text, int64, fixed, type_code}
use dimdb.Value.Compare.{
  equal, less, less_data, equal_data, equal_bool, greater, less_or_equal, greater_or_equal,
}

-- A float is a number, and a fixed string has its memory.
abbrev pub IsOrdered : Data → Type 0
IsOrdered (int32 a) = Unit
IsOrdered (float32 a) = is_nan a ≡ false
IsOrdered (truth a) = Unit
IsOrdered (text a) = Unit
IsOrdered (int64 a) = Unit
IsOrdered (fixed a) = CharString.Order.IsValid a

Trichotomy : Data → Data → Type 0
Trichotomy a b =
    IsOrdered a → IsOrdered b → one_of (less_data a b) (equal_data a b) (less_data b a) ≡ true

one_of_bool : (a b : Bool) → one_of (not a && b) (equal_bool a b) (not b && a) ≡ true
one_of_bool true true = refl
one_of_bool true false = refl
one_of_bool false true = refl
one_of_bool false false = refl

less_data-equal_data : (a b : Data) → Trichotomy a b
unfolding less_data equal_data Trichotomy
less_data-equal_data (int32 a) = λ b. elim b as (λ d. Trichotomy (int32 a) d) [
  | int32 b ↦ λ h k. ltb_ℤ-eq_ℤ a b
  | _ ↦ λ h k. refl
]
less_data-equal_data (float32 a) = λ b. elim b as (λ d. Trichotomy (float32 a) d) [
  | float32 b ↦ λ h k. Float.less-equal a b h k
  | _ ↦ λ h k. refl
]
less_data-equal_data (truth a) = λ b. elim b as (λ d. Trichotomy (truth a) d) [
  | truth b ↦ λ h k. one_of_bool a b
  | _ ↦ λ h k. refl
]
less_data-equal_data (text a) = λ b. elim b as (λ d. Trichotomy (text a) d) [
  | text b ↦ λ h k. less_bytes-equal_bytes a b
  | _ ↦ λ h k. refl
]
less_data-equal_data (int64 a) = λ b. elim b as (λ d. Trichotomy (int64 a) d) [
  | int64 b ↦ λ h k. ltb_ℤ-eq_ℤ a b
  | _ ↦ λ h k. refl
]
less_data-equal_data (fixed a) = λ b. elim b as (λ d. Trichotomy (fixed a) d) [
  | fixed b ↦ λ h k. CharString.Order.less-equal a b h k
  | _ ↦ λ h k. refl
]

one_of_values :
    (a b : Value)
    → IsOrdered a.value_
    → IsOrdered b.value_
    → one_of (less a b) (equal a b) (less b a) ≡ true
unfolding less equal Trichotomy
one_of_values a b h k = elim (Bool-cases (type_code a.type_ == type_code b.type_)) [
  | inl e ↦ elim (Bool-cases a.is_null_) [
    | inl n ↦ elim (Bool-cases b.is_null_) [
      | inl m ↦ rw (n, m) (ground arith)
      | inr m ↦ rw (n, m) (ground arith)
    ]
    | inr n ↦ elim (Bool-cases b.is_null_) [
      | inl m ↦ rw (n, m) (ground arith)
      | inr m ↦
          let e' : type_code b.type_ == type_code a.type_ ≡ true = ground arith in
          rw (e, e', n, m) (less_data-equal_data a.value_ b.value_ h k)
    ]
  ]
  | inr e ↦ ground (arith, e)
]

-- Of two values without a NaN exactly one is less, or they are equal, and the other operators agree
-- with these two.
pub greater-less :
    (a b : Value)
    → IsOrdered a.value_
    → IsOrdered b.value_
    → (one_of (less a b) (equal a b) (less b a) ≡ true)
      × (greater a b ≡ less b a)
      × (greater_or_equal a b ≡ less_or_equal b a)
      × (equal a b ≡ equal b a)
unfolding greater greater_or_equal less_or_equal
greater-less a b h k =
    let one = one_of_values a b h k in
    let other = one_of_values b a k h in
    let e : equal a b ≡ equal b a = ground (arith, one, other) in
    (one, ground (arith, one, other), ground (arith, one, other), e)
