-- ===== src/Bitmap/Byte.antt =====
-- The bits of one byte, by tables over all bytes, and the searches inside one byte.
use mathlib.Core.Path.{subst}
use dimdb.Prelude.{
  ℕ, zero, suc, ◌+◌, ◌-◌, ◌≤◌, ◌<◌, ◌^◌, bit_and, bit_or, ◌≡◌, refl, sym, Bool, true, false, not,
  ◌&&◌, ◌||◌, Option, none, some, arith, ltb, ◌==◌, Bool-cases, inl, inr,
}
use dimdb.Bits.{every, every-at, same, same-eq}
use dimdb.Bitmap.{
  test_bit, first_zero_from, first_one_from, find_first_zero, find_first_one, zero_in_byte,
  one_in_byte,
}

-- One entry of the tables: what the two updates make of bit `j`, and the size of the results.
entry : ℕ → ℕ → ℕ → Bool
entry b i j =
    same (test_bit (bit_or b (2 ^ i)) j) (i == j || test_bit b j)
    && same (test_bit (bit_and b (255 - 2 ^ i)) j) (not (i == j) && test_bit b j)

row : ℕ → ℕ → Bool
row b i = ltb (bit_or b (2 ^ i)) 256 && ltb (bit_and b (255 - 2 ^ i)) 256 && every 8 (entry b i)

table : every 256 (λ b. every 8 (row b)) ≡ true
unfolding every row entry same test_bit
table = refl

module _ (b i : ℕ) (b_byte : b < 256) (i_bit : i < 8) where
  row-eq-true : row b i ≡ true
  row-eq-true = every-at 8 (row b) i i_bit (every-at 256 (λ b. every 8 (row b)) b b_byte table)

  pub set_byte-lt : bit_or b (2 ^ i) < 256
  set_byte-lt = unfold row in ground (arith, row-eq-true)

  pub clear_byte-lt : bit_and b (255 - 2 ^ i) < 256
  clear_byte-lt = unfold row in ground (arith, row-eq-true)

  entry-eq-true : (j : ℕ) → j < 8 → entry b i j ≡ true
  entry-eq-true j j_bit = every-at 8 (entry b i) j j_bit (unfold row in ground (arith, row-eq-true))

  pub test_bit-set : (j : ℕ) → j < 8 → test_bit (bit_or b (2 ^ i)) j ≡ (i == j || test_bit b j)
  test_bit-set j j_bit = same-eq _ _ (unfold entry in ground (arith, entry-eq-true j j_bit))

  pub test_bit-clear :
      (j : ℕ) → j < 8 → test_bit (bit_and b (255 - 2 ^ i)) j ≡ (not (i == j) && test_bit b j)
  test_bit-clear j j_bit = same-eq _ _ (unfold entry in ground (arith, entry-eq-true j j_bit))

full_byte_table : every 8 (test_bit 255) ≡ true
unfolding every test_bit
full_byte_table = refl

full_byte : (j : ℕ) → j < 8 → test_bit 255 j ≡ true
full_byte j h = every-at 8 (test_bit 255) j h full_byte_table

empty_byte_table : every 8 (λ j. not (test_bit 0 j)) ≡ true
unfolding every test_bit
empty_byte_table = refl

empty_byte : (j : ℕ) → j < 8 → test_bit 0 j ≡ false
empty_byte j h = ground (arith, every-at 8 (λ j. not (test_bit 0 j)) j h empty_byte_table)

-- `IsFirst bit want lo hi r`: `r` is the first index in `lo ≤ j < hi` whose bit is `want`, or
-- `none` where all those bits are the other way.
abbrev pub IsFirst : (ℕ → Option Bool) → Bool → ℕ → ℕ → Option ℕ → Type 0
IsFirst bit want lo hi none = (j : ℕ) → lo ≤ j → j < hi → bit j ≡ some (not want)
IsFirst bit want lo hi (some k) =
    (lo ≤ k) × (k < hi) × (bit k ≡ some want) × ((j : ℕ) → lo ≤ j → j < k → bit j ≡ some (not want))

-- One more index below, known to be the other way.
pub IsFirst-step :
    (bit : ℕ → Option Bool) (want : Bool) (lo hi : ℕ) (r : Option ℕ)
    → bit lo ≡ some (not want)
    → IsFirst bit want (lo + 1) hi r
    → IsFirst bit want lo hi r
IsFirst-step bit want lo hi none here rest = λ j p q. elim (Bool-cases (lo == j)) [
  | inl e ↦ let e' : j ≡ lo = ground arith in rw e' here
  | inr e ↦ rest j (ground arith) q
]
IsFirst-step bit want lo hi (some k) here rest = (
  omega arith,
  rest.1,
  rest.2,
  λ j p q. elim (Bool-cases (lo == j)) [
    | inl e ↦ let e' : j ≡ lo = ground arith in rw e' here
    | inr e ↦ rest.3 j (ground arith) q
  ],
)

abbrev pub bit_of : ℕ → ℕ → Option Bool
bit_of b j = some (test_bit b j)

first_zero_from-IsFirst :
    (left b i : ℕ) → IsFirst (bit_of b) false i (i + left) (first_zero_from left b i)
unfolding first_zero_from
first_zero_from-IsFirst zero b i = λ j p q. absurd (omega arith)
first_zero_from-IsFirst (suc left) b i = elim (Bool-cases (test_bit b i)) [
  | inl one ↦
      let e : i + suc left ≡ i + 1 + left = omega arith in
      rw (one, e)
        (IsFirst-step (bit_of b) false i (i + 1 + left) (first_zero_from left b (i + 1)) (rw one)
          (first_zero_from-IsFirst left b (i + 1)))
  | inr zero_bit ↦
      rw zero_bit (omega arith, omega arith, rw zero_bit, λ j p q. absurd (omega arith))
]

first_one_from-IsFirst :
    (left b i : ℕ) → IsFirst (bit_of b) true i (i + left) (first_one_from left b i)
unfolding first_one_from
first_one_from-IsFirst zero b i = λ j p q. absurd (omega arith)
first_one_from-IsFirst (suc left) b i = elim (Bool-cases (test_bit b i)) [
  | inl one ↦ rw one (omega arith, omega arith, rw one, λ j p q. absurd (omega arith))
  | inr zero_bit ↦
      let e : i + suc left ≡ i + 1 + left = omega arith in
      rw (zero_bit, e)
        (IsFirst-step (bit_of b) true i (i + 1 + left) (first_one_from left b (i + 1)) (rw zero_bit)
          (first_one_from-IsFirst left b (i + 1)))
]

pub zero_in_byte-IsFirst :
    (b start : ℕ) → start ≤ 8 → IsFirst (bit_of b) false start 8 (zero_in_byte b start)
unfolding zero_in_byte find_first_zero
zero_in_byte-IsFirst b start h = elim (Bool-cases (b == 255)) [
  | inl full ↦ rw full λ j p q. let e : b ≡ 255 = ground arith in rw (e, full_byte j q)
  | inr other ↦
      let e : 8 ≡ start + (8 - start) = omega arith in
      rw other (
        subst (λ hi. IsFirst (bit_of b) false start hi (first_zero_from (8 - start) b start))
          (sym e) (first_zero_from-IsFirst (8 - start) b start))
]

pub one_in_byte-IsFirst :
    (b start : ℕ) → start ≤ 8 → IsFirst (bit_of b) true start 8 (one_in_byte b start)
unfolding one_in_byte find_first_one
one_in_byte-IsFirst b start h = elim (Bool-cases (b == 0)) [
  | inl empty ↦ rw empty λ j p q. let e : b ≡ 0 = ground arith in rw (e, empty_byte j q)
  | inr other ↦
      let e : 8 ≡ start + (8 - start) = omega arith in
      rw other (
        subst (λ hi. IsFirst (bit_of b) true start hi (first_one_from (8 - start) b start)) (sym e)
          (first_one_from-IsFirst (8 - start) b start))
]
