-- ===== src/Float.antt =====
-- The `float` of the program, an IEEE 754 number of 32 bits given by its bits, and its comparisons.
use dimdb.Prelude.{
  ℕ, ◌-◌, ◌%◌, ◌^◌, Bool, true, false, not, ◌&&◌, ◌||◌, ltb, ◌==◌, if◌then◌else◌, ◌≡◌,
}
use dimdb.Prelude.Int.{ℤ, pos, negsuc, ltb_ℤ}
use dimdb.Frame.{eq_ℤ}
use dimdb.Frame.Id.{one_of, ltb_ℤ-eq_ℤ}

-- An exponent of ones and a fraction that is not zero.
abbrev pub is_nan : ℕ → Bool
is_nan bits = ltb (2 ^ 31 - 2 ^ 23) (bits % 2 ^ 31)

-- The numbers in their order: the sign and the other bits, with one zero.
abbrev pub rank : ℕ → ℤ
rank bits =
    let magnitude = bits % 2 ^ 31 in
    if ltb bits (2 ^ 31) || magnitude == 0 then pos magnitude else negsuc (magnitude - 1)

unfoldable pub less : ℕ → ℕ → Bool
less a b = not (is_nan a) && not (is_nan b) && ltb_ℤ (rank a) (rank b)

unfoldable pub equal : ℕ → ℕ → Bool
equal a b = not (is_nan a) && not (is_nan b) && eq_ℤ (rank a) (rank b)

pub less-equal :
    (a b : ℕ)
    → is_nan a ≡ false
    → is_nan b ≡ false
    → one_of (less a b) (equal a b) (less b a) ≡ true
unfolding less equal
less-equal a b h k = rw (h, k) (ltb_ℤ-eq_ℤ (rank a) (rank b))
