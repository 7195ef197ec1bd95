-- ===== src/Bits/Fields.antt =====
-- `|` and `^` of numbers that are put together from a high and a low part.
use native.Mathlib.Nat.{pow-suc}
use dimdb.Prelude.{
  ℕ, zero, suc, ◌+◌, ◌*◌, ◌/◌, ◌≤◌, ◌<◌, ◌^◌, bit_or, bit_xor, ◌≡◌, refl, ap, ◌∙◌, arith,
}
use dimdb.Bits.Digit.{bit_or_digit, bit_xor_digit}

double : (k q : ℕ) → q * 2 ^ suc k ≡ q * 2 ^ k * 2
double k q = omega (arith, ap (λ (t : ℕ). q * t) (pow-suc 2 k))

or_zero_below : (bound a : ℕ) → a ≤ bound → bit_or a 0 ≡ a
or_zero_below zero a p = let e : a ≡ 0 = omega arith in rw e
or_zero_below (suc bound) zero p = refl
or_zero_below (suc bound) (suc a) p =
    omega (arith, bit_or_digit (suc a) 0, or_zero_below bound (suc a / 2) (omega arith))

-- `(high << k) | low` for a `low` of k bits
pub bit_or_parts : (k high low : ℕ) → low < 2 ^ k → bit_or (high * 2 ^ k) low ≡ high * 2 ^ k + low
bit_or_parts zero high low p =
    let e : low ≡ 0 = omega arith in
    let one : high * 2 ^ 0 ≡ high = omega arith in
    rw (e, one) (or_zero_below high high (omega arith) ∙ omega arith)
bit_or_parts (suc k) high low p =
    let half : high * 2 ^ suc k / 2 ≡ high * 2 ^ k = omega (arith, double k high) in
    omega (
      arith,
      bit_or_digit (high * 2 ^ suc k) low,
      ap (λ (x : ℕ). bit_or x (low / 2)) half,
      bit_or_parts k high (low / 2) (omega (arith, pow-suc 2 k)),
      double k high,
    )

-- `^` goes part by part.
pub bit_xor_parts :
    (k high low high' low' : ℕ)
    → low < 2 ^ k
    → low' < 2 ^ k
    → bit_xor (high * 2 ^ k + low) (high' * 2 ^ k + low')
      ≡ bit_xor high high' * 2 ^ k + bit_xor low low'
bit_xor_parts zero high low high' low' p q =
    let e : low ≡ 0 = omega arith in
    let e' : low' ≡ 0 = omega arith in
    let one : high * 2 ^ 0 + 0 ≡ high = omega arith in
    let one' : high' * 2 ^ 0 + 0 ≡ high' = omega arith in rw (e, e', one, one') (omega arith)
bit_xor_parts (suc k) high low high' low' p q =
    let half : (high * 2 ^ suc k + low) / 2 ≡ high * 2 ^ k + low / 2 =
      omega (arith, double k high) in
    let half' : (high' * 2 ^ suc k + low') / 2 ≡ high' * 2 ^ k + low' / 2 =
      omega (arith, double k high') in
    let halves : bit_xor ((high * 2 ^ suc k + low) / 2) ((high' * 2 ^ suc k + low') / 2)
        ≡ bit_xor (high * 2 ^ k + low / 2) (high' * 2 ^ k + low' / 2) =
      rw (half, half') in
    omega (
      arith,
      bit_xor_digit (high * 2 ^ suc k + low) (high' * 2 ^ suc k + low'),
      halves,
      bit_xor_parts k high (low / 2) high' (low' / 2) (omega (arith, pow-suc 2 k))
          (omega (arith, pow-suc 2 k)),
      bit_xor_digit low low',
      double k high,
      double k high',
      double k (bit_xor high high'),
    )
