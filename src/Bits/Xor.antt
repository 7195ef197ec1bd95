-- ===== src/Bits/Xor.antt =====
-- The laws of `^`, by induction on a bound of the first number.
use dimdb.Prelude.{
  ℕ, zero, suc, ◌+◌, ◌-◌, ◌/◌, ◌%◌, ◌≤◌, ◌<◌, ◌^◌, bit_xor, ◌≡◌, refl, sym, ap, ◌∙◌, arith,
}
use native.Mathlib.Nat.{pow-suc}
use dimdb.Bits.Digit.{zero-bit_xor, bit_xor_digit}

pub bit_xor_half : (a b : ℕ) → bit_xor a b / 2 ≡ bit_xor (a / 2) (b / 2)
bit_xor_half a b = omega (arith, bit_xor_digit a b)

bit_xor_parity : (a b : ℕ) → bit_xor a b % 2 ≡ (a + b) % 2
bit_xor_parity a b = omega (arith, bit_xor_digit a b)

zero_below : (bound a : ℕ) → a ≤ bound → bit_xor a 0 ≡ a
zero_below zero a p = let e : a ≡ 0 = omega arith in rw e
zero_below (suc bound) zero p = refl
zero_below (suc bound) (suc a) p =
    omega (arith, bit_xor_digit (suc a) 0, zero_below bound (suc a / 2) (omega arith))

pub bit_xor-zero : (a : ℕ) → bit_xor a 0 ≡ a
bit_xor-zero a = zero_below a a (omega arith)

comm_below : (bound a b : ℕ) → a ≤ bound → bit_xor a b ≡ bit_xor b a
comm_below zero a b p = let e : a ≡ 0 = omega arith in rw e (zero-bit_xor b ∙ sym (bit_xor-zero b))
comm_below (suc bound) zero b p = zero-bit_xor b ∙ sym (bit_xor-zero b)
comm_below (suc bound) (suc a) b p = omega (
  arith,
  bit_xor_digit (suc a) b,
  bit_xor_digit b (suc a),
  comm_below bound (suc a / 2) (b / 2) (omega arith),
)

pub bit_xor_comm : (a b : ℕ) → bit_xor a b ≡ bit_xor b a
bit_xor_comm a b = comm_below a a b (omega arith)

self_below : (bound a : ℕ) → a ≤ bound → bit_xor a a ≡ 0
self_below zero a p = let e : a ≡ 0 = omega arith in rw e
self_below (suc bound) zero p = refl
self_below (suc bound) (suc a) p =
    omega (arith, bit_xor_digit (suc a) (suc a), self_below bound (suc a / 2) (omega arith))

pub bit_xor_self : (a : ℕ) → bit_xor a a ≡ 0
bit_xor_self a = self_below a a (omega arith)

assoc_below : (bound a b c : ℕ) → a ≤ bound → bit_xor (bit_xor a b) c ≡ bit_xor a (bit_xor b c)
assoc_below zero a b c p = let e : a ≡ 0 = omega arith in rw (e, zero-bit_xor, zero-bit_xor)
assoc_below (suc bound) zero b c p = rw (zero-bit_xor, zero-bit_xor)
assoc_below (suc bound) (suc a) b c p =
    let ih = assoc_below bound (suc a / 2) (b / 2) (c / 2) (omega arith) in
    let left : bit_xor (bit_xor (suc a) b / 2) (c / 2)
        ≡ bit_xor (bit_xor (suc a / 2) (b / 2)) (c / 2) =
      rw bit_xor_half in
    let right : bit_xor (suc a / 2) (bit_xor b c / 2)
        ≡ bit_xor (suc a / 2) (bit_xor (b / 2) (c / 2)) =
      ap (bit_xor (suc a / 2)) (bit_xor_half b c) in
    omega (
      arith,
      bit_xor_digit (bit_xor (suc a) b) c,
      bit_xor_digit (suc a) (bit_xor b c),
      bit_xor_parity (suc a) b,
      bit_xor_parity b c,
      left,
      right,
      ih,
    )

pub bit_xor_assoc : (a b c : ℕ) → bit_xor (bit_xor a b) c ≡ bit_xor a (bit_xor b c)
bit_xor_assoc a b c = assoc_below a a b c (omega arith)

-- What `^ b` does, `^ b` undoes.
pub bit_xor_undo : (a b : ℕ) → bit_xor (bit_xor a b) b ≡ a
bit_xor_undo a b = bit_xor_assoc a b b ∙ ap (bit_xor a) (bit_xor_self b) ∙ bit_xor-zero a

pub bit_xor_cancel : (a b c : ℕ) → bit_xor a c ≡ bit_xor b c → a ≡ b
bit_xor_cancel a b c e = sym (bit_xor_undo a c) ∙ ap (λ (x : ℕ). bit_xor x c) e ∙ bit_xor_undo b c

pub bit_xor_cancel_left : (a b c : ℕ) → bit_xor c a ≡ bit_xor c b → a ≡ b
bit_xor_cancel_left a b c e = bit_xor_cancel a b c (bit_xor_comm a c ∙ e ∙ bit_xor_comm c b)

-- `~` of k bits
pub bit_xor_ones : (k a : ℕ) → a < 2 ^ k → bit_xor a (2 ^ k - 1) ≡ 2 ^ k - 1 - a
bit_xor_ones zero a p = let e : a ≡ 0 = omega arith in rw e
bit_xor_ones (suc k) a p =
    let half : (2 ^ suc k - 1) / 2 ≡ 2 ^ k - 1 = omega (arith, pow-suc 2 k) in
    omega (
      arith,
      pow-suc 2 k,
      bit_xor_digit a (2 ^ suc k - 1),
      ap (bit_xor (a / 2)) half,
      bit_xor_ones k (a / 2) (omega (arith, pow-suc 2 k)),
    )
