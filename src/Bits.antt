-- ===== src/Bits.antt =====
-- Facts about bits that the components share: tables over small ranges, and the laws of the native
-- `|` and `^` at variables, from the equation for the lowest digit.
pub mod Digit
pub mod Xor
pub mod Fields
use dimdb.Prelude.{ℕ, zero, suc, ◌<◌, ◌≡◌, Bool, true, false, not, if◌then◌else◌, arith}

-- A test that holds of every number under a bound, by evaluation.
unfoldable pub every : ℕ → (ℕ → Bool) → Bool
every zero test = true
every (suc bound) test = if test bound then every bound test else false

pub every-at :
    (bound : ℕ) (test : ℕ → Bool) (k : ℕ) → k < bound → every bound test ≡ true → test k ≡ true
unfolding every
every-at zero test k below passed = absurd (omega arith)
every-at (suc bound) test k below passed = ground (arith, every-at bound test k)

unfoldable pub same : Bool → Bool → Bool
same true b = b
same false b = not b

pub same-eq : (a b : Bool) → same a b ≡ true → a ≡ b
unfolding same
same-eq true b h = ground arith
same-eq false b h = ground arith
