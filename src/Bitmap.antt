-- ===== src/Bitmap.antt =====
-- src/dimserver/common/bitmap: a bitmap over a buffer of bytes that it does not own.
--
-- A byte is a number below 256. The source reads it as a `char`, whose sign the tests
-- `bits & (1 << i)` with i < 8 do not see, and compares it with -1, the byte 255 of a signed char.
-- `int` results of -1 are `none`. An access outside the buffer, which C++ leaves undefined, makes
-- the outer `none` of `get`, `set`, `clear` and the searches.
mod Byte
pub mod Text
pub mod Access
pub mod Search
mod Tests
use mathlib.Core.Option
use dimdb.Prelude.{
  ℕ, zero, suc, ◌+◌, ◌-◌, ◌*◌, ◌/◌, ◌%◌, ◌^◌, bit_and, bit_or, Bool, true, false, not, Option, none,
  some, ◌≤◌, ◌<◌, ◌≡◌, List, length, get_elem?, set, leb, ◌==◌, if◌then◌else◌,
}

pub record Bitmap : Type 0 where
  pub size : ℕ
  pub bitmap : List ℕ

pub bytes : Bitmap → ℕ
bytes bm = (bm.size + 7) / 8

-- `(byte & (1 << i)) != 0`
pub test_bit : ℕ → ℕ → Bool
test_bit byte i = not (bit_and byte (2 ^ i) == 0)

-- The loops `for (i = start; i < 8; ++i)`, by the number of rounds left.
first_zero_from : ℕ → ℕ → ℕ → Option ℕ
first_zero_from zero byte i = none
first_zero_from (suc left) byte i =
    let rest = first_zero_from left byte (i + 1) in if test_bit byte i then rest else some i

first_one_from : ℕ → ℕ → ℕ → Option ℕ
first_one_from zero byte i = none
first_one_from (suc left) byte i =
    let rest = first_one_from left byte (i + 1) in if test_bit byte i then some i else rest

pub find_first_zero : ℕ → ℕ → Option ℕ
unfolding first_zero_from
find_first_zero byte start = first_zero_from (8 - start) byte start

pub find_first_one : ℕ → ℕ → Option ℕ
unfolding first_one_from
find_first_one byte start = first_one_from (8 - start) byte start

pub get : Bitmap → ℕ → Option Bool
get bm index = Option.map (λ byte. test_bit byte (index % 8)) (get_elem? bm.bitmap (index / 8))

-- `bits |= (1 << (index % 8))` on the byte at `index / 8`
pub set_bit : Bitmap → ℕ → Option Bitmap
set_bit bm index =
    Option.map
      (λ byte. record bm { bitmap = set bm.bitmap (index / 8) (bit_or byte (2 ^ (index % 8))) })
      (get_elem? bm.bitmap (index / 8))

-- `bits &= ~(1 << (index % 8))`; of the mask the byte keeps the low eight bits.
pub clear : Bitmap → ℕ → Option Bitmap
clear bm index =
    Option.map
      (λ byte. record bm {
        bitmap = set bm.bitmap (index / 8) (bit_and byte (255 - 2 ^ (index % 8)));
      })
      (get_elem? bm.bitmap (index / 8))

-- What one round of `next_zero_bit` finds in its byte: a byte of ones is passed over.
pub zero_in_byte : ℕ → ℕ → Option ℕ
zero_in_byte byte start = if byte == 255 then none else find_first_zero byte start

pub one_in_byte : ℕ → ℕ → Option ℕ
one_in_byte byte start = if byte == 0 then none else find_first_one byte start

-- The loop over the bytes that both searches have, by the number of bytes left. Only the first
-- round starts inside its byte.
scan_bytes : (ℕ → ℕ → Option ℕ) → List ℕ → ℕ → ℕ → ℕ → Option (Option ℕ)
scan_bytes in_byte bitmap zero iter start_in_byte = some none
scan_bytes in_byte bitmap (suc left) iter start_in_byte = elim (get_elem? bitmap iter) [
  | none ↦ none
  | some byte ↦ elim (in_byte byte start_in_byte) [
    | none ↦ scan_bytes in_byte bitmap left (iter + 1) 0
    | some index_in_byte ↦ some (some (iter * 8 + index_in_byte))
  ]
]

-- `if (ret >= size_) ret = -1`
within : ℕ → Option ℕ → Option ℕ
within size none = none
within size (some ret) = if leb size ret then none else some ret

pub next_zero_bit : Bitmap → ℕ → Option (Option ℕ)
unfolding within scan_bytes
next_zero_bit bm start =
    Option.map (within bm.size)
      (scan_bytes zero_in_byte bm.bitmap (bytes bm - start / 8) (start / 8) (start % 8))

pub next_one_bit : Bitmap → ℕ → Option (Option ℕ)
unfolding within scan_bytes
next_one_bit bm start =
    Option.map (within bm.size)
      (scan_bytes one_in_byte bm.bitmap (bytes bm - start / 8) (start / 8) (start % 8))

-- The buffer holds bytes, and as many as the size asks for.
pub record IsValid (bm : Bitmap) : Type 0 where
  pub covers : bytes bm ≤ length bm.bitmap
  pub all_bytes : (i b : ℕ) → get_elem? bm.bitmap i ≡ some b → b < 256
