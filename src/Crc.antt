-- ===== src/Crc.antt =====
-- src/dimserver/common/math/crc.cpp: `crc32` over a buffer of bytes.
--
-- The buffer is the list of its bytes, numbers below 256, and `address` is where it stands, of which the
-- code reads the two low bits. A word is read with its lowest byte first.
mod Table
pub mod Equivalence
pub mod Words
mod Tests
unfoldable pub use Table.{table}
use mathlib.Core.Option
use dimdb.Prelude.{
  ℕ, zero, suc, ◌+◌, ◌-◌, ◌*◌, ◌/◌, ◌%◌, ◌^◌, bit_xor, List, [], ◌∷◌, length, get_elem?, ◌==◌,
  if◌then◌else◌, none, some,
}

-- `crc_table[i]`, for an index below 256
unfoldable pub entry : ℕ → ℕ
entry i = elim (get_elem? table i) [ none ↦ 0 | some e ↦ e ]

unfoldable pub byte_step : ℕ → ℕ → ℕ
byte_step crc byte = bit_xor (entry (bit_xor crc byte % 256)) (crc / 256)

-- The loop up to the next multiple of 4.
pub align : ℕ → ℕ → List ℕ → ℕ × List ℕ
align address crc [] = (crc, [])
align address crc (byte ∷ buf) =
    let rest = align (address + 1) (byte_step crc byte) buf in
    if address % 4 == 0 then (crc, byte ∷ buf) else rest

-- One block of 4 bytes: the four bytes of `tmp` select four entries of the one table.
pub word_step : ℕ → ℕ → ℕ → ℕ → ℕ → ℕ
word_step crc b0 b1 b2 b3 =
    let tmp = bit_xor (b0 + b1 * 2 ^ 8 + b2 * 2 ^ 16 + b3 * 2 ^ 24) crc in
    bit_xor
      (bit_xor (bit_xor (entry (tmp / 2 ^ 24 % 256)) (entry (tmp / 2 ^ 16 % 256)))
        (entry (tmp / 2 ^ 8 % 256)))
      (entry (tmp % 256))

pub words : ℕ → List ℕ → ℕ × List ℕ
words crc (b0 ∷ b1 ∷ b2 ∷ b3 ∷ buf) = words (word_step crc b0 b1 b2 b3) buf
words crc buf = (crc, buf)

-- The loop over the bytes that are left.
pub tail : ℕ → List ℕ → ℕ
tail crc [] = crc
tail crc (byte ∷ buf) = tail (byte_step crc byte) buf

pub crc32 : ℕ → List ℕ → ℕ
unfolding align words tail
crc32 address buf =
    let (crc, aligned) = align address 0xFFFFFFFF buf in
    let (crc', rest) = words crc aligned in bit_xor (tail crc' rest) 0xFFFFFFFF
