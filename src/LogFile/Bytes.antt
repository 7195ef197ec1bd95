-- ===== src/LogFile/Bytes.antt =====
-- The bytes of a header: what `write` lays out, `go_to` and `iterate` read back.
use dimdb.Prelude.{
  ℕ, zero, suc, ◌-◌, ◌*◌, ◌/◌, ◌%◌, ◌^◌, ◌<◌, ◌≡◌, refl, ◌∙◌, ap, false, length, take, drop, ltb,
  arith,
}
use dimdb.Prelude.Int.{ℤ, pos, negsuc}
use dimdb.Frame.{to_size}
use dimdb.LogEntry.{LogHeader, to_int32}
use dimdb.LogFile.{le, from_le, bits_32, to_int64, header_bytes, header_of}

-- A number of that many values fits `int32_t` or `int64_t`.
abbrev pub FitsIn : ℕ → ℤ → Type 0
FitsIn values (pos n) = n < values
FitsIn values (negsuc n) = n < values

abbrev pub values_of : ℕ → ℕ
values_of zero = 1
values_of (suc k) = 256 * values_of k

pub from_le-le : (k n : ℕ) → n < values_of k → from_le (le k n) ≡ n
unfolding from_le le
from_le-le zero n h = omega arith
from_le-le (suc k) n h = omega (arith, from_le-le k (n / 256) (omega arith))

pub to_int64-to_size : (z : ℤ) → FitsIn (2 ^ 63) z → to_int64 (to_size z) ≡ z
unfolding to_int64 to_size
to_int64-to_size (pos n) h = let e : n % 2 ^ 64 ≡ n = omega arith in rw e (ground arith)
to_int64-to_size (negsuc n) h =
    let e : n % 2 ^ 64 ≡ n = omega arith in
    let back : 2 ^ 64 - 1 - (2 ^ 64 - 1 - n) ≡ n = omega arith in
    let big : ltb (2 ^ 64 - 1 - n) (2 ^ 63) ≡ false = ground arith in rw (e, big, back) refl

pub to_int32-bits_32 : (z : ℤ) → FitsIn (2 ^ 31) z → to_int32 (bits_32 z) ≡ z
unfolding to_int32 bits_32
to_int32-bits_32 (pos n) h = let e : n % 2 ^ 32 ≡ n = omega arith in rw e (rw e (ground arith))
to_int32-bits_32 (negsuc n) h =
    let e : n % 2 ^ 32 ≡ n = omega arith in
    let e' : (2 ^ 32 - 1 - n) % 2 ^ 32 ≡ 2 ^ 32 - 1 - n = omega arith in
    let back : 2 ^ 32 - 1 - (2 ^ 32 - 1 - n) ≡ n = omega arith in
    let big : ltb (2 ^ 32 - 1 - n) (2 ^ 31) ≡ false = ground arith in rw (e, e', big, back) refl

pub to_size-lt : (z : ℤ) → to_size z < values_of 8
unfolding to_size
to_size-lt (pos n) = omega arith
to_size-lt (negsuc n) = omega arith

pub bits_32-lt : (z : ℤ) → bits_32 z < values_of 4
unfolding bits_32
bits_32-lt (pos n) = omega arith
bits_32-lt (negsuc n) = omega arith

pub length-header_bytes : (h : LogHeader) → length (header_bytes h) ≡ 16
unfolding header_bytes le
length-header_bytes h = refl

-- A header whose members fit their types is read back from its bytes.
pub header_of-header_bytes :
    (h : LogHeader)
    → FitsIn (2 ^ 63) h.lsn
    → FitsIn (2 ^ 31) h.data_size
    → FitsIn (2 ^ 31) h.module_id
    → header_of (header_bytes h) ≡ h
unfolding header_of header_bytes take drop le
header_of-header_bytes h l d m =
    let lsn_back =
      ap to_int64 (from_le-le 8 (to_size h.lsn) (to_size-lt h.lsn)) ∙ to_int64-to_size h.lsn l in
    let size_back =
      ap to_int32 (from_le-le 4 (bits_32 h.data_size) (bits_32-lt h.data_size))
      ∙ to_int32-bits_32 h.data_size d in
    let module_back =
      ap to_int32 (from_le-le 4 (bits_32 h.module_id) (bits_32-lt h.module_id))
      ∙ to_int32-bits_32 h.module_id m in
    λ i. record { lsn = lsn_back i; data_size = size_back i; module_id = module_back i }
