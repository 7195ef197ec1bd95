-- ===== src/Page/Crc.antt =====
-- One step of the checksum loses nothing: from its result and the byte, or the register, follows the
-- other.
use dimdb.Prelude.{
  ℕ, zero, suc, ◌+◌, ◌*◌, ◌/◌, ◌%◌, ◌^◌, ◌<◌, bit_xor, ◌≡◌, refl, sym, ap, ◌∙◌, Bool, true, ◌&&◌,
  ltb, ◌==◌, if◌then◌else◌, arith,
}
use native.Mathlib.Nat.{pow-suc}
use dimdb.Bits.{every, every-at}
use dimdb.Bits.Digit.{bit_xor_digit}
use dimdb.Bits.Xor.{bit_xor-zero, bit_xor_cancel, bit_xor_cancel_left}
use dimdb.Bits.Fields.{bit_xor_parts}
use dimdb.Page.{crc_table, crc_step}

pub bit_xor-lt : (k a b : ℕ) → a < 2 ^ k → b < 2 ^ k → bit_xor a b < 2 ^ k
bit_xor-lt zero a b p q =
    let e : a ≡ 0 = omega arith in let e' : b ≡ 0 = omega arith in rw (e, e') (omega arith)
bit_xor-lt (suc k) a b p q = omega (
  arith,
  bit_xor_digit a b,
  pow-suc 2 k,
  bit_xor-lt k (a / 2) (b / 2) (omega (arith, pow-suc 2 k)) (omega (arith, pow-suc 2 k)),
)

-- The rounds backwards: the entry's index from the top byte of the entry.
undo_round : ℕ → ℕ
undo_round c = if ltb c (2 ^ 31) then c * 2 else bit_xor c 0xEDB88320 * 2 % 2 ^ 32 + 1

undo_rounds : ℕ → ℕ → ℕ
undo_rounds zero c = c
undo_rounds (suc left) c = undo_rounds left (undo_round c)

index_of : ℕ → ℕ
index_of top = undo_rounds 8 (top * 2 ^ 24) % 256

entry_fits : ℕ → Bool
entry_fits i = ltb (crc_table i) (2 ^ 32) && (index_of (crc_table i / 2 ^ 24) == i)

entries : every 256 entry_fits ≡ true
unfolding every entry_fits index_of undo_rounds undo_round crc_table
entries = refl

crc_table-lt : (i : ℕ) → i < 256 → crc_table i < 2 ^ 32
crc_table-lt i p = unfold entry_fits in ground (arith, every-at 256 entry_fits i p entries)

index_of-top : (i : ℕ) → i < 256 → index_of (crc_table i / 2 ^ 24) ≡ i
index_of-top i p = unfold entry_fits in ground (arith, every-at 256 entry_fits i p entries)

abbrev index : ℕ → ℕ → ℕ
index c byte = bit_xor c byte % 256

-- The top byte of a step is that of the table's entry.
step_top : (c byte : ℕ) → c < 2 ^ 32 → crc_step c byte / 2 ^ 24 ≡ crc_table (index c byte) / 2 ^ 24
unfolding crc_step
step_top c byte p =
    let entry = crc_table (index c byte) in
    let split : entry / 2 ^ 24 * 2 ^ 24 + entry % 2 ^ 24 ≡ entry = omega arith in
    let shifted : 0 * 2 ^ 24 + c / 256 ≡ c / 256 = omega arith in
    let parts =
      bit_xor_parts 24 (entry / 2 ^ 24) (entry % 2 ^ 24) 0 (c / 256) (omega arith) (omega arith) in
    let low = bit_xor-lt 24 (entry % 2 ^ 24) (c / 256) (omega arith) (omega arith) in
    let whole : bit_xor entry (c / 256)
        ≡ entry / 2 ^ 24 * 2 ^ 24 + bit_xor (entry % 2 ^ 24) (c / 256) =
      rw (split, shifted, bit_xor-zero) at parts in
    omega (arith, whole, low)

-- The index is made of the register's low byte.
index-low : (c byte : ℕ) → byte < 256 → index c byte ≡ bit_xor (c % 256) byte
index-low c byte p =
    let split : c / 256 * 2 ^ 8 + c % 256 ≡ c = omega arith in
    let alone : 0 * 2 ^ 8 + byte ≡ byte = omega arith in
    let parts = bit_xor_parts 8 (c / 256) (c % 256) 0 byte (omega arith) (omega arith) in
    let low = bit_xor-lt 8 (c % 256) byte (omega arith) (omega arith) in
    let whole : bit_xor c byte ≡ bit_xor (c / 256) 0 * 2 ^ 8 + bit_xor (c % 256) byte =
      rw (split, alone) at parts in
    omega (arith, whole, low)

pub crc_step-lt : (c byte : ℕ) → c < 2 ^ 32 → crc_step c byte < 2 ^ 32
unfolding crc_step
crc_step-lt c byte p =
    bit_xor-lt 32 (crc_table (index c byte)) (c / 256) (crc_table-lt (index c byte) (omega arith))
      (omega arith)

same_index :
    (c byte c' byte' : ℕ)
    → c < 2 ^ 32
    → c' < 2 ^ 32
    → crc_step c byte ≡ crc_step c' byte'
    → index c byte ≡ index c' byte'
same_index c byte c' byte' p p' e =
    sym (index_of-top (index c byte) (omega arith))
    ∙ ap index_of (sym (step_top c byte p) ∙ ap (λ (x : ℕ). x / 2 ^ 24) e ∙ step_top c' byte' p')
    ∙ index_of-top (index c' byte') (omega arith)

-- From the same register, two bytes that give the same result are the same.
pub step_same_byte :
    (c byte byte' : ℕ)
    → c < 2 ^ 32
    → byte < 256
    → byte' < 256
    → crc_step c byte ≡ crc_step c byte'
    → byte ≡ byte'
step_same_byte c byte byte' p q q' e =
    bit_xor_cancel_left byte byte' (c % 256)
      (sym (index-low c byte q) ∙ same_index c byte c byte' p p e ∙ index-low c byte' q')

-- With the same byte, two registers that give the same result are the same.
pub step_same_register :
    (c c' byte : ℕ)
    → c < 2 ^ 32
    → c' < 2 ^ 32
    → byte < 256
    → crc_step c byte ≡ crc_step c' byte
    → c ≡ c'
unfolding crc_step
step_same_register c c' byte p p' q e =
    let i = same_index c byte c' byte p p' e in
    let low : c % 256 ≡ c' % 256 =
      bit_xor_cancel (c % 256) (c' % 256) byte
        (sym (index-low c byte q) ∙ i ∙ index-low c' byte q) in
    let high : c / 256 ≡ c' / 256 =
      bit_xor_cancel_left (c / 256) (c' / 256) (crc_table (index c byte))
        (e ∙ ap (λ (x : ℕ). bit_xor (crc_table x) (c' / 256)) (sym i)) in
    omega (arith, low, high)
