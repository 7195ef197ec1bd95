-- ===== src/Crc/Equivalence.antt =====
-- Where the loop over blocks does not run, `crc32` is the checksum of `Page::calc_checksum`.
use dimdb.Prelude.{
  ℕ, ◌+◌, ◌-◌, ◌/◌, ◌%◌, ◌^◌, ◌≤◌, ◌<◌, bit_xor, ◌≡◌, refl, ap, ◌∙◌, true, List, [], ◌∷◌, length,
  ◌==◌, arith, Bool-cases, inl, inr,
}
use dimdb.Bits.{every, every-at}
use dimdb.Bits.Xor.{bit_xor_ones}
use dimdb.Page.{crc_table, crc_step, crc_loop, checksum_of}
use dimdb.Page.Checksum.{crc_loop-lt}
use dimdb.Crc.{entry, byte_step, align, words, tail, crc32, table}

table_agrees : every 256 (λ i. entry i == crc_table i) ≡ true
unfolding every entry table crc_table
table_agrees = refl

-- The constant table is the one that `Page::calc_checksum` computes.
pub entry-eq-crc_table : (i : ℕ) → i < 256 → entry i ≡ crc_table i
entry-eq-crc_table i p = ground (arith, every-at 256 (λ i. entry i == crc_table i) i p table_agrees)

pub byte_step-eq-crc_step : (crc byte : ℕ) → byte_step crc byte ≡ crc_step crc byte
unfolding byte_step crc_step
byte_step-eq-crc_step crc byte =
    ap (λ (e : ℕ). bit_xor e (crc / 256))
      (entry-eq-crc_table (bit_xor crc byte % 256) (omega arith))

tail-eq-crc_loop : (crc : ℕ) (buf : List ℕ) → tail crc buf ≡ crc_loop crc buf
unfolding tail crc_loop
tail-eq-crc_loop crc [] = refl
tail-eq-crc_loop crc (b ∷ buf) =
    tail-eq-crc_loop (byte_step crc b) buf
    ∙ ap (λ (c : ℕ). crc_loop c buf) (byte_step-eq-crc_step crc b)

tail-align :
    (address crc : ℕ) (buf : List ℕ)
    → tail (align address crc buf).0 (align address crc buf).1 ≡ tail crc buf
unfolding align tail
tail-align address crc [] = refl
tail-align address crc (b ∷ buf) = elim (Bool-cases (address % 4 == 0)) [
  | inl here ↦ rw here
  | inr on ↦ rw on (tail-align (address + 1) (byte_step crc b) buf)
]

length-align : (address crc : ℕ) (buf : List ℕ) → length (align address crc buf).1 ≤ length buf
unfolding align
length-align address crc [] = omega arith
length-align address crc (b ∷ buf) =
    ground (arith, length-align (address + 1) (byte_step crc b) buf)

words_short : (crc : ℕ) (buf : List ℕ) → length buf < 4 → words crc buf ≡ (crc, buf)
unfolding words
words_short crc (b0 ∷ b1 ∷ b2 ∷ b3 ∷ buf) p = absurd (omega arith)
words_short crc _ p = refl

-- Of fewer than four bytes, wherever they stand, `crc32` is the checksum that `Page::calc_checksum`
-- stores for them.
pub crc32-eq-checksum_of :
    (address : ℕ) (buf : List ℕ) → length buf < 4 → crc32 address buf ≡ checksum_of buf
unfolding crc32 checksum_of
crc32-eq-checksum_of address buf p =
    let ones = 2 ^ 32 - 1 in
    let aligned = align address ones buf in
    let short = words_short aligned.0 aligned.1 (omega (arith, length-align address ones buf)) in
    let loop : tail (words aligned.0 aligned.1).0 (words aligned.0 aligned.1).1
        ≡ crc_loop ones buf =
      ap (λ (r : ℕ × List ℕ). tail r.0 r.1) short
      ∙ tail-align address ones buf
      ∙ tail-eq-crc_loop ones buf in
    ap (λ (x : ℕ). bit_xor x ones) loop
    ∙ bit_xor_ones 32 (crc_loop ones buf) (crc_loop-lt ones buf (omega arith))
