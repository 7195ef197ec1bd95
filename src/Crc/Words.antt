-- ===== src/Crc/Words.antt =====
-- The loop over blocks looks up all four bytes of a word in one table, so it does not see their order.
use dimdb.Prelude.{
  ℕ, ◌+◌, ◌-◌, ◌*◌, ◌/◌, ◌%◌, ◌^◌, ◌<◌, bit_xor, ◌≡◌, sym, ap, ◌∙◌, List, ◌∷◌, ◌==◌, arith, true,
}
use dimdb.Bits.Xor.{bit_xor_ones, bit_xor_comm, bit_xor_assoc}
use dimdb.Crc.{entry, align, word_step, words, tail, crc32}

abbrev ones : ℕ
ones = 2 ^ 32 - 1

-- The first word meets a register of ones.
first_word :
    (b0 b1 b2 b3 : ℕ)
    → b0 < 256
    → b1 < 256
    → b2 < 256
    → b3 < 256
    → word_step ones b0 b1 b2 b3
      ≡ bit_xor
          (bit_xor (bit_xor (entry (255 - b3)) (entry (255 - b2))) (entry (255 - b1)))
          (entry (255 - b0))
unfolding word_step
first_word b0 b1 b2 b3 p0 p1 p2 p3 =
    let word = b0 + b1 * 2 ^ 8 + b2 * 2 ^ 16 + b3 * 2 ^ 24 in
    let flipped = bit_xor_ones 32 word (omega arith) in
    let e3 : (ones - word) / 2 ^ 24 % 256 ≡ 255 - b3 = omega arith in
    let e2 : (ones - word) / 2 ^ 16 % 256 ≡ 255 - b2 = omega arith in
    let e1 : (ones - word) / 2 ^ 8 % 256 ≡ 255 - b1 = omega arith in
    let e0 : (ones - word) % 256 ≡ 255 - b0 = omega arith in rw (flipped, e3, e2, e1, e0)

swap_word :
    (b0 b1 b2 b3 : ℕ)
    → b0 < 256
    → b1 < 256
    → b2 < 256
    → b3 < 256
    → word_step ones b0 b1 b2 b3 ≡ word_step ones b1 b0 b2 b3
swap_word b0 b1 b2 b3 p0 p1 p2 p3 =
    let high = bit_xor (entry (255 - b3)) (entry (255 - b2)) in
    first_word b0 b1 b2 b3 p0 p1 p2 p3
    ∙ bit_xor_assoc high (entry (255 - b1)) (entry (255 - b0))
    ∙ ap (bit_xor high) (bit_xor_comm (entry (255 - b1)) (entry (255 - b0)))
    ∙ sym (bit_xor_assoc high (entry (255 - b0)) (entry (255 - b1)))
    ∙ sym (first_word b1 b0 b2 b3 p1 p0 p2 p3)

-- What is left to do after the first word.
after_word : ℕ → List ℕ → ℕ
after_word crc buf = bit_xor (tail (words crc buf).0 (words crc buf).1) ones

crc32-word_step :
    (address b0 b1 b2 b3 : ℕ) (buf : List ℕ)
    → address % 4 ≡ 0
    → crc32 address (b0 ∷ b1 ∷ b2 ∷ b3 ∷ buf) ≡ after_word (word_step ones b0 b1 b2 b3) buf
unfolding crc32 after_word
crc32-word_step address b0 b1 b2 b3 buf at =
    let test : (address % 4 == 0) ≡ true = ground (arith, at) in rw (test, align)

-- In a buffer at a multiple of 4 that holds a whole word, the first two bytes can change places:
-- `crc32` returns the same, whatever the bytes are.
pub crc32_swap :
    (address b0 b1 b2 b3 : ℕ) (buf : List ℕ)
    → address % 4 ≡ 0
    → b0 < 256
    → b1 < 256
    → b2 < 256
    → b3 < 256
    → crc32 address (b0 ∷ b1 ∷ b2 ∷ b3 ∷ buf) ≡ crc32 address (b1 ∷ b0 ∷ b2 ∷ b3 ∷ buf)
crc32_swap address b0 b1 b2 b3 buf at p0 p1 p2 p3 =
    crc32-word_step address b0 b1 b2 b3 buf at
    ∙ ap (λ (c : ℕ). after_word c buf) (swap_word b0 b1 b2 b3 p0 p1 p2 p3)
    ∙ sym (crc32-word_step address b1 b0 b2 b3 buf at)
