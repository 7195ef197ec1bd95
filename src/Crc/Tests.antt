-- ===== src/Crc/Tests.antt =====
-- Runs of `crc32`, and the theorems at short buffers.
use dimdb.Prelude.{◌≡◌, ◌≢◌, refl, [], ◌∷◌, arith}
use dimdb.Crc.{crc32, entry, byte_step, word_step, table}
use dimdb.Crc.Words.{crc32_swap}

-- Not the check value of CRC-32 for the text "123456789", which is 0xCBF43926.
check_value : crc32 0 (49 ∷ 50 ∷ 51 ∷ 52 ∷ 53 ∷ 54 ∷ 55 ∷ 56 ∷ 57 ∷ []) ≢ 0xCBF43926
unfolding crc32 entry byte_step word_step table
check_value = omega arith

crc32_swap_example : crc32 8 (1 ∷ 2 ∷ 3 ∷ 4 ∷ 5 ∷ []) ≡ crc32 8 (2 ∷ 1 ∷ 3 ∷ 4 ∷ 5 ∷ [])
crc32_swap_example =
    crc32_swap 8 1 2 3 4 (5 ∷ []) refl (omega arith) (omega arith) (omega arith) (omega arith)
