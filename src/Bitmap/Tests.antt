-- ===== src/Bitmap/Tests.antt =====
-- Runs of the bitmap, and the theorems at a bitmap of 20 bits.
use dimdb.Prelude.{
  ℕ, zero, suc, ◌<◌, ◌≡◌, refl, true, false, Option, none, some, [], ◌∷◌, get_elem?, arith,
}
use dimdb.Bitmap.{
  Bitmap, bytes, test_bit, get, next_zero_bit, next_one_bit, zero_in_byte, one_in_byte,
  find_first_zero, find_first_one, IsValid,
}
use dimdb.Bitmap.Byte.{IsFirst}
use dimdb.Bitmap.Search.{next_zero_bit-IsFirst}

abbrev twenty : Bitmap
twenty = record { size = 20; bitmap = 255 ∷ 15 ∷ 3 ∷ [] }

twenty_bytes : (i b : ℕ) → get_elem? twenty.bitmap i ≡ some b → b < 256
twenty_bytes zero b e = ground (arith, e)
twenty_bytes (suc zero) b e = ground (arith, e)
twenty_bytes (suc (suc zero)) b e = ground (arith, e)
twenty_bytes (suc (suc (suc i))) b e = absurd (ground (arith, e))

twenty-IsValid : IsValid twenty
unfolding bytes
twenty-IsValid = record { covers = omega arith; all_bytes = twenty_bytes }

run_searches :
    (next_zero_bit twenty 0 ≡ some (some 12))
    × (next_one_bit twenty 12 ≡ some (some 16))
    × (next_one_bit twenty 18 ≡ some none)
    × (get twenty 16 ≡ some true)
unfolding next_zero_bit next_one_bit bytes zero_in_byte one_in_byte find_first_zero find_first_one
    get test_bit
run_searches = (refl, refl, refl, refl)

next_zero_bit-IsFirst_example :
    (r : Option ℕ) × (next_zero_bit twenty 5 ≡ some r) × IsFirst (get twenty) false 5 20 r
next_zero_bit-IsFirst_example = next_zero_bit-IsFirst twenty 5 twenty-IsValid (omega arith)
