-- ===== src/Bitmap/Text.antt =====
-- src/dimserver/common/bitmap/bitmap.cpp: `to_string`.
use dimdb.Prelude.{ℕ, zero, suc, ◌+◌, Option, none, some, List, [], ◌∷◌, if◌then◌else◌}
use dimdb.Bitmap.{Bitmap, get}

-- The loop from `index` on, with its rounds; `none` is a read past the end.
bits_from : Bitmap → ℕ → ℕ → Option (List ℕ)
bits_from bm zero index = some []
bits_from bm (suc rounds) index = elim (get bm index) [
  | none ↦ none
  | some bit ↦ elim (bits_from bm rounds (index + 1)) as (λ _. Option (List ℕ)) [
    | none ↦ none
    | some text ↦ some ((if bit then 49 else 48) ∷ text)
  ]
]

unfoldable pub to_string : Bitmap → Option (List ℕ)
unfolding bits_from
to_string bm = bits_from bm bm.size 0
