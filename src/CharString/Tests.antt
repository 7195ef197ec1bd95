-- ===== src/CharString/Tests.antt =====
-- Fixed strings at work.
use dimdb.Prelude.{◌≡◌, refl, [], ◌∷◌, some, none, take, replicate}
use dimdb.Utils.{equal_bytes}
use dimdb.CharString.{CharString, new_padded, copy, equal, less, c_string, actual_length, trim}
use dimdb.CharString.Order.{text_of, less_bytes, less-less_bytes}

abbrev ab : CharString
ab = record { size_ = 4; data_ = 97 ∷ 98 ∷ 32 ∷ 32 ∷ 0 ∷ [] }

abbrev ac : CharString
ac = record { size_ = 2; data_ = 97 ∷ 99 ∷ 0 ∷ [] }

padded_ab : new_padded (97 ∷ 98 ∷ 0 ∷ 5 ∷ []) 4 ≡ some ab
unfolding new_padded c_string replicate take
padded_ab = refl

unterminated : new_padded (97 ∷ 98 ∷ []) 2 ≡ none
unfolding new_padded c_string
unterminated = refl

length_of_ab : actual_length ab ≡ 2
unfolding actual_length trim
length_of_ab = refl

same_ab : copy ab ≡ ab
unfolding copy take
same_ab = refl

less-less_bytes_example :
    (less ab ac ≡ less_bytes (97 ∷ 98 ∷ []) (97 ∷ 99 ∷ []))
    × (equal ab ac ≡ equal_bytes (97 ∷ 98 ∷ []) (97 ∷ 99 ∷ []))
unfolding text_of trim take
less-less_bytes_example = less-less_bytes ab ac refl refl
