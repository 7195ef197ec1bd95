-- ===== src/Utils.antt =====
-- src/dimserver/common/utils/utils.cpp: `starts_with` and `ends_with`. A string is the list of its
-- bytes.
pub mod Append
use dimdb.Prelude.{ℕ, ◌-◌, Bool, true, false, ◌&&◌, List, [], ◌∷◌, length, take, drop, leb, ◌==◌}

-- `==` of two strings
unfoldable pub equal_bytes : List ℕ → List ℕ → Bool
equal_bytes [] [] = true
equal_bytes [] (b ∷ bytes) = false
equal_bytes (a ∷ str) [] = false
equal_bytes (a ∷ str) (b ∷ bytes) = a == b && equal_bytes str bytes

unfoldable pub starts_with : List ℕ → List ℕ → Bool
unfolding equal_bytes
starts_with str prefix =
    leb (length prefix) (length str) && equal_bytes (take (length prefix) str) prefix

unfoldable pub ends_with : List ℕ → List ℕ → Bool
unfolding equal_bytes
ends_with str suffix =
    leb (length suffix) (length str) && equal_bytes (drop (length str - length suffix) str) suffix
