-- ===== src/Utils/Append.antt =====
-- A text starts with each text in front and ends with each text behind.
use dimdb.Prelude.{
  ℕ, ◌-◌, ◌≡◌, refl, true, List, [], ◌∷◌, ◌++◌, length, length-append, take, take-length,
  drop-length, leb, arith,
}
use dimdb.Utils.{equal_bytes, starts_with, ends_with}

pub equal_bytes_self : (a : List ℕ) → equal_bytes a a ≡ true
unfolding equal_bytes
equal_bytes_self [] = refl
equal_bytes_self (x ∷ a) = ground (arith, equal_bytes_self a)

pub starts_with-append : (prefix text : List ℕ) → starts_with (prefix ++ text) prefix ≡ true
unfolding starts_with
starts_with-append prefix text =
    let fits : leb (length prefix) (length (prefix ++ text)) ≡ true =
      ground (arith, length-append prefix text) in
    rw (fits, take-length prefix text) (equal_bytes_self prefix)

-- What stands in front of the suffix has the length of the whole without it.
pub length-front : (text suffix : List ℕ) → length (text ++ suffix) - length suffix ≡ length text
length-front text suffix = omega (arith, length-append text suffix)

pub ends_with-append : (text suffix : List ℕ) → ends_with (text ++ suffix) suffix ≡ true
unfolding ends_with
ends_with-append text suffix =
    let fits : leb (length suffix) (length (text ++ suffix)) ≡ true =
      ground (arith, length-append text suffix) in
    rw (fits, length-front text suffix, drop-length text suffix) (equal_bytes_self suffix)

pub take-front :
    (text suffix : List ℕ) → take (length (text ++ suffix) - length suffix) (text ++ suffix) ≡ text
take-front text suffix = rw (length-front text suffix) (take-length text suffix)
