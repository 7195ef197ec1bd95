-- ===== src/CharString.antt =====
-- src/dimserver/common/value.h: `CharString`, a string of a fixed size that is padded with spaces.
--
-- `data_` is the allocated memory, `size_` bytes and a last one; a null pointer is no memory. A byte
-- is a number below 256.
pub mod Order
mod Tests
use dimdb.Prelude.{
  ℕ, zero, suc, ◌+◌, ◌-◌, min, Bool, true, false, not, Option, none, some, List, [], ◌∷◌, ◌++◌,
  take, length, replicate, get_elem?, ltb, ◌==◌, if◌then◌else◌,
}
use dimdb.Utils.{equal_bytes}

pub record CharString : Type 0 where
  pub size_ : ℕ
  pub data_ : List ℕ

abbrev pub space : ℕ
space = 32

-- `CharString(size_t)`
unfoldable pub new_zeroed : ℕ → CharString
new_zeroed size = record { size_ = size; data_ = replicate size 0 ++ 0 ∷ [] }

abbrev pub prepend : ℕ → Option (List ℕ) → Option (List ℕ)
prepend b none = none
prepend b (some str) = some (b ∷ str)

-- The bytes of the C string at the start of a memory; none when it has no end in that memory.
unfoldable pub c_string : List ℕ → Option (List ℕ)
c_string [] = none
c_string (b ∷ bytes) = let rest = c_string bytes in if b == 0 then some [] else prepend b rest

-- The memory of the new string when `strlen(str)` has found the text.
abbrev pub padded : List ℕ → ℕ → Option (List ℕ) → Option CharString
padded str size none = none
padded str size (some text) =
    let copy_len = min size (length text) in
    some (record {
      size_ = size;
      data_ = take copy_len str ++ (replicate (size - copy_len) space ++ 0 ∷ []);
    })

-- `CharString(const char *, size_t)`; none when `strlen` reads outside of the memory at `str`.
unfoldable pub new_padded : List ℕ → ℕ → Option CharString
new_padded str size = padded str size (c_string str)

-- The copy has its own memory.
unfoldable pub copy : CharString → CharString
copy other = record { size_ = other.size_; data_ = take (other.size_ + 1) other.data_ }

-- The string that takes the memory over, and what is left of `other`.
unfoldable pub move : CharString → CharString × CharString
move other = (record { size_ = other.size_; data_ = other.data_ }, record { size_ = 0; data_ = [] })

abbrev pub is_space : Option ℕ → Bool
is_space none = false
is_space (some b) = b == space

-- `while (end > 0 && data_[end - 1] == ' ') end--`
unfoldable pub trim : List ℕ → ℕ → ℕ
trim bytes zero = zero
trim bytes (suc end) =
    let shorter = trim bytes end in if is_space (get_elem? bytes end) then shorter else suc end

unfoldable pub actual_length : CharString → ℕ
actual_length s = trim s.data_ s.size_

-- The sign of what `memcmp` returns. It stops where a memory ends, which the callers do not reach.
pub data Sign : Type 0 where
  negative equal_zero positive : Sign

unfoldable pub memcmp : List ℕ → List ℕ → ℕ → Sign
memcmp a b zero = equal_zero
memcmp [] b (suc n) = equal_zero
memcmp (x ∷ a) [] (suc n) = equal_zero
memcmp (x ∷ a) (y ∷ b) (suc n) =
    let rest = memcmp a b n in if ltb x y then negative else if ltb y x then positive else rest

abbrev pub is_equal_zero : Sign → Bool
is_equal_zero negative = false
is_equal_zero equal_zero = true
is_equal_zero positive = false

abbrev pub is_negative : Sign → Bool
is_negative negative = true
is_negative equal_zero = false
is_negative positive = false

-- `operator==`
unfoldable pub equal : CharString → CharString → Bool
equal a b =
    let end1 = trim a.data_ a.size_ in
    let end2 = trim b.data_ b.size_ in
    if not (end1 == end2) then false else is_equal_zero (memcmp a.data_ b.data_ end1)

-- `operator<`
unfoldable pub less : CharString → CharString → Bool
less a b =
    let end1 = trim a.data_ a.size_ in
    let end2 = trim b.data_ b.size_ in
    let cmp = memcmp a.data_ b.data_ (min end1 end2) in
    if not (is_equal_zero cmp) then is_negative cmp else ltb end1 end2

-- `std::string(data_)`; none when the memory holds no end of a string.
unfoldable pub to_string : CharString → Option (List ℕ)
to_string s = c_string s.data_
