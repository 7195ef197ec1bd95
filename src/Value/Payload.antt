-- ===== src/Value/Payload.antt =====
-- The payload of each type of value, written and read back.
use dimdb.Prelude.{
  ℕ, zero, suc, ◌+◌, ◌/◌, ◌%◌, ◌^◌, ◌<◌, ◌≡◌, ◌≢◌, ◌⊎◌, inl, inr, Bool-cases, ◌-◌, refl, sym, ap,
  ◌∙◌, Bool, true, false, List, [], ◌∷◌, ◌++◌, none, some, length, take, leb, ◌==◌, arith,
  length-append, append_assoc, take-length, drop-length, append_nil, replicate, min,
}
use mathlib.Core.Path.{subst}
use dimdb.Prelude.Int.{ℤ}
use dimdb.Frame.{to_size}
use dimdb.LogFile.{le, bits_32}
use dimdb.LogFile.Bytes.{
  FitsIn, from_le-le, to_int32-bits_32, to_int64-to_size, to_size-lt, bits_32-lt,
}
use dimdb.CharString.{CharString, new_padded, c_string}
use dimdb.Value.{
  ArrrType, Data, Value, undefined, integer, float, varchar, boolean, timestamp, char, max_type,
  int32, float32, truth, text, int64, fixed, returned,
}
use dimdb.Value.Serial.{payload_bytes, read, read_bool, payload_of, payload_size}

pub length-le : (k n : ℕ) → length (le k n) ≡ k
unfolding le
length-le zero n = refl
length-le (suc k) n = ap suc (length-le k (n / 256))

pub read-append :
    (bytes rest : List ℕ) → read (length bytes) (bytes ++ rest) ≡ returned (bytes, rest)
unfolding read
read-append bytes rest =
    let fits : leb (length bytes) (length (bytes ++ rest)) ≡ true =
      ground (arith, length-append bytes rest) in
    rw (fits, take-length bytes rest, drop-length bytes rest) refl

-- Memory with a byte 0.
abbrev pub HasEnd : List ℕ → Type 0
HasEnd [] = ⊥
HasEnd (b ∷ rest) = (b ≡ 0) ⊎ HasEnd rest

-- Bytes without a 0.
abbrev pub NoZero : List ℕ → Type 0
NoZero [] = Unit
NoZero (b ∷ rest) = (b ≢ 0) × NoZero rest

-- A fixed string of a text without a 0, and the 0 at its end.
abbrev pub of_text : List ℕ → CharString
of_text str = record { size_ = length str; data_ = str ++ 0 ∷ [] }

abbrev pub IsTerminated : CharString → Type 0
IsTerminated s = (str : List ℕ) × NoZero str × (s ≡ of_text str)

pub read-le : (k n : ℕ) (rest : List ℕ) → read k (le k n ++ rest) ≡ returned (le k n, rest)
read-le k n rest =
    ap (λ i. read i (le k n ++ rest)) (sym (length-le k n)) ∙ read-append (le k n) rest

-- `strlen` finds a 0 behind a text that has none, at the text's end or later.
c_string-some :
    (str rest : List ℕ)
    → NoZero str
    → HasEnd rest
    → (tail : List ℕ) × (c_string (str ++ rest) ≡ some (str ++ tail))
unfolding c_string
c_string-some [] [] n e = absurd e
c_string-some [] (b ∷ rest) n (inl z) = ([], rw z refl)
c_string-some [] (b ∷ rest) n (inr e) = elim (Bool-cases (b == 0)) [
  | inl z ↦ ([], rw z refl)
  | inr z ↦ let (tail, found) = c_string-some [] rest tt e in (b ∷ tail, rw (z, found) refl)
]
c_string-some (b ∷ str) rest (nonzero, n) e =
    let z : b == 0 ≡ false = ground (arith, nonzero) in
    let (tail, found) = c_string-some str rest n e in (tail, rw (z, found) refl)

new_padded-append :
    (str rest : List ℕ)
    → NoZero str
    → HasEnd rest
    → new_padded (str ++ rest) (length str) ≡ some (of_text str)
unfolding new_padded replicate
new_padded-append str rest n e =
    let (tail, found) = c_string-some str rest n e in
    let all : min (length str) (length (str ++ tail)) ≡ length str =
      omega (arith, length-append str tail) in
    let none_left : length str - length str ≡ 0 = omega arith in
    rw (found, all, none_left, take-length str rest) refl

pub c_string-none : (str : List ℕ) → NoZero str → c_string str ≡ none
unfolding c_string
c_string-none [] n = refl
c_string-none (b ∷ str) (nonzero, n) =
    let z : b == 0 ≡ false = ground (arith, nonzero) in rw (z, c_string-none str n) refl

-- A payload that fits its type: of the value's type, within the type's range, and of a length whose
-- serialized size is a `uint32_t`. Behind the bytes of a fixed string a 0 has to follow.
unfoldable pub Readable : ArrrType → Data → List ℕ → Type 0
Readable integer (int32 val) rest = FitsIn (2 ^ 31) val
Readable float (float32 val) rest = val < 2 ^ 32
Readable boolean (truth val) rest = Unit
Readable varchar (text str) rest = length str + 9 < 2 ^ 32
Readable timestamp (int64 val) rest = FitsIn (2 ^ 63) val
Readable char (fixed s) rest = IsTerminated s × (s.size_ + 9 < 2 ^ 32) × HasEnd rest
Readable type payload rest = ⊥

abbrev pub of_type : ArrrType → Data → Value
of_type type payload = record { type_ = type; is_null_ = false; value_ = payload }

unfoldable pub ReadsBack : ArrrType → Data → Type 0
ReadsBack type payload =
    (rest : List ℕ)
    → Readable type payload rest
    → (bytes : List ℕ) × (payload_bytes type (of_type type payload) ≡ returned bytes)
      × (payload_of type (bytes ++ rest) ≡ returned (of_type type payload))
      × (payload_size type (of_type type payload) 5 ≡ returned (5 + length bytes))

reads_integer : (val : ℤ) → ReadsBack integer (int32 val)
unfolding payload_bytes payload_of payload_size ReadsBack Readable
reads_integer val rest h = (
  le 4 (bits_32 val),
  refl,
  rw
      (
        read-le 4 (bits_32 val) rest,
        from_le-le 4 (bits_32 val) (bits_32-lt val),
        to_int32-bits_32 val h,
      )
      refl,
  rw (length-le 4 (bits_32 val)) refl,
)

reads_float : (val : ℕ) → ReadsBack float (float32 val)
unfolding payload_bytes payload_of payload_size ReadsBack Readable
reads_float val rest h = (
  le 4 val,
  refl,
  rw (read-le 4 val rest, from_le-le 4 val (omega arith)) refl,
  rw (length-le 4 val) refl,
)

reads_timestamp : (val : ℤ) → ReadsBack timestamp (int64 val)
unfolding payload_bytes payload_of payload_size ReadsBack Readable
reads_timestamp val rest h = (
  le 8 (to_size val),
  refl,
  rw
      (
        read-le 8 (to_size val) rest,
        from_le-le 8 (to_size val) (to_size-lt val),
        to_int64-to_size val h,
      )
      refl,
  rw (length-le 8 (to_size val)) refl,
)

reads_boolean : (val : Bool) → ReadsBack boolean (truth val)
unfolding payload_bytes payload_of payload_size ReadsBack Readable read_bool
reads_boolean true rest h = (1 ∷ [], refl, refl, refl)
reads_boolean false rest h = (0 ∷ [], refl, refl, refl)

pub take_all : (str : List ℕ) → take (length str) str ≡ str
take_all str = ap (take (length str)) (sym (append_nil str)) ∙ take-length str []

reads_varchar : (str : List ℕ) → ReadsBack varchar (text str)
unfolding payload_bytes payload_of payload_size ReadsBack Readable
reads_varchar str rest h =
    let len : length str % 2 ^ 32 ≡ length str = omega arith in
    let size : (5 + (4 + length str)) % 2 ^ 32 ≡ 5 + (4 + length str) = omega arith in
    (
      le 4 (length str) ++ str,
      rw (len, take_all str) refl,
      rw
          (
            append_assoc (le 4 (length str)) str rest,
            read-le 4 (length str) (str ++ rest),
            from_le-le 4 (length str) (omega arith),
            read-append str rest,
          )
          refl,
      rw (size, length-append (le 4 (length str)) str, length-le 4 (length str)) refl,
    )

reads_text : (str : List ℕ) → NoZero str → ReadsBack char (fixed (of_text str))
unfolding payload_bytes payload_of payload_size ReadsBack Readable
reads_text str n rest (t, h, e) =
    let len : length str % 2 ^ 32 ≡ length str = omega arith in
    let size : (5 + (4 + length str)) % 2 ^ 32 ≡ 5 + (4 + length str) = omega arith in
    (
      le 4 (length str) ++ str,
      rw (len, take-length str (0 ∷ [])) refl,
      rw
          (
            append_assoc (le 4 (length str)) str rest,
            read-le 4 (length str) (str ++ rest),
            from_le-le 4 (length str) (omega arith),
            new_padded-append str rest n e,
          )
          refl,
      rw (size, length-append (le 4 (length str)) str, length-le 4 (length str)) refl,
    )

reads_char : (s : CharString) → ReadsBack char (fixed s)
unfolding ReadsBack Readable
reads_char s rest ((str, n, e), h, k) =
    subst (λ r. ReadsBack char (fixed r)) (sym e) (reads_text str n) rest ((str, n, e), h, k)

pub reads_back : (type : ArrrType) (payload : Data) → ReadsBack type payload
unfolding ReadsBack Readable
reads_back integer = λ d. elim d as (λ d. ReadsBack integer d) [
  | int32 val ↦ reads_integer val
  | _ ↦ λ rest h. absurd h
]
reads_back float = λ d. elim d as (λ d. ReadsBack float d) [
  | float32 val ↦ reads_float val
  | _ ↦ λ rest h. absurd h
]
reads_back varchar = λ d. elim d as (λ d. ReadsBack varchar d) [
  | text val ↦ reads_varchar val
  | _ ↦ λ rest h. absurd h
]
reads_back boolean = λ d. elim d as (λ d. ReadsBack boolean d) [
  | truth val ↦ reads_boolean val
  | _ ↦ λ rest h. absurd h
]
reads_back timestamp = λ d. elim d as (λ d. ReadsBack timestamp d) [
  | int64 val ↦ reads_timestamp val
  | _ ↦ λ rest h. absurd h
]
reads_back char =
    λ d. elim d as (λ d. ReadsBack char d) [ fixed val ↦ reads_char val | _ ↦ λ rest h. absurd h ]
reads_back undefined = λ d rest h. absurd h
reads_back max_type = λ d rest h. absurd h
