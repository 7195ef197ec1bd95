-- ===== src/Value/RoundTrip.antt =====
-- What `serialize_to` writes, `deserialize_from` reads back.
use dimdb.Prelude.{
  ℕ, ◌+◌, ◌%◌, ◌^◌, ◌<◌, ◌≤◌, ◌≡◌, ◌≢◌, inl, inr, Bool-cases, refl, sym, ap, ◌∙◌, Bool, true, false,
  List, [], ◌∷◌, ◌++◌, length, drop, leb, ◌==◌, if◌then◌else◌, arith, length-append, append_assoc,
  take-length, drop-length, length-drop,
}
use dimdb.Prelude.Int.{pos}
use dimdb.LogFile.{le, from_le}
use dimdb.LogFile.Bytes.{from_le-le}
use dimdb.CharString.{new_padded}
use dimdb.Value.{
  ArrrType, Value, undefined, integer, float, varchar, boolean, timestamp, char, max_type,
  type_code, int32, Result, returned, thrown, undefined_behaviour, new_char, ◌>>=◌,
}
use dimdb.Value.{type_mismatch}
use dimdb.Value.Serial.{
  bool_bytes, payload_bytes, serialized, serialize_to, read_bool, payload_of, deserialize_from,
  payload_size, get_serialized_size,
}
use dimdb.Value.Payload.{
  length-le, read-le, NoZero, of_text, Readable, ReadsBack, reads_back, c_string-none,
}

type_code-lt : (type : ArrrType) → type_code type < 256
unfolding type_code
type_code-lt undefined = omega arith
type_code-lt integer = omega arith
type_code-lt float = omega arith
type_code-lt varchar = omega arith
type_code-lt boolean = omega arith
type_code-lt timestamp = omega arith
type_code-lt char = omega arith
type_code-lt max_type = omega arith

-- What `deserialize_from` makes of a value: a null value loses its payload.
abbrev pub cleared : Value → Value
cleared v = if v.is_null_ then record v { value_ = int32 (pos 0) } else v

type_code_read : (type : ArrrType) → from_le (le 4 (type_code type)) == type_code type ≡ true
type_code_read type =
    let code = from_le-le 4 (type_code type) (omega (arith, type_code-lt type)) in
    ground (arith, code)

deserialize_from_head :
    (type : ArrrType) (null : Bool) (payload : List ℕ)
    → deserialize_from (le 4 (type_code type) ++ (bool_bytes null ++ payload)) type ≡ (
        if null
        then returned (record { type_ = type; is_null_ = true; value_ = int32 (pos 0) })
        else payload_of type payload)
unfolding deserialize_from read_bool
deserialize_from_head type true payload =
    rw (read-le 4 (type_code type) (1 ∷ payload), type_code_read type) refl
deserialize_from_head type false payload =
    rw (read-le 4 (type_code type) (0 ∷ payload), type_code_read type) refl

serialized-splits :
    (v : Value) (rest : List ℕ)
    → (v.is_null_ ≡ false → Readable v.type_ v.value_ rest)
    → (bytes : List ℕ) × (serialized v ≡ returned bytes)
      × (get_serialized_size v ≡ returned (length bytes))
      × (deserialize_from (bytes ++ rest) v.type_ ≡ returned (cleared v))
unfolding serialized get_serialized_size ReadsBack
serialized-splits v rest h = elim (Bool-cases v.is_null_) [
  | inl n ↦ (
    le 4 (type_code v.type_) ++ 1 ∷ [],
    rw n refl,
    rw (n, length-append (le 4 (type_code v.type_)) (1 ∷ []), length-le 4 (type_code v.type_)) refl,
    rw (n, append_assoc (le 4 (type_code v.type_)) (1 ∷ []) rest)
        (deserialize_from_head v.type_ true rest),
  )
  | inr n ↦
      let (bytes, written, read_back, size) = reads_back v.type_ v.value_ rest (h n) in
      (
        le 4 (type_code v.type_) ++ 0 ∷ bytes,
        rw (n, written) refl,
        rw
            (
              n,
              size,
              length-append (le 4 (type_code v.type_)) (0 ∷ bytes),
              length-le 4 (type_code v.type_),
            )
            (ap returned (omega arith)),
        rw (n, append_assoc (le 4 (type_code v.type_)) (0 ∷ bytes) rest)
            (deserialize_from_head v.type_ false (bytes ++ rest) ∙ read_back),
      )
]

abbrev size_or : ℕ → Result ℕ → ℕ
size_or default (returned n) = n
size_or default (thrown e) = default
size_or default undefined_behaviour = default

-- `serialize_to` writes `get_serialized_size` bytes to a memory that has room for them and leaves
-- what stands behind them; `deserialize_from` under the value's type returns the value, without
-- the payload when it is null. The payload fits the type, a serialized size fits 32 bits, and for a
-- fixed string, which ends at its first 0, a 0 stands in the memory behind the bytes.
pub deserialize_from-serialize_to :
    (v : Value) (buf : List ℕ) (size : ℕ)
    → get_serialized_size v ≡ returned size
    → size ≤ length buf
    → (v.is_null_ ≡ false → Readable v.type_ v.value_ (drop size buf))
    → (after : List ℕ) × (serialize_to v buf ≡ returned after)
      × (length after ≡ length buf)
      × (drop size after ≡ drop size buf)
      × (deserialize_from after v.type_ ≡ returned (cleared v))
unfolding serialize_to
deserialize_from-serialize_to v buf size s room h =
    let (bytes, written, counted, read_back) = serialized-splits v (drop size buf) h in
    let same : size ≡ length bytes = ap (size_or 0) (sym s ∙ counted) in
    let fits : leb (length bytes) (length buf) ≡ true = ground (arith, same) in
    (
      bytes ++ drop size buf,
      rw (written, fits, same) refl,
      omega (arith, same, length-append bytes (drop size buf), length-drop size buf room),
      rw same (drop-length bytes (drop (length bytes) buf)),
      read_back,
    )

-- A fixed string without a 0 is read from memory of the serialized size with `strlen`, which leaves
-- the memory.
pub deserialize_from-over_read :
    (str : List ℕ)
    → NoZero str
    → length str + 9 < 2 ^ 32
    → (bytes : List ℕ) × (serialized (new_char (of_text str)) ≡ returned bytes)
      × (get_serialized_size (new_char (of_text str)) ≡ returned (length bytes))
      × (deserialize_from bytes char ≡ undefined_behaviour)
unfolding serialized get_serialized_size payload_bytes payload_size payload_of type_code new_padded
deserialize_from-over_read str n h =
    let len : length str % 2 ^ 32 ≡ length str = omega arith in
    let size : (5 + (4 + length str)) % 2 ^ 32 ≡ 5 + (4 + length str) = omega arith in
    (
      le 4 6 ++ 0 ∷ (le 4 (length str) ++ str),
      rw (len, take-length str (0 ∷ [])) refl,
      rw size (
          ap returned (
            omega (
              arith,
              length-append (le 4 6) (0 ∷ (le 4 (length str) ++ str)),
              length-le 4 6,
              length-append (le 4 (length str)) str,
              length-le 4 (length str),
            ))),
      deserialize_from_head char false (le 4 (length str) ++ str)
          ∙ rw
              (
                read-le 4 (length str) str,
                from_le-le 4 (length str) (omega arith),
                c_string-none str n,
              )
              refl,
    )

abbrev bytes_or : Result (List ℕ) → List ℕ
bytes_or (returned bytes) = bytes
bytes_or (thrown e) = []
bytes_or undefined_behaviour = []

-- The bytes start with the type.
serialized-type :
    (v : Value) (bytes : List ℕ)
    → serialized v ≡ returned bytes
    → (tail : List ℕ) × (bytes ≡ le 4 (type_code v.type_) ++ tail)
unfolding serialized
serialized-type v bytes h = go (if v.is_null_ then returned [] else payload_bytes v.type_ v) h
  where
    go :
        (payload : Result (List ℕ))
        → payload >>= (λ p. returned (le 4 (type_code v.type_) ++ (bool_bytes v.is_null_ ++ p)))
          ≡ returned bytes
        → (tail : List ℕ) × (bytes ≡ le 4 (type_code v.type_) ++ tail)
    go (returned p) e = (bool_bytes v.is_null_ ++ p, sym (ap (bytes_or) e))
    go (thrown x) e = absurd (cc e)
    go undefined_behaviour e = absurd (cc e)

-- Deserializing what a value was serialized to under another type throws the type mismatch,
-- whatever the value and whatever stands behind its bytes.
pub deserialize_from-mismatch :
    (v : Value) (bytes rest : List ℕ) (type : ArrrType)
    → serialized v ≡ returned bytes
    → type_code v.type_ ≢ type_code type
    → deserialize_from (bytes ++ rest) type ≡ thrown type_mismatch
unfolding deserialize_from
deserialize_from-mismatch v bytes rest type s n =
    let (tail, e) = serialized-type v bytes s in
    let code = from_le-le 4 (type_code v.type_) (omega (arith, type_code-lt v.type_)) in
    let differ : type_code v.type_ == type_code type ≡ false = ground (arith, n) in
    rw
      (
        e,
        append_assoc (le 4 (type_code v.type_)) tail rest,
        read-le 4 (type_code v.type_) (tail ++ rest),
        code,
        differ,
      )
      refl
