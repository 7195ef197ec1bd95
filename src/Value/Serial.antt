-- ===== src/Value/Serial.antt =====
-- Values in memory: `serialize_to`, `deserialize_from`, `get_serialized_size`, and their text.
use dimdb.Prelude.{
  ℕ, ◌+◌, ◌%◌, ◌^◌, Bool, true, false, not, List, [], ◌∷◌, ◌++◌, Option, none, some, length, take,
  drop, leb, ◌==◌, if◌then◌else◌,
}
use dimdb.Prelude.Int.{pos}
use dimdb.Frame.{to_size}
use dimdb.LogEntry.{to_int32}
use dimdb.LogFile.{le, from_le, bits_32, to_int64}
use dimdb.CharString.{new_padded}
use dimdb.Value.{
  ArrrType, Value, undefined, integer, float, varchar, boolean, timestamp, char, max_type,
  type_code, int32, Result, returned, thrown, undefined_behaviour, ◌>>=◌, type_mismatch,
  invalid_type, get_integer, get_float, get_boolean, get_string, get_timestamp, get_char,
  new_integer, new_float, new_boolean, new_varchar, new_timestamp, new_char,
}

abbrev pub bool_bytes : Bool → List ℕ
bool_bytes false = 0 ∷ []
bool_bytes true = 1 ∷ []

-- The `switch` of `serialize_to`.
unfoldable pub payload_bytes : ArrrType → Value → Result (List ℕ)
payload_bytes integer v = do val ← get_integer v; returned (le 4 (bits_32 val))
payload_bytes float v = do val ← get_float v; returned (le 4 val)
payload_bytes boolean v = do val ← get_boolean v; returned (bool_bytes val)
payload_bytes varchar v = do
  str ← get_string v
  let len = length str % 2 ^ 32
  returned (le 4 len ++ take len str)
payload_bytes timestamp v = do val ← get_timestamp v; returned (le 8 (to_size val))
payload_bytes char v = do
  str ← get_char v
  let size = str.size_ % 2 ^ 32
  returned (le 4 size ++ take size str.data_)
payload_bytes undefined v = returned []
payload_bytes max_type v = returned []

-- The bytes that `serialize_to` writes, from the start of its argument on.
unfoldable pub serialized : Value → Result (List ℕ)
serialized v = do
  payload ← if v.is_null_ then returned [] else payload_bytes v.type_ v
  returned (le 4 (type_code v.type_) ++ (bool_bytes v.is_null_ ++ payload))

-- The memory at `buf`, of a fixed length, after the call.
unfoldable pub serialize_to : Value → List ℕ → Result (List ℕ)
serialize_to v buf = do
  bytes ← serialized v
  if leb (length bytes) (length buf)
      then returned (bytes ++ drop (length bytes) buf)
      else undefined_behaviour

-- `memcpy` from the memory: the bytes, and the memory behind them.
unfoldable pub read : ℕ → List ℕ → Result (List ℕ × List ℕ)
read size buf =
    if leb size (length buf) then returned (take size buf, drop size buf) else undefined_behaviour

-- A `bool` whose byte is neither 0 nor 1 is undefined.
unfoldable pub read_bool : List ℕ → Result (Bool × List ℕ)
read_bool [] = undefined_behaviour
read_bool (b ∷ rest) =
    if b == 0
    then returned (false, rest)
    else if b == 1
    then returned (true, rest)
    else undefined_behaviour

abbrev pub defined {ℓ} : {A : Type ℓ} → Option A → Result A
defined none = undefined_behaviour
defined (some a) = returned a

-- The `switch` of `deserialize_from`.
unfoldable pub payload_of : ArrrType → List ℕ → Result Value
payload_of integer buf = do
  (bytes, rest) ← read 4 buf
  returned (new_integer (to_int32 (from_le bytes)))
payload_of float buf = do (bytes, rest) ← read 4 buf; returned (new_float (from_le bytes))
payload_of boolean buf = do (val, rest) ← read_bool buf; returned (new_boolean val)
payload_of varchar buf = do
  (bytes, rest) ← read 4 buf
  (str, rest') ← read (from_le bytes) rest
  returned (new_varchar str)
payload_of timestamp buf = do
  (bytes, rest) ← read 8 buf
  returned (new_timestamp (to_int64 (from_le bytes)))
payload_of char buf = do
  (bytes, rest) ← read 4 buf
  str ← defined (new_padded rest (from_le bytes))
  returned (new_char str)
payload_of undefined buf = thrown invalid_type
payload_of max_type buf = thrown invalid_type

unfoldable pub deserialize_from : List ℕ → ArrrType → Result Value
deserialize_from buf type = do
  (stored_type, rest) ← read 4 buf
  if not (from_le stored_type == type_code type) then thrown type_mismatch else do
    (is_null, rest') ← read_bool rest
    if is_null
        then returned (record { type_ = type; is_null_ = true; value_ = int32 (pos 0) })
        else payload_of type rest'

-- The `switch` of `get_serialized_size`, on the size so far.
unfoldable pub payload_size : ArrrType → Value → ℕ → Result ℕ
payload_size integer v size = returned ((size + 4) % 2 ^ 32)
payload_size float v size = returned ((size + 4) % 2 ^ 32)
payload_size boolean v size = returned ((size + 1) % 2 ^ 32)
payload_size varchar v size = do str ← get_string v; returned ((size + (4 + length str)) % 2 ^ 32)
payload_size timestamp v size = returned ((size + 8) % 2 ^ 32)
payload_size char v size = do str ← get_char v; returned ((size + (4 + str.size_)) % 2 ^ 32)
payload_size undefined v size = returned size
payload_size max_type v size = returned size

unfoldable pub get_serialized_size : Value → Result ℕ
get_serialized_size v = if v.is_null_ then returned 5 else payload_size v.type_ v 5
