-- ===== src/Value/Tests.antt =====
-- Values at work, and the theorems on concrete ones.
use dimdb.Prelude.{ℕ, ◌≡◌, inl, inr, refl, List, [], ◌∷◌, length, take, drop, arith}
use dimdb.Prelude.Int.{pos}
use dimdb.LogEntry.{to_int32}
use dimdb.LogFile.{le, from_le}
use dimdb.Value.{
  returned, thrown, new_integer, new_char, new_null, integer, float, varchar, char, type_mismatch,
  type_code,
}
use dimdb.Value.Serial.{
  serialized, serialize_to, deserialize_from, get_serialized_size, payload_size, payload_of, read,
  read_bool,
}
use dimdb.Value.Payload.{of_text, Readable}
use dimdb.Value.RoundTrip.{deserialize_from-serialize_to, deserialize_from-mismatch}
use dimdb.Value.Typed.{IsTyped, deserialize_from-IsTyped}

abbrev hi : List ℕ
hi = 104 ∷ 105 ∷ []

abbrev buffer : List ℕ
buffer = 9 ∷ 9 ∷ 9 ∷ 9 ∷ 9 ∷ 9 ∷ 9 ∷ 9 ∷ 9 ∷ 9 ∷ 9 ∷ 7 ∷ 0 ∷ []

-- The text `hi` of a fixed string, in a memory with two bytes left.
deserialize_from-serialize_to_example :
    (after : List ℕ) × (serialize_to (new_char (of_text hi)) buffer ≡ returned after)
    × (length after ≡ 13)
    × (drop 11 after ≡ 7 ∷ 0 ∷ [])
    × (deserialize_from after char ≡ returned (new_char (of_text hi)))
unfolding get_serialized_size payload_size Readable drop
deserialize_from-serialize_to_example =
    deserialize_from-serialize_to (new_char (of_text hi)) buffer 11 refl (omega arith)
      (λ n. ((hi, (omega arith, (omega arith, tt)), refl), omega arith, inr (inl refl)))

deserialize_from-mismatch_example :
    deserialize_from (2 ∷ 0 ∷ 0 ∷ 0 ∷ 1 ∷ buffer) varchar ≡ thrown type_mismatch
unfolding serialized type_code le
deserialize_from-mismatch_example =
    deserialize_from-mismatch (record new_null { type_ = float }) (2 ∷ 0 ∷ 0 ∷ 0 ∷ 1 ∷ []) buffer
      varchar refl (omega arith)

-- The integer 258.
abbrev four_bytes : List ℕ
four_bytes = 1 ∷ 0 ∷ 0 ∷ 0 ∷ 0 ∷ 2 ∷ 1 ∷ 0 ∷ 0 ∷ []

reads : deserialize_from four_bytes integer ≡ returned (new_integer (pos 258))
unfolding deserialize_from payload_of read read_bool from_le type_code to_int32 take drop
reads = refl

deserialize_from-IsTyped_example :
    (integer ≡ integer)
    × IsTyped (new_integer (pos 258))
    × ((bytes : List ℕ) × (serialized (new_integer (pos 258)) ≡ returned bytes))
    × ((n : ℕ) × (get_serialized_size (new_integer (pos 258)) ≡ returned n))
deserialize_from-IsTyped_example =
    deserialize_from-IsTyped four_bytes integer (new_integer (pos 258)) reads
