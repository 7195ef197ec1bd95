-- ===== src/Value/Typed.antt =====
-- Values hold the alternative of their type, so that no getter of it throws.
use mathlib.Core.Path.{subst}
use dimdb.Prelude.{
  ℕ, ◌≡◌, refl, ap, Bool, true, false, not, List, [], ◌++◌, ◌==◌, ◌⊎◌, inl, inr, Bool-cases,
}
use dimdb.Value.{
  ArrrType, Data, Value, undefined, integer, float, varchar, boolean, timestamp, char, max_type,
  int32, float32, truth, text, int64, fixed, Result, returned, thrown, undefined_behaviour, ◌>>=◌,
  Fits, type_code,
}
use dimdb.LogFile.{le, from_le}
use dimdb.CharString.{new_padded}
use dimdb.Value.Serial.{
  bool_bytes, defined, payload_of, deserialize_from, read, read_bool, serialized, payload_bytes,
  get_serialized_size, payload_size,
}

abbrev pub IsTyped : Value → Type 0
IsTyped v = (v.is_null_ ≡ true) ⊎ Fits v.type_ v.value_

bind_returned {ℓ κ} :
    {A : Type ℓ} {B : Type κ} (m : Result A) (f : A → Result B) {b : B}
    → (m >>= f) ≡ returned b
    → (a : A) × (f a ≡ returned b)
bind_returned (returned a) f h = (a, h)
bind_returned (thrown e) f h = absurd (cc h)
bind_returned undefined_behaviour f h = absurd (cc h)

-- What a call returned, if it did.
value_or : Value → Result Value → Value
value_or v (returned w) = w
value_or v (thrown e) = v
value_or v undefined_behaviour = v

abbrev HasType : ArrrType → Value → Type 0
HasType type v = (v.type_ ≡ type) × IsTyped v

returned_HasType :
    (type : ArrrType) (w v : Value) → returned w ≡ returned v → HasType type w → HasType type v
unfolding value_or
returned_HasType type w v e h = subst (HasType type) (ap (value_or w) e) h

payload_of-HasType :
    (type : ArrrType) (buf : List ℕ) (v : Value) → payload_of type buf ≡ returned v → HasType type v
unfolding payload_of Fits
payload_of-HasType integer buf v h =
    let (a, e) = bind_returned (read 4 buf) _ h in returned_HasType integer _ v e (refl, inr tt)
payload_of-HasType float buf v h =
    let (a, e) = bind_returned (read 4 buf) _ h in returned_HasType float _ v e (refl, inr tt)
payload_of-HasType boolean buf v h =
    let (a, e) = bind_returned (read_bool buf) _ h in returned_HasType boolean _ v e (refl, inr tt)
payload_of-HasType varchar buf v h =
    let (a, e) = bind_returned (read 4 buf) _ h in
    let (b, e') = bind_returned (read (from_le a.0) a.1) _ e in
    returned_HasType varchar _ v e' (refl, inr tt)
payload_of-HasType timestamp buf v h =
    let (a, e) = bind_returned (read 8 buf) _ h in returned_HasType timestamp _ v e (refl, inr tt)
payload_of-HasType char buf v h =
    let (a, e) = bind_returned (read 4 buf) _ h in
    let (b, e') = bind_returned (defined (new_padded a.1 (from_le a.0))) _ e in
    returned_HasType char _ v e' (refl, inr tt)
payload_of-HasType undefined buf v h = absurd (cc h)
payload_of-HasType max_type buf v h = absurd (cc h)

deserialize_from-HasType :
    (buf : List ℕ) (type : ArrrType) (v : Value)
    → deserialize_from buf type ≡ returned v
    → HasType type v
unfolding deserialize_from
deserialize_from-HasType buf type v h =
    let (a, e) = bind_returned (read 4 buf) _ h in
    elim (Bool-cases (not (from_le a.0 == type_code type))) [
      | inl wrong ↦ absurd (cc (rw wrong at e))
      | inr fine ↦
          let (b, e') = bind_returned (read_bool a.1) _ (rw fine at e) in
          elim (Bool-cases b.0) [
            | inl null ↦ returned_HasType type _ v (rw null at e') (refl, inl refl)
            | inr full ↦ payload_of-HasType type b.1 v (rw full at e')
          ]
    ]

abbrev of_data : ArrrType → Bool → Data → Value
of_data type null d = record { type_ = type; is_null_ = null; value_ = d }

-- A value whose payload fits its type is written, and its size is computed.
abbrev IsWritten : ArrrType → Value → Type 0
IsWritten type v =
    ((bytes : List ℕ) × (payload_bytes type v ≡ returned bytes))
    × ((n : ℕ) × (payload_size type v 5 ≡ returned n))

Fits-IsWritten :
    (type t : ArrrType) (null : Bool) (d : Data) → Fits type d → IsWritten type (of_data t null d)
unfolding Fits payload_bytes payload_size
Fits-IsWritten integer t null (int32 val) h = ((_, refl), (_, refl))
Fits-IsWritten float t null (float32 val) h = ((_, refl), (_, refl))
Fits-IsWritten boolean t null (truth val) h = ((_, refl), (_, refl))
Fits-IsWritten varchar t null (text val) h = ((_, refl), (_, refl))
Fits-IsWritten timestamp t null (int64 val) h = ((_, refl), (_, refl))
Fits-IsWritten char t null (fixed val) h = ((_, refl), (_, refl))
Fits-IsWritten type t null d h = absurd h

serialized_null :
    (v : Value)
    → v.is_null_ ≡ true
    → ((bytes : List ℕ) × (serialized v ≡ returned bytes))
      × ((n : ℕ) × (get_serialized_size v ≡ returned n))
unfolding serialized get_serialized_size
serialized_null v null =
    ((le 4 (type_code v.type_) ++ (bool_bytes true ++ []), rw null refl), (5, rw null refl))

serialized-IsTyped :
    (v : Value)
    → IsTyped v
    → ((bytes : List ℕ) × (serialized v ≡ returned bytes))
      × ((n : ℕ) × (get_serialized_size v ≡ returned n))
unfolding serialized get_serialized_size
serialized-IsTyped v (inl null) = serialized_null v null
serialized-IsTyped v (inr fits) =
    let ((bytes, e), (n, e')) = Fits-IsWritten v.type_ v.type_ false v.value_ fits in
    elim (Bool-cases v.is_null_) [
      | inl null ↦ serialized_null v null
      | inr full ↦ (
        (le 4 (type_code v.type_) ++ (bool_bytes false ++ bytes), rw full (rw e refl)),
        (n, rw full (rw e' refl)),
      )
    ]

-- A value that `deserialize_from` returns has the type that was asked for. It is null or holds the
-- alternative of that type, so that it can be written again: neither `serialize_to` nor
-- `get_serialized_size` throws.
pub deserialize_from-IsTyped :
    (buf : List ℕ) (type : ArrrType) (v : Value)
    → deserialize_from buf type ≡ returned v
    → (v.type_ ≡ type)
      × IsTyped v
      × ((bytes : List ℕ) × (serialized v ≡ returned bytes))
      × ((n : ℕ) × (get_serialized_size v ≡ returned n))
deserialize_from-IsTyped buf type v h =
    let (same, typed) = deserialize_from-HasType buf type v h in
    let (written, sized) = serialized-IsTyped v typed in (same, typed, written, sized)
