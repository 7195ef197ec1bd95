-- ===== src/Value.antt =====
-- src/dimserver/common/value.h and value.cpp: `Value`, a field value of one of the types.
--
-- A value is written to memory as its type in 4 bytes, its null flag in one and the payload, with
-- the numbers little-endian.
pub mod Compare
pub mod Serial
pub mod Text
pub mod Date
pub mod Payload
pub mod RoundTrip
pub mod Trichotomy
pub mod Transitive
pub mod Typed
mod Tests
use dimdb.Prelude.{ℕ, Bool, true, false, List, []}
use dimdb.Prelude.Int.{ℤ, pos}
use dimdb.CharString.{CharString}

pub data ArrrType : Type 0 where
  undefined integer float varchar boolean timestamp char max_type : ArrrType

-- The number of an enumerator.
unfoldable pub type_code : ArrrType → ℕ
type_code undefined = 0
type_code integer = 1
type_code float = 2
type_code varchar = 3
type_code boolean = 4
type_code timestamp = 5
type_code char = 6
type_code max_type = 7

-- The `std::variant`; a float is given by its bits.
pub data Data : Type 0 where
  int32 : ℤ → Data
  float32 : ℕ → Data
  truth : Bool → Data
  text : List ℕ → Data
  int64 : ℤ → Data
  fixed : CharString → Data

pub record Value : Type 0 where
  pub type_ : ArrrType
  pub is_null_ : Bool
  pub value_ : Data

-- The constructors. A variant starts as its first alternative.
abbrev pub new_null : Value
new_null = record { type_ = undefined; is_null_ = true; value_ = int32 (pos 0) }

abbrev pub new_integer : ℤ → Value
new_integer val = record { type_ = integer; is_null_ = false; value_ = int32 val }

abbrev pub new_float : ℕ → Value
new_float val = record { type_ = float; is_null_ = false; value_ = float32 val }

abbrev pub new_boolean : Bool → Value
new_boolean val = record { type_ = boolean; is_null_ = false; value_ = truth val }

abbrev pub new_varchar : List ℕ → Value
new_varchar val = record { type_ = varchar; is_null_ = false; value_ = text val }

abbrev pub new_timestamp : ℤ → Value
new_timestamp val = record { type_ = timestamp; is_null_ = false; value_ = int64 val }

abbrev pub new_char : CharString → Value
new_char val = record { type_ = char; is_null_ = false; value_ = fixed val }

abbrev pub set_null : Value → Bool → Value
set_null v null = record v { is_null_ = null }

-- What the operations throw.
pub data Exception : Type 0 where
  bad_variant_access type_mismatch invalid_type invalid_date invalid_time not_timestamp : Exception

-- A call returns, throws, or reads or writes memory in a way that C++ leaves undefined.
pub data Result {ℓ} (A : Type ℓ) : Type ℓ where
  returned : A → Result A
  thrown : Exception → Result A
  undefined_behaviour : Result A

infixl 5 ◌>>=◌
abbrev pub ◌>>=◌ {ℓ κ} : {A : Type ℓ} {B : Type κ} → Result A → (A → Result B) → Result B
returned a >>= f = f a
thrown e >>= f = thrown e
undefined_behaviour >>= f = undefined_behaviour

-- The getters: `std::get` of the alternative.
abbrev pub get_integer : Value → Result ℤ
get_integer v = elim v.value_ [ int32 val ↦ returned val | _ ↦ thrown bad_variant_access ]

abbrev pub get_float : Value → Result ℕ
get_float v = elim v.value_ [ float32 val ↦ returned val | _ ↦ thrown bad_variant_access ]

abbrev pub get_boolean : Value → Result Bool
get_boolean v = elim v.value_ [ truth val ↦ returned val | _ ↦ thrown bad_variant_access ]

abbrev pub get_string : Value → Result (List ℕ)
get_string v = elim v.value_ [ text val ↦ returned val | _ ↦ thrown bad_variant_access ]

abbrev pub get_timestamp : Value → Result ℤ
get_timestamp v = elim v.value_ [ int64 val ↦ returned val | _ ↦ thrown bad_variant_access ]

abbrev pub get_char : Value → Result CharString
get_char v = elim v.value_ [ fixed val ↦ returned val | _ ↦ thrown bad_variant_access ]

-- The payload is the alternative of the type.
unfoldable pub Fits : ArrrType → Data → Type 0
Fits integer (int32 val) = Unit
Fits float (float32 val) = Unit
Fits boolean (truth val) = Unit
Fits varchar (text val) = Unit
Fits timestamp (int64 val) = Unit
Fits char (fixed val) = Unit
Fits type payload = ⊥
