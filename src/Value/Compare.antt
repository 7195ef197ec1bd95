-- ===== src/Value/Compare.antt =====
-- The comparison operators of values.
use dimdb.Prelude.{ℕ, Bool, true, false, not, ◌&&◌, ◌||◌, ltb, ◌==◌, if◌then◌else◌}
use dimdb.Prelude.Int.{ltb_ℤ}
use dimdb.Frame.{eq_ℤ}
use dimdb.Utils.{equal_bytes}
use dimdb.CharString
use dimdb.CharString.Order.{less_bytes}
use dimdb.Float
use dimdb.Value.{Data, Value, int32, float32, truth, text, int64, fixed, type_code}

abbrev pub equal_bool : Bool → Bool → Bool
equal_bool true b = b
equal_bool false b = not b

-- `index()` of the variant
abbrev pub alternative : Data → ℕ
alternative (int32 a) = 0
alternative (float32 a) = 1
alternative (truth a) = 2
alternative (text a) = 3
alternative (int64 a) = 4
alternative (fixed a) = 5

-- `==` and `<` of the variant
unfoldable pub equal_data : Data → Data → Bool
equal_data (int32 a) (int32 b) = eq_ℤ a b
equal_data (float32 a) (float32 b) = Float.equal a b
equal_data (truth a) (truth b) = equal_bool a b
equal_data (text a) (text b) = equal_bytes a b
equal_data (int64 a) (int64 b) = eq_ℤ a b
equal_data (fixed a) (fixed b) = CharString.equal a b
equal_data a b = false

unfoldable pub less_data : Data → Data → Bool
less_data (int32 a) (int32 b) = ltb_ℤ a b
less_data (float32 a) (float32 b) = Float.less a b
less_data (truth a) (truth b) = not a && b
less_data (text a) (text b) = less_bytes a b
less_data (int64 a) (int64 b) = ltb_ℤ a b
less_data (fixed a) (fixed b) = CharString.less a b
less_data a b = ltb (alternative a) (alternative b)

unfoldable pub equal : Value → Value → Bool
equal a b =
    if not (type_code a.type_ == type_code b.type_) || not (equal_bool a.is_null_ b.is_null_)
    then false
    else if a.is_null_
    then true
    else equal_data a.value_ b.value_

unfoldable pub not_equal : Value → Value → Bool
not_equal a b = not (equal a b)

unfoldable pub less : Value → Value → Bool
less a b =
    if not (type_code a.type_ == type_code b.type_)
    then ltb (type_code a.type_) (type_code b.type_)
    else if a.is_null_ || b.is_null_
    then not a.is_null_ && b.is_null_
    else less_data a.value_ b.value_

unfoldable pub less_or_equal : Value → Value → Bool
less_or_equal a b = less a b || equal a b

unfoldable pub greater : Value → Value → Bool
greater a b = not (less_or_equal a b)

unfoldable pub greater_or_equal : Value → Value → Bool
greater_or_equal a b = not (less a b)
