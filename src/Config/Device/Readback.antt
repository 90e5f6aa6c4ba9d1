-- ===== src/Config/Device/Readback.antt =====
-- The readbacks of `CDeviceValue` in cpp/Config.cpp, from which the input manager takes a setting. A double
-- is its bit pattern, and so is a FLOAT.
use hyprscheme.Base.{ℕ, ◌++◌, if◌then◌else◌, Text, codes, decimal}
use hyprscheme.Base.Int.{ℤ, pos}
use hyprscheme.Config.Device.{
  Kind, bool_kind, int_kind, float_kind, string_kind, vec2_kind, DeviceValue, bool_value, int_value,
  float_value, string_value, vec2_value,
}
use hyprscheme.Config.Values.{LuaField, number_field, string_field, bool_field}

-- The compositor's FLOAT: its cast to an integer, its text with 17 digits, the double of it, the FLOAT of an
-- integer, and zero; and the cast of a double to an `int`, and 0.0.
pub record Readback : Type 0 where
  pub float_truncated : ℕ → ℤ
  pub print_17 : ℕ → Text
  pub widened : ℕ → ℕ
  pub float_of : ℤ → ℕ
  pub zero_float : ℕ
  pub cast_int : ℕ → ℤ
  pub zero_double : ℕ

-- The type that the value says it has.
unfoldable pub underlying : DeviceValue → Kind
underlying (bool_value b) = bool_kind
underlying (int_value i) = int_kind
underlying (float_value d) = float_kind
underlying (string_value t) = string_kind
underlying (vec2_value x y) = vec2_kind

unfoldable pub value_to_string : Readback → DeviceValue → Text
unfolding decimal
value_to_string n (bool_value b) = if b then codes "true" else codes "false"
value_to_string n (int_value i) = decimal i
value_to_string n (float_value d) = n.print_17 d
value_to_string n (string_value t) = t
value_to_string n (vec2_value x y) =
    decimal (n.cast_int x) ++ (codes " x " ++ decimal (n.cast_int y))

-- What is pushed on the Lua stack: a field, or a table of the fields at 1 and 2. `lua_pushstring` stops at
-- a null byte.
pub data Pushed : Type 0 where
  pushed_integer : ℤ → Pushed
  pushed_field : LuaField → Pushed
  pushed_pair : LuaField → LuaField → Pushed

unfoldable pub value_push : Readback → (Text → Text) → DeviceValue → Pushed
value_push n until_nul (bool_value b) = pushed_field (bool_field b)
value_push n until_nul (int_value i) = pushed_integer i
value_push n until_nul (float_value d) = pushed_field (number_field (n.widened d))
value_push n until_nul (string_value t) = pushed_field (string_field (until_nul t))
value_push n until_nul (vec2_value x y) = pushed_pair (number_field x) (number_field y)

unfoldable pub as_int : Readback → DeviceValue → ℤ
as_int n (bool_value b) = if b then pos 1 else pos 0
as_int n (int_value i) = i
as_int n (float_value d) = n.float_truncated d
as_int n (string_value t) = pos 0
as_int n (vec2_value x y) = pos 0

-- A truth value reads as zero, also when it is true.
unfoldable pub as_float : Readback → DeviceValue → ℕ
as_float n (bool_value b) = n.zero_float
as_float n (int_value i) = n.float_of i
as_float n (float_value d) = d
as_float n (string_value t) = n.zero_float
as_float n (vec2_value x y) = n.zero_float

unfoldable pub as_vec2 : Readback → DeviceValue → ℕ × ℕ
as_vec2 n (bool_value b) = (n.zero_double, n.zero_double)
as_vec2 n (int_value i) = (n.zero_double, n.zero_double)
as_vec2 n (float_value d) = (n.zero_double, n.zero_double)
as_vec2 n (string_value t) = (n.zero_double, n.zero_double)
as_vec2 n (vec2_value x y) = (x, y)

unfoldable pub as_string : Readback → DeviceValue → Text
unfolding value_to_string
as_string n (string_value t) = t
as_string n v = value_to_string n v
