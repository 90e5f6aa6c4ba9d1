-- ===== src/Config/Values.antt =====
-- Configuration values by key: `hlConfigBegin` to `hlConfigSet` and `hlConfigGet` of cpp/Config.cpp. The Lua
-- stack and the compositor's values are parameters: what the Lua calls do to a stack, and what a value reads
-- off it. A double is its bit pattern.
pub mod Sessions
pub mod Tables
mod Tests
use hyprscheme.Base.{
  ℕ, ◌==◌, Bool, true, false, not, ◌||◌, Option, none, some, List, [], ◌∷◌, ◌++◌, if◌then◌else◌,
  Text, codes, is_empty,
}
use hyprscheme.Base.Int.{ℤ, pos, negsuc}
use hyprscheme.Scm.{Scm, list_of}
use hyprscheme.Desktop.{false_value}
use hyprscheme.Desktop.Workspaces.{or_empty}
use hyprscheme.Interp.Boundary.{until_nul}

-- The calls of the Lua library that the entry points make.
pub record Lua (S : Type 0) : Type 0 where
  pub set_top_0 : S → S
  pub push_number : ℕ → S → S
  pub push_integer : ℤ → S → S
  pub push_boolean : Bool → S → S
  pub push_string : Text → S → S
  pub create_table : ℕ → ℕ → S → S
  pub raw_set : S → S
  pub raw_set_i : ℤ → S → S

-- What a value makes of the stack: the refresh that it asks for, or an error text.
pub data Parsed : Type 0 where
  parsed : ℕ → Parsed
  unparsed : Text → Parsed

-- The values of the manager: the address of a key's value, if there is one; how a value parses a stack;
-- and the integer that a double is cut to.
pub record Values (S : Type 0) : Type 0 where
  pub value_at : Text → Option ℕ
  pub parse : ℕ → S → Parsed
  pub truncated : ℕ → ℤ

-- The scratch stack, the values that were set and what they read, the refreshes that were scheduled, the
-- newest first, and `g_configError`.
pub record Scratch (S : Type 0) : Type 0 where
  pub stack : S
  pub values_set : List (ℕ × S)
  pub refreshes : List ℕ
  pub error : Text

-- `':'` becomes `'.'`.
unfoldable pub dotted : Text → Text
dotted [] = []
dotted (b ∷ t) = (if b == b':' then b'.' else b) ∷ dotted t

unfoldable pub config_value_by_key : (Text → Option ℕ) → Option Text → Option ℕ
unfolding dotted
config_value_by_key value_at none = none
config_value_by_key value_at (some key) =
    if is_empty key
    then none
    else elim (value_at key) [ some v ↦ some v | none ↦ value_at (dotted key) ]

-- A call that changes the stack.
pub data StackCall : Type 0 where
  push_num push_int : ℕ → StackCall
  push_bool : Bool → StackCall
  push_str : Option Text → StackCall
  tbl_open : ℤ → StackCall
  tbl_key : Option Text → StackCall
  tbl_set_hash : StackCall
  tbl_seti : ℤ → StackCall

abbrev pub is_zero : ℤ → Bool
is_zero (pos n) = n == 0
is_zero (negsuc n) = false

abbrev pub parse_error : Text → Text
parse_error why = if is_empty why then codes "parse error" else why

module _ {S : Type 0} (lua : Lua S) (values : Values S) where
  unfoldable pub on_stack : StackCall → S → S
  on_stack (push_num bits) st = lua.push_number bits st
  on_stack (push_int bits) st = lua.push_integer (values.truncated bits) st
  on_stack (push_bool b) st = lua.push_boolean b st
  on_stack (push_str t) st = lua.push_string (or_empty t) st
  on_stack (tbl_open hash) st =
      lua.create_table (if is_zero hash then 4 else 0) (if is_zero hash then 0 else 4) st
  on_stack (tbl_key t) st = lua.push_string (or_empty t) st
  on_stack tbl_set_hash st = lua.raw_set st
  on_stack (tbl_seti i) st = lua.raw_set_i i st

  unfoldable pub config_begin : Bool → Scratch S → Scratch S × ℤ
  config_begin up s =
      if not up then (s, negsuc 0) else (record s { stack = lua.set_top_0 s.stack }, pos 0)

  unfoldable pub config_push : Bool → StackCall → Scratch S → Scratch S × ℤ
  unfolding on_stack
  config_push up c s =
      if not up then (s, negsuc 0) else (record s { stack = on_stack c s.stack }, pos 0)

  -- The stack is cleared after a value has parsed it, whatever it answers.
  abbrev pub set_value : ℕ → Parsed → Scratch S → Scratch S × ℤ
  set_value v (unparsed why) s =
      (record s { stack = lua.set_top_0 s.stack; error = parse_error why }, negsuc 1)
  set_value v (parsed bits) s = (
    record s {
      stack = lua.set_top_0 s.stack;
      values_set = (v, s.stack) ∷ s.values_set;
      refreshes = bits ∷ s.refreshes;
    },
    pos 0,
  )

  abbrev pub unknown_key : Option Text → Text
  unknown_key key = codes "unknown config key '" ++ (or_empty key ++ codes "'")

  unfoldable pub config_set : Bool → Option Text → Scratch S → Scratch S × ℤ
  unfolding config_value_by_key
  config_set up key s =
      if not up then (s, negsuc 0) else elim (config_value_by_key values.value_at key) [
        | none ↦ (record s { error = unknown_key key }, negsuc 0)
        | some v ↦ set_value v (values.parse v s.stack) s
      ]

  unfoldable pub config_last_error : Scratch S → Scm
  config_last_error s = Scm.string s.error

  unfoldable pub schedule_refresh : Bool → ℕ → Scratch S → Scratch S × ℤ
  schedule_refresh up bits s =
      if not up then (s, negsuc 0) else (record s { refreshes = bits ∷ s.refreshes }, pos 0)

-- What Lua tells of a value that was pushed, and of the keys and values of a table, in the order of
-- `lua_next`. A key that is no string is what `lua_tointeger` makes of it.
pub data LuaKey : Type 0 where
  string_key : Text → LuaKey
  other_key : ℤ → LuaKey

pub data LuaField : Type 0 where
  number_field : ℕ → LuaField
  string_field : Text → LuaField
  bool_field : Bool → LuaField
  other_field : LuaField

pub data LuaValue : Type 0 where
  lua_field : LuaField → LuaValue
  lua_table : List (LuaKey × LuaField) → LuaValue

-- `whole` is the integer of a double that is one.
abbrev pub number_value : (ℕ → Option ℤ) → ℕ → Scm
number_value whole bits = elim (whole bits) [ none ↦ Scm.flonum bits | some n ↦ Scm.int n ]

-- The value of a field, if it is one that is read.
unfoldable pub field_value : (ℕ → Option ℤ) → LuaField → Option Scm
unfolding until_nul
field_value whole (number_field bits) = some (number_value whole bits)
field_value whole (string_field t) = some (Scm.string (until_nul t))
field_value whole (bool_field b) = some (Scm.bool b)
field_value whole other_field = none

unfoldable pub key_value : LuaKey → Scm
unfolding until_nul
key_value (string_key t) = Scm.symbol (until_nul t)
key_value (other_key n) = Scm.int n

abbrev pub one_or_none : Option Scm → List Scm
one_or_none none = []
one_or_none (some v) = v ∷ []

-- The loop over a table: a key is pushed whether or not its value is.
unfoldable pub table_elements : (ℕ → Option ℤ) → List (LuaKey × LuaField) → List Scm
unfolding field_value key_value
table_elements whole [] = []
table_elements whole ((k, v) ∷ t) =
    key_value k ∷ (one_or_none (field_value whole v) ++ table_elements whole t)

abbrev pub or_false : Option Scm → Scm
or_false none = false_value
or_false (some v) = v

unfoldable pub value_scm : (ℕ → Option ℤ) → LuaValue → Scm
unfolding field_value table_elements list_of
value_scm whole (lua_field f) = or_false (field_value whole f)
value_scm whole (lua_table t) = list_of (table_elements whole t)

-- `pushed` is the Lua value that a value pushes; the stack is cleared in the end.
unfoldable pub config_get :
    {S : Type 0}
    → Lua S
    → (ℕ → Option ℤ)
    → (ℕ → LuaValue)
    → (Text → Option ℕ)
    → Bool
    → Option Text
    → Scratch S
    → Scratch S × Scm
unfolding config_value_by_key value_scm
config_get lua whole pushed value_at up key s =
    if not up then (s, false_value) else elim (config_value_by_key value_at key) [
      | none ↦ (s, false_value)
      | some v ↦ (record s { stack = lua.set_top_0 s.stack }, value_scm whole (pushed v))
    ]
