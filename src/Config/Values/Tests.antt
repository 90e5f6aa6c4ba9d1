-- ===== src/Config/Values/Tests.antt =====
-- The theorems on configuration values at a stack of numbers and at a table with a table in it.
use hyprscheme.Base.{ℕ, ◌+◌, ◌*◌, ◌≡◌, refl, some, List, [], ◌∷◌, codes, length, get_elem?}
use hyprscheme.Base.Int.{pos}
use hyprscheme.Scm.{Scm, elements}
use hyprscheme.Interp.Boundary.{until_nul}
use hyprscheme.Config.Values.{
  Lua, Values, parsed, unparsed, Scratch, push_num, config_value_by_key, LuaKey, LuaField,
  string_key, number_field, other_field, lua_table, value_scm,
}
use hyprscheme.Config.Values.Sessions.{session, session_result, session-session_result}
use hyprscheme.Config.Values.Tables.{others, value_scm-entries}

abbrev number_stack : Lua (List ℕ)
number_stack = record {
  set_top_0 = λ st. [];
  push_number = λ n st. n ∷ st;
  push_integer = λ n st. 0 ∷ st;
  push_boolean = λ b st. 0 ∷ st;
  push_string = λ t st. 0 ∷ st;
  create_table = λ a h st. 0 ∷ st;
  raw_set = λ st. st;
  raw_set_i = λ i st. st;
}

abbrev parse_one : ℕ → List ℕ → hyprscheme.Config.Values.Parsed
parse_one v (n ∷ []) = parsed 4
parse_one v _ = unparsed (codes "one number, please")

abbrev one_value : Values (List ℕ)
one_value = record { value_at = λ key. some 7; parse = parse_one; truncated = λ n. pos n }

-- A refused key left two numbers behind.
abbrev leftover : Scratch (List ℕ)
leftover = record { stack = 1 ∷ 2 ∷ []; values_set = []; refreshes = []; error = codes "unknown" }

session-session_result_example :
    session number_stack one_value (push_num 5 ∷ []) (some (codes "general:border_size")) leftover
    ≡ session_result number_stack one_value
        (push_num 5 ∷ [])
        []
        (config_value_by_key (λ key. some 7) (some (codes "general:border_size")))
        (some (codes "general:border_size"))
        leftover
session-session_result_example =
    session-session_result number_stack one_value [] (push_num 5 ∷ [])
      (some (codes "general:border_size")) leftover (λ st. refl)

abbrev nested : List (LuaKey × LuaField)
nested =
    (string_key (codes "top"), number_field 3)
    ∷ (string_key (codes "sides"), other_field)
    ∷ (string_key (codes "left"), number_field 4)
    ∷ []

value_scm-entries_example :
    let vs = elements (value_scm (λ bits. some (pos bits)) (lua_table nested)) in
    (get_elem? vs 2 ≡ some (Scm.symbol (codes "sides")))
    × (get_elem? vs 3 ≡ some (Scm.symbol (codes "left")))
    × (length vs + others nested ≡ 2 * length nested)
unfolding until_nul
value_scm-entries_example =
    value_scm-entries (λ bits. some (pos bits)) ((string_key (codes "top"), number_field 3) ∷ [])
      ((string_key (codes "left"), number_field 4) ∷ []) (string_key (codes "sides")) other_field
