-- ===== src/Config/Values/Tables.antt =====
-- The property list that `hlConfigGet` of cpp/Config.cpp makes of a table.
use hyprscheme.Base.{
  ℕ, suc, ◌+◌, ◌*◌, ◌≡◌, refl, ap, ◌∙◌, Option, none, some, List, [], ◌∷◌, ◌++◌, length, get_elem?,
  arith,
}
use hyprscheme.Interp.Boundary.{until_nul}
use hyprscheme.Base.Int.{ℤ}
use hyprscheme.Scm.{Scm, elements, elements-list_of}
use hyprscheme.Config.Values.{
  LuaKey, string_key, other_key, LuaField, number_field, string_field, bool_field, other_field,
  lua_table, field_value, key_value, table_elements, value_scm,
}

-- The entries whose value is no number, no text and no truth value.
abbrev pub others : List (LuaKey × LuaField) → ℕ
others [] = 0
others ((k, other_field) ∷ t) = suc (others t)
others ((k, v) ∷ t) = others t

table_elements-length :
    (whole : ℕ → Option ℤ) (t : List (LuaKey × LuaField))
    → length (table_elements whole t) + others t ≡ 2 * length t
unfolding table_elements field_value
table_elements-length whole [] = refl
table_elements-length whole ((k, number_field bits) ∷ t) =
    omega (arith, table_elements-length whole t)
table_elements-length whole ((k, string_field s) ∷ t) = omega (arith, table_elements-length whole t)
table_elements-length whole ((k, bool_field b) ∷ t) = omega (arith, table_elements-length whole t)
table_elements-length whole ((k, other_field) ∷ t) = omega (arith, table_elements-length whole t)

-- The key of an entry in the list, and its value, if it has one that is read.
abbrev pub read_key : LuaKey → Scm
read_key (string_key t) = Scm.symbol (until_nul t)
read_key (other_key n) = Scm.int n

abbrev pub read_number : ℕ → Option ℤ → Scm
read_number bits none = Scm.flonum bits
read_number bits (some n) = Scm.int n

-- What stands behind the key of an entry: its value, or what comes next, the key of the next entry if there
-- is one.
abbrev pub behind_key : (ℕ → Option ℤ) → LuaField → List (LuaKey × LuaField) → Option Scm
behind_key whole (number_field bits) after = some (read_number bits (whole bits))
behind_key whole (string_field t) after = some (Scm.string (until_nul t))
behind_key whole (bool_field b) after = some (Scm.bool b)
behind_key whole other_field [] = none
behind_key whole other_field ((k, v) ∷ after) = some (read_key k)

-- How many elements the entries take, two for each that has a value and one for each other.
abbrev pub taken_by : List (LuaKey × LuaField) → ℕ
taken_by [] = 0
taken_by ((k, number_field bits) ∷ t) = suc (suc (taken_by t))
taken_by ((k, string_field s) ∷ t) = suc (suc (taken_by t))
taken_by ((k, bool_field b) ∷ t) = suc (suc (taken_by t))
taken_by ((k, other_field) ∷ t) = suc (taken_by t)

number_read :
    (o : Option ℤ) (bits : ℕ)
    → (elim o [ none ↦ Scm.flonum bits | some n ↦ Scm.int n ]) ≡ read_number bits o
number_read none bits = refl
number_read (some n) bits = refl

key_read : (k : LuaKey) → key_value k ≡ read_key k
unfolding key_value
key_read (string_key t) = refl
key_read (other_key n) = refl

-- The elements of the first entry.
table_elements-first :
    (whole : ℕ → Option ℤ) (k : LuaKey) (v : LuaField) (after : List (LuaKey × LuaField))
    → (get_elem? (table_elements whole ((k, v) ∷ after)) 0 ≡ some (read_key k))
      × (get_elem? (table_elements whole ((k, v) ∷ after)) 1 ≡ behind_key whole v after)
unfolding table_elements field_value
table_elements-first whole k (number_field bits) after =
    (ap some (key_read k), ap some (number_read (whole bits) bits))
table_elements-first whole k (string_field t) after = (ap some (key_read k), refl)
table_elements-first whole k (bool_field b) after = (ap some (key_read k), refl)
table_elements-first whole k other_field [] = (ap some (key_read k), refl)
table_elements-first whole k other_field ((j, v) ∷ after) =
    (ap some (key_read k), ap some (key_read j))

past_one :
    (v : Scm) (vs : List Scm) (n i : ℕ) → get_elem? (v ∷ vs) (suc n + i) ≡ get_elem? vs (n + i)
past_one v vs n i = let e : suc n + i ≡ suc (n + i) = omega arith in ap (get_elem? (v ∷ vs)) e

past_two :
    (u v : Scm) (vs : List Scm) (n i : ℕ)
    → get_elem? (u ∷ v ∷ vs) (suc (suc n) + i) ≡ get_elem? vs (n + i)
past_two u v vs n i = past_one u (v ∷ vs) (suc n) i ∙ past_one v vs n i

table_elements-shifted :
    (whole : ℕ → Option ℤ) (before t : List (LuaKey × LuaField)) (i : ℕ)
    → get_elem? (table_elements whole (before ++ t)) (taken_by before + i)
      ≡ get_elem? (table_elements whole t) i
unfolding table_elements field_value
table_elements-shifted whole [] t i =
    let e : 0 + i ≡ i = omega arith in ap (get_elem? (table_elements whole t)) e
table_elements-shifted whole ((k, number_field bits) ∷ before) t i =
    past_two _ _ _ (taken_by before) i ∙ table_elements-shifted whole before t i
table_elements-shifted whole ((k, string_field s) ∷ before) t i =
    past_two _ _ _ (taken_by before) i ∙ table_elements-shifted whole before t i
table_elements-shifted whole ((k, bool_field b) ∷ before) t i =
    past_two _ _ _ (taken_by before) i ∙ table_elements-shifted whole before t i
table_elements-shifted whole ((k, other_field) ∷ before) t i =
    past_one _ _ (taken_by before) i ∙ table_elements-shifted whole before t i

-- In the list that a table reads back as, each entry's key stands behind two elements for each earlier
-- entry that has a number, a text or a truth value, and one for each other earlier entry. Behind the key
-- stands the entry's value, or, when the entry has none of these values, at once the next entry's key or
-- the end of the list. The whole list has two elements for each entry less one for each such entry.
pub value_scm-entries :
    (whole : ℕ → Option ℤ) (before after : List (LuaKey × LuaField)) (k : LuaKey) (v : LuaField)
    → let t = before ++ (k, v) ∷ after in
      let vs = elements (value_scm whole (lua_table t)) in
      (get_elem? vs (taken_by before) ≡ some (read_key k))
      × (get_elem? vs (taken_by before + 1) ≡ behind_key whole v after)
      × (length vs + others t ≡ 2 * length t)
unfolding value_scm
value_scm-entries whole before after k v =
    let t = before ++ (k, v) ∷ after in
    let first = table_elements-first whole k v after in
    let e : taken_by before ≡ taken_by before + 0 = omega arith in
    rw (elements-list_of (table_elements whole t)) (
      ap (get_elem? (table_elements whole t)) e
          ∙ table_elements-shifted whole before ((k, v) ∷ after) 0
          ∙ first.0,
      table_elements-shifted whole before ((k, v) ∷ after) 1 ∙ first.1,
      table_elements-length whole t,
    )
