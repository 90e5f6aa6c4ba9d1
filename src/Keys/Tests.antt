-- ===== src/Keys/Tests.antt =====
-- The theorems on chords at a small keymap.
use hyprscheme.Base.{
  ℕ, ◌==◌, ◌≡◌, refl, true, false, Option, none, some, List, [], ◌∷◌, if◌then◌else◌, Text, codes,
  text_eq, lower, arith,
}
use hyprscheme.Keys.Chord.{
  Modifier, shift, caps, ctrl, alt, mod2, mod3, meta, mod5, Xkb, token_to_keysym,
}
use hyprscheme.Keys.Convert.{Keymap, Place, find_symbol}
use hyprscheme.Keys.Search.{IsSearch, IsPlace, find_symbol-IsSearch}

-- The modifiers, under their canonical names and one alias.
abbrev modifier_table : Text → Option Modifier
modifier_table t =
    if text_eq t (codes "SHIFT")
    then some shift
    else if text_eq t (codes "CAPS")
    then some caps
    else if text_eq t (codes "CTRL")
    then some ctrl
    else if text_eq t (codes "CONTROL")
    then some ctrl
    else if text_eq t (codes "ALT")
    then some alt
    else if text_eq t (codes "MOD2")
    then some mod2
    else if text_eq t (codes "MOD3")
    then some mod3
    else if text_eq t (codes "SUPER")
    then some meta
    else if text_eq t (codes "MOD5")
    then some mod5
    else none

-- One key has a name.
abbrev tab_or_none : Text → ℕ
tab_or_none t = if text_eq (lower t) (codes "tab") then 9 else 0

abbrev tab_name : ℕ → Text
tab_name k = if k == 9 then codes "Tab" else []

abbrev small : Xkb
small = record {
  modifier_from = modifier_table;
  keysym_exact = tab_or_none;
  keysym_any_case = tab_or_none;
  keysym_name = tab_name;
  keysym_utf32 = λ k. k;
  utf32_keysym = λ c. c;
}

abbrev chord_texts : List Text
chord_texts = codes "TAB" ∷ codes "Control" ∷ codes "shift" ∷ codes "control" ∷ []

abbrev regular_texts : List Text
regular_texts = codes "SHIFT" ∷ codes "CTRL" ∷ codes "tab" ∷ []

abbrev bare : Keymap
bare = record {
  layouts = λ kc. 1;
  levels = λ kc lay. 1;
  symbol_at = λ kc lay lv. if kc == 23 then some 9 else none;
  level_mask = λ kc lay lv. none;
  plain_symbol = λ kc. if kc == 23 then 9 else 0;
  symbol_with = λ mask kc. if kc == 23 then 9 else 0;
  state = true;
}

find_symbol-IsSearch_example : IsSearch bare 9 (find_symbol bare 9)
find_symbol-IsSearch_example = find_symbol-IsSearch bare 9

percent_known : (token_to_keysym small (codes "%") == 0) ≡ false
unfolding token_to_keysym lower text_eq
percent_known = refl

percent_nowhere :
    (p : Place)
    → IsPlace bare p
    → bare.symbol_at p.key p.layout p.level ≡ some (token_to_keysym small (codes "%"))
    → ⊥
unfolding token_to_keysym lower text_eq
percent_nowhere p h e = ground arith
