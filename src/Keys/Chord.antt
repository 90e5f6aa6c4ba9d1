-- ===== src/Keys/Chord.antt =====
-- Chords of cpp/Bind.cpp: modifiers, tokens and their canonical form. xkbcommon and the compositor's
-- table of modifier names are parameters.
use hyprscheme.Base.{
  ℕ, ◌==◌, Bool, true, false, not, ◌||◌, ◌&&◌, Option, none, some, List, [], ◌∷◌, ◌++◌,
  if◌then◌else◌, Text, codes, text_eq, has_prefix, upper, lower, keep, is_empty, leb, any,
}
use hyprscheme.Scm.{Scm, elements}

-- The bits of a mask, in the order of `MODIFIER_CANON`.
pub data Modifier : Type 0 where
  shift caps ctrl alt mod2 mod3 meta mod5 : Modifier

unfoldable pub modifier_eq : Modifier → Modifier → Bool
modifier_eq shift shift = true
modifier_eq caps caps = true
modifier_eq ctrl ctrl = true
modifier_eq alt alt = true
modifier_eq mod2 mod2 = true
modifier_eq mod3 mod3 = true
modifier_eq meta meta = true
modifier_eq mod5 mod5 = true
modifier_eq _ _ = false

abbrev pub Mask : Type 0
Mask = Modifier → Bool

abbrev pub no_modifiers : Mask
no_modifiers m = false

-- `mask |= bit`.
unfoldable pub with_modifier : Modifier → Mask → Mask
unfolding modifier_eq
with_modifier m mask k = modifier_eq k m || mask k

abbrev pub modifier_canon : List Modifier
modifier_canon = shift ∷ caps ∷ ctrl ∷ alt ∷ mod2 ∷ mod3 ∷ meta ∷ mod5 ∷ []

unfoldable pub canon_name : Modifier → Text
canon_name shift = codes "SHIFT"
canon_name caps = codes "CAPS"
canon_name ctrl = codes "CTRL"
canon_name alt = codes "ALT"
canon_name mod2 = codes "MOD2"
canon_name mod3 = codes "MOD3"
canon_name meta = codes "SUPER"
canon_name mod5 = codes "MOD5"

unfoldable pub canon_names : List Modifier → List Text
unfolding canon_name
canon_names [] = []
canon_names (m ∷ ms) = canon_name m ∷ canon_names ms

-- `maskToTokens`.
unfoldable pub mask_to_tokens : Mask → List Text
unfolding canon_names
mask_to_tokens mask = canon_names (keep mask modifier_canon)

-- A keysym is a number, 0 the missing one. `keysym_exact` and `keysym_any_case` look a name up,
-- `keysym_name` renders it, empty for one without a name.
pub record Xkb : Type 0 where
  pub modifier_from : Text → Option Modifier
  pub keysym_exact : Text → ℕ
  pub keysym_any_case : Text → ℕ
  pub keysym_name : ℕ → Text
  pub keysym_utf32 : ℕ → ℕ
  pub utf32_keysym : ℕ → ℕ

-- What the entry points answer: `#f`, `#f` with an error text, or a token list.
pub data Answer : Type 0 where
  declined : Answer
  failed : Text → Answer
  answered : List Text → Answer

-- A split chord, or the error text.
pub data Split : Type 0 where
  bad : Text → Split
  chord : Mask → Text → Bool → Split

abbrev pub string_of : Scm → Option Text
string_of (Scm.string t) = some t
string_of _ = none

module _ (xkb : Xkb) where
  open xkb use {
    modifier_from, keysym_exact, keysym_any_case, keysym_name, keysym_utf32, utf32_keysym,
  }

  -- The canonical spelling of a key token.
  unfoldable pub canonical : Text → Text
  canonical tok =
      if keysym_any_case tok == 0 then lower tok else lower (keysym_name (keysym_any_case tok))

  -- The loop over the tokens: the mask and the keys so far; `none` for a token that is no string.
  unfoldable pub chord_of : List Scm → Mask → List Text → Option (Mask × List Text)
  chord_of [] mask ks = some (mask, ks)
  chord_of (v ∷ vs) mask ks = elim (string_of v) [
    | none ↦ none
    | some tok ↦ elim (modifier_from (upper tok)) [
      | some m ↦ chord_of vs (with_modifier m mask) ks
      | none ↦ chord_of vs mask (ks ++ canonical tok ∷ [])
    ]
  ]

  unfoldable pub regular_answer : Option (Mask × List Text) → Answer
  unfolding mask_to_tokens
  regular_answer none = failed (codes "hl-key-regularise: every token must be a string")
  regular_answer (some (mask, ks)) =
      if is_empty ks
      then failed (codes "hl-key-regularise: a chord needs a key, not only modifiers")
      else answered (mask_to_tokens mask ++ ks)

  unfoldable pub key_regularise : Bool → Scm → Answer
  unfolding chord_of regular_answer elements
  key_regularise up tokens =
      if not up then declined else regular_answer (chord_of (elements tokens) no_modifiers [])

  -- `keysymToChar`: the character of a printable keysym, or its name.
  unfoldable pub keysym_to_char : ℕ → Text
  keysym_to_char sym =
      if leb 33 (keysym_utf32 sym) && leb (keysym_utf32 sym) 126
      then keysym_utf32 sym ∷ []
      else keysym_name sym

  abbrev pub single : Text → Option ℕ
  single (c ∷ []) = some c
  single _ = none

  unfoldable pub token_to_keysym : Text → ℕ
  token_to_keysym token =
      if not (keysym_exact token == 0)
      then keysym_exact token
      else if not (keysym_any_case token == 0)
      then keysym_any_case token
      else elim (single token) [ none ↦ 0 | some c ↦ utf32_keysym c ]

  abbrev pub sided : List Text
  sided =
      codes "SHIFT_L"
      ∷ codes "SHIFT_R"
      ∷ codes "CONTROL_L"
      ∷ codes "CTRL_L"
      ∷ codes "CONTROL_R"
      ∷ codes "CTRL_R"
      ∷ codes "ALT_L"
      ∷ codes "ALT_R"
      ∷ codes "SUPER_L"
      ∷ codes "SUPER_R"
      ∷ []

  -- The mask, the last key token, and whether some key token was a sided modifier.
  unfoldable pub split_from :
      List Scm → Mask → Option Text → Bool → Option (Mask × Option Text × Bool)
  split_from [] mask key is_sided = some (mask, key, is_sided)
  split_from (v ∷ vs) mask key is_sided = elim (string_of v) [
    | none ↦ none
    | some tok ↦ elim (modifier_from (upper tok)) [
      | some m ↦ split_from vs (with_modifier m mask) key is_sided
      | none ↦ split_from vs mask (some tok) (is_sided || any (text_eq (upper tok)) sided)
    ]
  ]

  abbrev pub is_event_key : Text → Bool
  is_event_key key =
      has_prefix (codes "code:") key
      || has_prefix (codes "mouse:") key
      || has_prefix (codes "switch:") key
      || text_eq key (codes "catchall")

  unfoldable pub split_tokens : Scm → Split
  unfolding split_from elements
  split_tokens tokens = elim (split_from (elements tokens) no_modifiers none false) [
    | none ↦ bad (codes "every token must be a string")
    | some (mask, none, is_sided) ↦ bad (codes "a chord needs a key, not only modifiers")
    | some (mask, some key, is_sided) ↦ chord mask key (is_sided || is_event_key key)
  ]
