-- ===== src/Keys/Convert.antt =====
-- Logical and physical keys: `hlSchemeKeyLogicalToPhysical` and `hlSchemeKeyPhysicalToLogical` of
-- cpp/Bind.cpp. The active keymap is a parameter.
use hyprscheme.Base.{
  ℕ, zero, suc, ◌==◌, Bool, not, ◌&&◌, Option, none, some, List, [], ◌∷◌, ◌++◌, if◌then◌else◌, Text,
  codes, text_eq, any, is_empty, leb,
}
use hyprscheme.Scm.{Scm}
use hyprscheme.Keys.Chord.{
  Mask, no_modifiers, mask_to_tokens, Xkb, Answer, declined, failed, answered, bad, chord,
  keysym_to_char, token_to_keysym, split_tokens,
}

-- What xkbcommon tells of a keymap: how many layouts a key has and levels a layout of it, the only
-- symbol of a level, the first mask that reaches it, the symbol of a key with no modifier down and
-- with some. `state` is whether a state can be built.
pub record Keymap : Type 0 where
  pub layouts : ℕ → ℕ
  pub levels : ℕ → ℕ → ℕ
  pub symbol_at : ℕ → ℕ → ℕ → Option ℕ
  pub level_mask : ℕ → ℕ → ℕ → Option Mask
  pub plain_symbol : ℕ → ℕ
  pub symbol_with : Mask → ℕ → ℕ
  pub state : Bool

-- The first result of `n` numbers from `i` on.
unfoldable pub first_of {ℓ} : {A : Type ℓ} → ℕ → ℕ → (ℕ → Option A) → Option A
first_of zero i f = none
first_of (suc n) i f = elim (f i) [ some a ↦ some a | none ↦ first_of n (suc i) f ]

-- A key, a layout and a level.
pub record Place : Type 0 where
  pub key : ℕ
  pub layout : ℕ
  pub level : ℕ

-- `activeKeymap`: the first keyboard that is there and has one; `none` for the list when there is no input
-- manager.
unfoldable pub first_keymap : List (Option (Option Keymap)) → Option Keymap
first_keymap [] = none
first_keymap (some (some keymap) ∷ keyboards) = some keymap
first_keymap (some none ∷ keyboards) = first_keymap keyboards
first_keymap (none ∷ keyboards) = first_keymap keyboards

unfoldable pub active_keymap : Option (List (Option (Option Keymap))) → Option Keymap
unfolding first_keymap
active_keymap none = none
active_keymap (some keyboards) = first_keymap keyboards

abbrev pub produces : Keymap → ℕ → ℕ → ℕ → ℕ → Option Place
produces km want kc lay lv = elim (km.symbol_at kc lay lv) [
  | none ↦ none
  | some sym ↦ if sym == want then some (record { key = kc; layout = lay; level = lv }) else none
]

-- The keycodes 8 to 255, the layouts of each and their levels.
unfoldable pub find_symbol : Keymap → ℕ → Option Place
unfolding first_of
find_symbol km want = first_of 248 8 (λ kc.
    first_of (km.layouts kc) 0
      (λ lay. first_of (km.levels kc lay) 0 (λ lv. produces km want kc lay lv)))

abbrev pub mask_or_none : Option Mask → Mask
mask_or_none none = no_modifiers
mask_or_none (some m) = m

-- The tokens of the second list that are not there yet are put behind the first.
unfoldable pub merge_tokens : List Text → List Text → List Text
merge_tokens toks [] = toks
merge_tokens toks (m ∷ ms) =
    if any (λ t. text_eq t m) toks then merge_tokens toks ms else merge_tokens (toks ++ m ∷ []) ms

abbrev pub is_printable : ℕ → Bool
is_printable cp = leb 33 cp && leb cp 126

module _ (xkb : Xkb) where
  open xkb use {keysym_name, keysym_utf32}

  -- Where the symbol was found: our modifiers, then what the level adds, then the key's plain symbol.
  unfoldable pub placed_answer : Keymap → Mask → Place → Answer
  unfolding merge_tokens mask_to_tokens
  placed_answer km mask p =
      if not km.state
      then failed (codes "hl-key-logical-to-physical: could not build a state")
      else if is_empty (keysym_name (km.plain_symbol p.key))
      then failed (codes "hl-key-logical-to-physical: no name for the base key")
      else answered (
          merge_tokens (mask_to_tokens mask)
            (mask_to_tokens (mask_or_none (km.level_mask p.key p.layout p.level)))
          ++ keysym_name (km.plain_symbol p.key) ∷ [])

  abbrev pub unplaced_text : Text → Text
  unplaced_text key =
      codes "hl-key-logical-to-physical: cannot produce the character \""
      ++ (key ++ codes "\" on the active layout")

  unfoldable pub convert_logical : Option Keymap → Mask → Text → Answer
  unfolding token_to_keysym find_symbol placed_answer mask_to_tokens
  convert_logical none mask key =
      failed (codes "hl-key-logical-to-physical: no keyboard/keymap available")
  convert_logical (some km) mask key =
      let want = token_to_keysym xkb key in
      if want == 0
      then failed (codes "hl-key-logical-to-physical: cannot resolve key \"" ++ (key ++ codes "\""))
      else elim (find_symbol km want) [
        | some p ↦ placed_answer km mask p
        | none ↦
            if not (is_printable (keysym_utf32 want))
            then answered (mask_to_tokens mask ++ key ∷ [])
            else failed (unplaced_text key)
      ]

  unfoldable pub key_logical_to_physical : Bool → Option Keymap → Scm → Answer
  unfolding split_tokens convert_logical mask_to_tokens
  key_logical_to_physical up keymap tokens =
      if not up then declined else elim (split_tokens xkb tokens) [
        | bad message ↦ failed message
        | chord mask key is_event ↦
            if is_event
            then answered (mask_to_tokens mask ++ key ∷ [])
            else convert_logical keymap mask key
      ]

  -- The key whose plain symbol is `base`.
  unfoldable pub find_base : Keymap → ℕ → Option ℕ
  unfolding first_of
  find_base km base =
      first_of 248 8
        (λ kc. if (if km.state then km.plain_symbol kc else 0) == base then some kc else none)

  -- The mask of the first level of a key's first layout that has the symbol.
  unfoldable pub absorbed : Keymap → ℕ → ℕ → Mask
  unfolding first_of
  absorbed km kc sym = elim (first_of (km.levels kc 0) 0 (λ lv. produces km sym kc 0 lv)) [
    | none ↦ no_modifiers
    | some p ↦ mask_or_none (km.level_mask kc 0 p.level)
  ]

  unfoldable pub convert_physical : Option Keymap → Mask → Text → Answer
  unfolding token_to_keysym find_base absorbed mask_to_tokens keysym_to_char
  convert_physical none mask key =
      failed (codes "hl-key-physical-to-logical: no keyboard/keymap available")
  convert_physical (some km) mask key =
      let base = token_to_keysym xkb key in
      if not km.state
      then failed (codes "hl-key-physical-to-logical: could not build a state")
      else if not (is_printable (keysym_utf32 base))
      then answered (mask_to_tokens mask ++ key ∷ [])
      else elim (find_base km base) [
        | none ↦ answered (mask_to_tokens mask ++ key ∷ [])
        | some kc ↦
            if is_empty (keysym_to_char xkb (km.symbol_with mask kc))
            then failed (codes "hl-key-physical-to-logical: no name for the resulting key")
            else answered (
                mask_to_tokens (λ m. mask m && not (absorbed km kc (km.symbol_with mask kc) m))
                ++ keysym_to_char xkb (km.symbol_with mask kc) ∷ [])
      ]

  unfoldable pub key_physical_to_logical : Bool → Option Keymap → Scm → Answer
  unfolding split_tokens convert_physical mask_to_tokens
  key_physical_to_logical up keymap tokens =
      if not up then declined else elim (split_tokens xkb tokens) [
        | bad message ↦ failed message
        | chord mask key is_event ↦
            if is_event
            then answered (mask_to_tokens mask ++ key ∷ [])
            else convert_physical keymap mask key
      ]
