-- ===== src/Exec.antt =====
-- Modifier masks of dispatched keys and gestures: `modsMaskFromTokens` of cpp/Exec.cpp.
pub mod Mods
pub mod Dispatch
pub mod Command
mod Tests
use hyprscheme.Base.{
  Bool, true, false, ◌||◌, Option, none, some, List, [], ◌∷◌, ◌++◌, if◌then◌else◌, Text, codes,
  text_eq, upper,
}
use hyprscheme.Scm.{Scm, elements}
use hyprscheme.Keys.Chord.{
  Modifier, shift, caps, ctrl, alt, mod2, mod3, meta, mod5, Mask, no_modifiers, with_modifier,
  string_of,
}

-- A mask, or the error text.
pub data ModsResult : Type 0 where
  mask_of : Mask → ModsResult
  bad_mods : Text → ModsResult

-- The bits 1, 2, 4, 8, 32, 64 and 128 are named by the modifiers that have them.
unfoldable pub modifier_token : Text → Option Modifier
modifier_token tok =
    if text_eq tok (codes "SHIFT")
    then some shift
    else if text_eq tok (codes "CAPS")
    then some caps
    else if text_eq tok (codes "CTRL") || text_eq tok (codes "CONTROL")
    then some ctrl
    else if text_eq tok (codes "ALT")
    then some alt
    else if text_eq tok (codes "MOD3")
    then some mod3
    else if text_eq tok (codes "SUPER")
        || (text_eq tok (codes "META") || text_eq tok (codes "MOD2"))
    then some meta
    else if text_eq tok (codes "MOD5")
    then some mod5
    else none

unfoldable pub mods_from : List Scm → Mask → ModsResult
mods_from [] raw = mask_of raw
mods_from (v ∷ vs) raw = elim (string_of v) [
  | none ↦ bad_mods (codes "'mods must be a list of modifier tokens, e.g. (hl-key \"SUPER\")")
  | some tok ↦ elim (modifier_token (upper tok)) [
    | none ↦ bad_mods (codes "unknown modifier token '" ++ (upper tok ++ codes "'"))
    | some m ↦ mods_from vs (with_modifier m raw)
  ]
]

unfoldable pub mods_mask_from_tokens : Scm → ModsResult
unfolding mods_from elements
mods_mask_from_tokens mods = mods_from (elements mods) no_modifiers
