-- ===== src/Keys/Regular.antt =====
-- Regularising a chord twice: `hlSchemeKeyRegularise` of cpp/Bind.cpp.
use hyprscheme.Base.{ℕ, ◌==◌, ◌≡◌, false, none, some, List, [], ◌∷◌, Text, upper, lower}
use hyprscheme.Scm.{Scm}
use hyprscheme.Keys.Chord.{Modifier, Mask, with_modifier, canon_name, Xkb, canonical}

-- What the regularisation relies on: the canonical spelling of a modifier names it, a search in any
-- case ignores the case, a keysym is found by its own name, and no keysym's name is a modifier's.
pub record XkbLaws (xkb : Xkb) : Type 0 where
  pub canon_name_found : (m : Modifier) → xkb.modifier_from (upper (canon_name m)) ≡ some m
  pub any_case : (t : Text) → xkb.keysym_any_case (lower t) ≡ xkb.keysym_any_case t
  pub own_name :
      (t : Text)
      → (xkb.keysym_any_case t == 0) ≡ false
      → xkb.keysym_any_case (xkb.keysym_name (xkb.keysym_any_case t)) ≡ xkb.keysym_any_case t
  pub no_modifier : (k : ℕ) → xkb.modifier_from (upper (xkb.keysym_name k)) ≡ none

with_all : List Modifier → Mask → Mask
with_all [] mask = mask
with_all (m ∷ ms) mask = with_all ms (with_modifier m mask)

module _ (xkb : Xkb) (laws : XkbLaws xkb) where
  open xkb use {modifier_from, keysym_any_case, keysym_name}

  -- A key token that is its own canonical spelling, and no modifier.
  IsRegularKey : Text → Type 0
  IsRegularKey k = (canonical xkb k ≡ k) × (modifier_from (upper k) ≡ none)
