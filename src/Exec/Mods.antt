-- ===== src/Exec/Mods.antt =====
-- Which modifiers a token list gives, by cpp/Exec.cpp.
use hyprscheme.Base.{
  ◌≡◌, ◌≢◌, refl, ◌∙◌, Bool, true, false, ◌||◌, Option, none, some, List, [], ◌∷◌, Text, upper, any,
  arith, Option-cases, inl, inr, ap, is_some, All,
}
use hyprscheme.Scm.{Scm, elements}
use hyprscheme.Keys.Chord.{
  Modifier, mod2, modifier_eq, Mask, no_modifiers, with_modifier, string_of,
}
use hyprscheme.Exec.{
  ModsResult, mask_of, bad_mods, modifier_token, mods_from, mods_mask_from_tokens,
}

-- The modifier that an element of the list names.
abbrev pub named_by : Scm → Option Modifier
named_by v = elim (string_of v) [ none ↦ none | some tok ↦ modifier_token (upper tok) ]

abbrev pub names : Modifier → Scm → Bool
names k v = elim (named_by v) [ none ↦ false | some m ↦ modifier_eq k m ]

abbrev pub mask_at : ModsResult → Modifier → Option Bool
mask_at (mask_of mask) k = some (mask k)
mask_at (bad_mods e) k = none

or_swap : (a b c : Bool) → (a || (b || c)) ≡ ((b || a) || c)
or_swap true true c = refl
or_swap true false c = refl
or_swap false true c = refl
or_swap false false c = refl

mods_from-any :
    (k : Modifier) (vs : List Scm) (raw : Mask)
    → All (λ v. is_some (named_by v) ≡ true) vs
    → mask_at (mods_from vs raw) k ≡ some (any (names k) vs || raw k)
unfolding mods_from with_modifier
mods_from-any k [] raw h = refl
mods_from-any k (v ∷ vs) raw h = elim (Option-cases (string_of v)) [
  | inl e ↦ absurd (ground arith)
  | inr (tok, e) ↦ elim (Option-cases (modifier_token (upper tok))) [
    | inl f ↦ absurd (ground arith)
    | inr (m, f) ↦
        rw (e, f, mods_from, names)
          (mods_from-any k vs (with_modifier m raw) h.1
            ∙ ap some (or_swap (any (names k) vs) (modifier_eq k m) (raw k)))
  ]
]

or_false : (b : Bool) → (b || false) ≡ b
or_false true = refl
or_false false = refl

-- When every element is a token that names a modifier, the mask has exactly the modifiers that some
-- token names, whatever the order, the case or the repetition of the tokens.
pub mods_mask_from_tokens-any :
    (mods : Scm) (k : Modifier)
    → All (λ v. is_some (named_by v) ≡ true) (elements mods)
    → mask_at (mods_mask_from_tokens mods) k ≡ some (any (names k) (elements mods))
unfolding mods_mask_from_tokens
mods_mask_from_tokens-any mods k h =
    mods_from-any k (elements mods) no_modifiers h
    ∙ ap some (or_false (any (names k) (elements mods)))

modifier_token-mod2 :
    (t : Text) {m : Modifier} → modifier_token t ≡ some m → modifier_eq mod2 m ≡ false
unfolding modifier_token modifier_eq
modifier_token-mod2 t {m} h = ground arith

mods_from-mod2 :
    (vs : List Scm) (raw : Mask) → raw mod2 ≡ false → mask_at (mods_from vs raw) mod2 ≢ some true
unfolding mods_from with_modifier
mods_from-mod2 [] raw h = λ e. ground arith
mods_from-mod2 (v ∷ vs) raw h = elim (Option-cases (string_of v)) [
  | inl e ↦ rw (e, mods_from) (λ q. ground arith)
  | inr (tok, e) ↦ elim (Option-cases (modifier_token (upper tok))) [
    | inl f ↦ rw (e, f, mods_from) (λ q. ground arith)
    | inr (m, f) ↦
        rw (e, f, mods_from)
          (mods_from-mod2 vs (with_modifier m raw)
            (rw (modifier_token-mod2 (upper tok) {m = m} f) h))
  ]
]

-- No list of tokens, not even one with MOD2, gives a mask with the MOD2 modifier.
pub mods_mask_from_tokens-mod2 :
    (mods : Scm) → mask_at (mods_mask_from_tokens mods) mod2 ≢ some true
unfolding mods_mask_from_tokens
mods_mask_from_tokens-mod2 mods = mods_from-mod2 (elements mods) no_modifiers refl
