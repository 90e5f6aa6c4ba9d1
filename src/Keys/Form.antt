-- ===== src/Keys/Form.antt =====
-- What regularising makes of a chord, described from its tokens: `hlSchemeKeyRegularise` of cpp/Bind.cpp.
use hyprscheme.Base.{
  ◌==◌, ◌≡◌, refl, ap, sym, ◌∙◌, Bool, true, false, ◌||◌, none, some, List, [], ◌∷◌, ◌++◌,
  if◌then◌else◌, Text, codes, is_empty, upper, lower, keep, any, arith, Bool-cases, Option-cases,
  inl, inr, append_assoc, append-nil,
}
use hyprscheme.Scm.{Scm}
use hyprscheme.Keys.Chord.{
  Modifier, shift, caps, ctrl, alt, mod2, mod3, meta, mod5, modifier_eq, Mask, no_modifiers,
  with_modifier, modifier_canon, canon_name, canon_names, mask_to_tokens, Xkb, Answer, failed,
  answered, canonical, chord_of, regular_answer,
}

-- The token list of a list of texts.
abbrev pub strings : List Text → List Scm
strings [] = []
strings (t ∷ ts) = Scm.string t ∷ strings ts

pub or_false : (b : Bool) → (b || false) ≡ b
or_false true = refl
or_false false = refl

module _ (xkb : Xkb) where
  open xkb use {modifier_from, keysym_any_case, keysym_name}

  -- The modifiers in the fixed order, with the names that they are written under.
  abbrev pub fixed_order : List (Modifier × Text)
  fixed_order =
      (shift, codes "SHIFT")
      ∷ (caps, codes "CAPS")
      ∷ (ctrl, codes "CTRL")
      ∷ (alt, codes "ALT")
      ∷ (mod2, codes "MOD2")
      ∷ (mod3, codes "MOD3")
      ∷ (meta, codes "SUPER")
      ∷ (mod5, codes "MOD5")
      ∷ []

  -- Whether a token, in any case, names a modifier, or none.
  unfoldable pub names : Modifier → Text → Bool
  names m t = elim (modifier_from (upper t)) [ none ↦ false | some k ↦ modifier_eq m k ]

  unfoldable pub is_key : Text → Bool
  is_key t = elim (modifier_from (upper t)) [ none ↦ true | some k ↦ false ]

  abbrev pub second_of : List (Modifier × Text) → List Text
  second_of [] = []
  second_of ((m, name) ∷ ps) = name ∷ second_of ps

  -- The modifiers that some token names, once each; and the keys in the chord's order, each spelled as the
  -- name of its keysym, if it has one, in lower case.
  unfoldable pub modifiers_in : List Text → List Text
  unfolding names
  modifiers_in ts = second_of (keep (λ (p : Modifier × Text). any (names p.0) ts) fixed_order)

  abbrev pub spelled : Text → Text
  spelled t = let sym = keysym_any_case t in if sym == 0 then lower t else lower (keysym_name sym)

  abbrev pub all_spelled : List Text → List Text
  all_spelled [] = []
  all_spelled (t ∷ ts) = spelled t ∷ all_spelled ts

  unfoldable pub keys_in : List Text → List Text
  unfolding is_key
  keys_in ts = all_spelled (keep is_key ts)

  unfoldable pub regular_form : List Text → Answer
  unfolding modifiers_in keys_in
  regular_form ts =
      if is_empty (keys_in ts)
      then failed (codes "hl-key-regularise: a chord needs a key, not only modifiers")
      else answered (modifiers_in ts ++ keys_in ts)

  names-none : (m : Modifier) (t : Text) → modifier_from (upper t) ≡ none → names m t ≡ false
  unfolding names
  names-none m t e = rw (e, names) refl

  names-some :
      (m k : Modifier) (t : Text) → modifier_from (upper t) ≡ some k → names m t ≡ modifier_eq m k
  unfolding names
  names-some m k t e = rw (e, names) refl

  is_key-none : (t : Text) → modifier_from (upper t) ≡ none → is_key t ≡ true
  unfolding is_key
  is_key-none t e = rw (e, is_key) refl

  is_key-some : (k : Modifier) (t : Text) → modifier_from (upper t) ≡ some k → is_key t ≡ false
  unfolding is_key
  is_key-some k t e = rw (e, is_key) refl

  pub keys_in-none :
      (t : Text) (ts : List Text)
      → modifier_from (upper t) ≡ none
      → keys_in (t ∷ ts) ≡ spelled t ∷ keys_in ts
  unfolding keys_in
  keys_in-none t ts e = rw (is_key-none t e, keys_in) refl

  pub keys_in-some :
      (k : Modifier) (t : Text) (ts : List Text)
      → modifier_from (upper t) ≡ some k
      → keys_in (t ∷ ts) ≡ keys_in ts
  unfolding keys_in
  keys_in-some k t ts e = rw (is_key-some k t e, keys_in) refl

  -- The mask once the tokens are read.
  unfoldable pub mask_after : List Text → Mask → Mask
  mask_after [] mask = mask
  mask_after (t ∷ ts) mask = elim (modifier_from (upper t)) [
    | none ↦ mask_after ts mask
    | some m ↦ mask_after ts (with_modifier m mask)
  ]

  mask_after-names :
      (ts : List Text) (mask : Mask) (k : Modifier)
      → mask_after ts mask k ≡ (any (names k) ts || mask k)
  unfolding mask_after with_modifier
  mask_after-names [] mask k = refl
  mask_after-names (t ∷ ts) mask k = elim (Option-cases (modifier_from (upper t))) [
    | inl e ↦ rw (names-none k t e, e, mask_after) (mask_after-names ts mask k)
    | inr (m, e) ↦
        rw (names-some k m t e, e, mask_after)
          (ground (arith, mask_after-names ts (with_modifier m mask) k))
  ]

  pub chord_of-strings :
      (ts : List Text) (mask : Mask) (ks : List Text)
      → chord_of xkb (strings ts) mask ks ≡ some (mask_after ts mask, ks ++ keys_in ts)
  unfolding chord_of mask_after canonical keys_in
  chord_of-strings [] mask ks = ap (λ us. some (mask, us)) (sym (append-nil ks))
  chord_of-strings (t ∷ ts) mask ks = elim (Option-cases (modifier_from (upper t))) [
    | inl e ↦
        rw (keys_in-none t ts e, e, chord_of, mask_after)
          (chord_of-strings ts mask (ks ++ canonical xkb t ∷ [])
            ∙ ap (λ us. some (mask_after ts mask, us))
                (append_assoc ks (canonical xkb t ∷ []) (keys_in ts)))
    | inr (m, e) ↦
        rw (keys_in-some m t ts e, e, chord_of, mask_after)
          (chord_of-strings ts (with_modifier m mask) ks)
  ]

  -- The tokens of a mask are the names of its modifiers in the fixed order.
  mask_to_tokens-named :
      (mask : Mask)
      → mask_to_tokens mask ≡ second_of (keep (λ (p : Modifier × Text). mask p.0) fixed_order)
  unfolding mask_to_tokens canon_names canon_name
  mask_to_tokens-named mask = named modifier_canon
    where
      paired : List Modifier → List (Modifier × Text)
      paired [] = []
      paired (m ∷ ms) = (m, canon_name m) ∷ paired ms

      named :
          (ms : List Modifier)
          → canon_names (keep mask ms)
            ≡ second_of (keep (λ (p : Modifier × Text). mask p.0) (paired ms))
      named [] = refl
      named (m ∷ ms) = elim (Bool-cases (mask m)) [
        | inl e ↦ rw e (ap (◌∷◌ (canon_name m)) (named ms))
        | inr e ↦ rw e (named ms)
      ]

  named-modifiers_in :
      (ts : List Text) (ps : List (Modifier × Text))
      → second_of (keep (λ (p : Modifier × Text). mask_after ts no_modifiers p.0) ps)
        ≡ second_of (keep (λ (p : Modifier × Text). any (names p.0) ts) ps)
  named-modifiers_in ts [] = refl
  named-modifiers_in ts ((m, name) ∷ ps) =
      let same = mask_after-names ts no_modifiers m ∙ or_false (any (names m) ts) in
      elim (Bool-cases (any (names m) ts)) [
        | inl e ↦ rw (same, e) (ap (◌∷◌ name) (named-modifiers_in ts ps))
        | inr e ↦ rw (same, e) (named-modifiers_in ts ps)
      ]

  pub tokens-modifiers_in :
      (ts : List Text) → mask_to_tokens (mask_after ts no_modifiers) ≡ modifiers_in ts
  unfolding modifiers_in
  tokens-modifiers_in ts =
      mask_to_tokens-named (mask_after ts no_modifiers) ∙ named-modifiers_in ts fixed_order

  pub regular_answer-form :
      (ts : List Text)
      → regular_answer xkb (some (mask_after ts no_modifiers, keys_in ts)) ≡ regular_form ts
  unfolding regular_answer regular_form
  regular_answer-form ts =
      ap
        (λ toks.
          if is_empty (keys_in ts)
          then failed (codes "hl-key-regularise: a chord needs a key, not only modifiers")
          else answered (toks ++ keys_in ts))
        (tokens-modifiers_in ts)
