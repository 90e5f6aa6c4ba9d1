-- ===== src/Keys/Search.antt =====
-- The search of the keymap in cpp/Bind.cpp: what it finds, and that it misses nothing.
use hyprscheme.Base.{
  ℕ, zero, suc, ◌+◌, ◌≤◌, ◌<◌, ◌==◌, ◌≡◌, ◌≢◌, refl, false, Option, none, some, [], ◌∷◌, ◌++◌,
  if◌then◌else◌, Text, arith, Bool-cases, Option-cases, inl, inr,
}
use hyprscheme.Keys.Chord.{Mask, Xkb, failed, answered, token_to_keysym, mask_to_tokens}
use hyprscheme.Keys.Convert.{
  Keymap, Place, first_of, produces, find_symbol, convert_logical, is_printable, unplaced_text,
}

module _ {ℓ} {A : Type ℓ} (f : ℕ → Option A) where
  first_of-some :
      (n i : ℕ) {a : A} → first_of n i f ≡ some a → (j : ℕ) × (i ≤ j) × (j < i + n) × (f j ≡ some a)
  unfolding first_of
  first_of-some zero i h = absurd (ground arith)
  first_of-some (suc n) i {a} h = elim (Option-cases (f i)) [
    | inr (b, e) ↦ (i, omega arith, omega arith, ground arith)
    | inl e ↦
        let rest : first_of n (suc i) f ≡ some a = ground arith in
        let (j, low, high, found) = first_of-some n (suc i) {a = a} rest in
        (j, omega arith, omega arith, found)
  ]

  first_of-none : (n i : ℕ) → first_of n i f ≡ none → (j : ℕ) → i ≤ j → j < i + n → f j ≡ none
  unfolding first_of
  first_of-none zero i h j low high = absurd (omega arith)
  first_of-none (suc n) i h j low high = elim (Option-cases (f i)) [
    | inr (b, e) ↦ absurd (ground arith)
    | inl e ↦ elim (Bool-cases (i == j)) [
      | inl same ↦ let q : i ≡ j = ground arith in rw⁻¹ q e
      | inr other ↦ first_of-none n (suc i) (ground arith) j (ground arith) (omega arith)
    ]
  ]

module _ (km : Keymap) (want : ℕ) where
  produces-symbol :
      (kc lay lv : ℕ) {p : Place}
      → produces km want kc lay lv ≡ some p
      → (km.symbol_at p.key p.layout p.level ≡ some want)
        × (p.key ≡ kc)
        × (p.layout ≡ lay)
        × (p.level ≡ lv)
  produces-symbol kc lay lv {p} h = elim (Option-cases (km.symbol_at kc lay lv)) [
    | inl e ↦ absurd (ground arith)
    | inr (sym, e) ↦ elim (Bool-cases (sym == want)) [
      | inl same ↦ ground arith
      | inr other ↦ absurd (ground arith)
    ]
  ]

-- A place of the keymap: a keycode from 8 to 255, a layout of the key and a level of the layout.
abbrev pub IsPlace : Keymap → Place → Type 0
IsPlace km p =
    (8 ≤ p.key)
    × (p.key < 256)
    × (p.layout < km.layouts p.key)
    × (p.level < km.levels p.key p.layout)

-- What a search of the keymap for a symbol answers: a place that has it, or nothing when no place has.
abbrev pub IsSearch : Keymap → ℕ → Option Place → Type 0
IsSearch km want none = (p : Place) → IsPlace km p → km.symbol_at p.key p.layout p.level ≢ some want
IsSearch km want (some p) = IsPlace km p × (km.symbol_at p.key p.layout p.level ≡ some want)

module _ (km : Keymap) (want : ℕ) where
  in_layout : ℕ → ℕ → Option Place
  in_layout kc lay = first_of (km.levels kc lay) 0 (λ lv. produces km want kc lay lv)

  in_key : ℕ → Option Place
  in_key kc = first_of (km.layouts kc) 0 (λ lay. in_layout kc lay)

  found_place :
      (p : Place)
      → find_symbol km want ≡ some p
      → IsPlace km p × (km.symbol_at p.key p.layout p.level ≡ some want)
  unfolding find_symbol in_key in_layout
  found_place p h =
      let (kc, low, high, hk) = first_of-some in_key 248 8 {a = p} h in
      let (lay, l0, l1, hl) = first_of-some (in_layout kc) (km.layouts kc) 0 {a = p} hk in
      let (lv, v0, v1, hv) =
        first_of-some (λ lv. produces km want kc lay lv) (km.levels kc lay) 0 {a = p} hl in
      let (sym, ek, el, ev) = produces-symbol km want kc lay lv {p = p} hv in
      (
        (rw ek low, rw ek (omega arith), rw (ek, el) (omega arith), rw (ek, el, ev) (omega arith)),
        sym,
      )

  missing_place :
      find_symbol km want ≡ none
      → (p : Place) → IsPlace km p
      → km.symbol_at p.key p.layout p.level ≢ some want
  unfolding find_symbol in_key in_layout
  missing_place h p (low, high, hl, hv) sym =
      let nk = first_of-none in_key 248 8 h p.key low (omega arith) in
      let nl =
        first_of-none (in_layout p.key) (km.layouts p.key) 0 nk p.layout (omega arith)
          (omega arith) in
      let nv =
        first_of-none (λ lv. produces km want p.key p.layout lv) (km.levels p.key p.layout) 0 nl
          p.level (omega arith) (omega arith) in
      ground (arith, nv)

  -- The search of the keymap goes over the keycodes 8 to 255, the layouts of each and their levels: it
  -- finds one of these places that has the symbol, and finds none only when none of these places has it.
  pub find_symbol-IsSearch : IsSearch km want (find_symbol km want)
  find_symbol-IsSearch = answer (find_symbol km want) refl
    where
      answer : (o : Option Place) → find_symbol km want ≡ o → IsSearch km want o
      answer none h = missing_place h
      answer (some p) h = found_place p h

-- A key whose symbol no place of the keymap has: a printable character is refused, and any other key is
-- passed through with its modifiers. The key names a symbol.
pub convert_logical-missing :
    (xkb : Xkb) (km : Keymap) (mask : Mask) (key : Text)
    → (token_to_keysym xkb key == 0) ≡ false
    → ((p : Place)
        → IsPlace km p
        → km.symbol_at p.key p.layout p.level ≢ some (token_to_keysym xkb key))
    → convert_logical xkb (some km) mask key ≡ (
        if is_printable (xkb.keysym_utf32 (token_to_keysym xkb key))
        then failed (unplaced_text xkb key)
        else answered (mask_to_tokens mask ++ key ∷ []))
unfolding convert_logical
convert_logical-missing xkb km mask key known nowhere =
    missing (find_symbol km (token_to_keysym xkb key)) refl
      (find_symbol-IsSearch km (token_to_keysym xkb key))
  where
    missing :
        (o : Option Place)
        → find_symbol km (token_to_keysym xkb key) ≡ o
        → IsSearch km (token_to_keysym xkb key) o
        → convert_logical xkb (some km) mask key ≡ (
            if is_printable (xkb.keysym_utf32 (token_to_keysym xkb key))
            then failed (unplaced_text xkb key)
            else answered (mask_to_tokens mask ++ key ∷ []))
    missing (some p) e h = absurd (nowhere p h.0 h.1)
    missing none e h =
        elim (Bool-cases (is_printable (xkb.keysym_utf32 (token_to_keysym xkb key)))) [
          | inl q ↦ rw (known, e, q, convert_logical) refl
          | inr q ↦ rw (known, e, q, convert_logical) refl
        ]
