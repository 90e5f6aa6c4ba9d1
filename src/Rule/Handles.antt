-- ===== src/Rule/Handles.antt =====
-- Handles of committed rules, and the rule that a match goes to: cpp/Rule.cpp.
use hyprscheme.Base.{
  ℕ, ◌≡◌, refl, Bool, true, false, Option, some, List, if◌then◌else◌, ◌==◌, Text, find, arith,
  Option-cases, inl, inr, find-assign, ==_refl,
}
use hyprscheme.Base.Int.{pos}
use hyprscheme.Rule.Store.{Rule, Rules, done, hyprland_name, modify}
use hyprscheme.Rule.Builder.{
  known, begin_rule, layer_rule_begin, rule_match, rule_set_enabled, rule_enabled, with_enabled,
  with_match,
}

pub find-modify :
    (a b : ℕ) (f : Rule → Rule) (m : List (ℕ × Rule)) {r : Rule}
    → find a m ≡ some r
    → find b (modify a f m) ≡ (if a == b then some (f r) else find b m)
unfolding modify
find-modify a b f m {r} h = rw (h, modify) (ground (arith, find-assign a b (f r) m))

rule_enabled-store :
    (r a : ℕ) (s : Rules) {rule : Rule}
    → find r s.index ≡ some a
    → find a s.store ≡ some rule
    → rule_enabled r s ≡ (if rule.enabled then pos 1 else pos 0)
unfolding rule_enabled
rule_enabled-store r a s hi hs = rw (hi, hs, rule_enabled) refl

-- Enabling or disabling the rule of a record is what is read back, for that record and for every
-- other record of the same rule, and changes no other rule; the record is that of a rule.
pub rule_set_enabled-rule_enabled :
    (r a b : ℕ) (on : Bool) (s : Rules) {rule : Rule}
    → find r s.index ≡ some a
    → find a s.store ≡ some rule
    → let after = (rule_set_enabled true r on s).0 in
      ((rule_set_enabled true r on s).1 ≡ done)
      × (rule_enabled r after ≡ (if on then pos 1 else pos 0))
      × (find a after.store ≡ some (with_enabled on rule))
      × ((a == b) ≡ false → find b after.store ≡ find b s.store)
unfolding rule_set_enabled
rule_set_enabled-rule_enabled r a b on s {rule} hi hs =
    let here : find a (modify a (with_enabled on) s.store) ≡ some (with_enabled on rule) =
      rw (find-modify a a (with_enabled on) s.store {r = rule} hs, ==_refl a) refl in
    let read =
      rule_enabled-store r a (record s { store = modify a (with_enabled on) s.store })
        {rule = with_enabled on rule} hi here in
    rw hi (
      refl,
      read,
      here,
      λ n. ground (arith, find-modify a b (with_enabled on) s.store {r = rule} hs),
    )

windows-layer_rule_begin :
    (n : Text) (on : Bool) (s : Rules) → (layer_rule_begin true n on s).0.windows ≡ s.windows
unfolding layer_rule_begin begin_rule
windows-layer_rule_begin n on s = elim (Option-cases (known n s.layers)) [
  | inl e ↦ rw (e, begin_rule) refl
  | inr (a, e) ↦ rw (e, begin_rule) refl
]

-- A match that is told while a window rule is open goes to that rule, even when a layer rule was opened
-- after it: the layer rule that is being built gets none of it. The two rules are different ones, and
-- the property is known.
pub rule_match-stale_window :
    (match_prop : Text → Option ℕ) (n prop value : Text) (on : Bool) (a l p : ℕ) (s : Rules)
    {w : Rule}
    → s.windows.current ≡ some a
    → (layer_rule_begin true n on s).0.layers.current ≡ some l
    → find a (layer_rule_begin true n on s).0.store ≡ some w
    → (a == l) ≡ false
    → match_prop (hyprland_name prop) ≡ some p
    → let opened = (layer_rule_begin true n on s).0 in
      let told = rule_match match_prop true prop value opened in
      (told.1 ≡ done)
      × (find a told.0.store ≡ some (with_match p value w))
      × (find l told.0.store ≡ find l opened.store)
unfolding rule_match
rule_match-stale_window match_prop n prop value on a l p s {w} hw hl hf ne hp =
    let opened = (layer_rule_begin true n on s).0 in
    let same : opened.windows.current ≡ some a = kept s hw in
    rw (hp, same)
      (
        refl,
        rw (find-modify a a (with_match p value) opened.store {r = w} hf, ==_refl a) refl,
        rw (find-modify a l (with_match p value) opened.store {r = w} hf, ne) refl,
      )
  where
    kept :
        (t : Rules)
        → t.windows.current ≡ some a
        → (layer_rule_begin true n on t).0.windows.current ≡ some a
    kept t h = rw (windows-layer_rule_begin n on t) h
