-- ===== src/Rule/Builder.antt =====
-- The builders of window and layer rules, and the handles of committed rules: cpp/Rule.cpp.
use hyprscheme.Base.{
  ℕ, suc, Bool, not, Option, none, some, [], ◌∷◌, ◌++◌, if◌then◌else◌, Text, codes, find, emplace,
  is_empty,
}
use hyprscheme.Base.Int.{ℤ, pos}
use hyprscheme.Rule.Store.{
  Rule, Book, Rules, refresh_window_states, refresh_rules, done, refused, rejected, empty_book,
  hyprland_name, rule_named, modify, unregister,
}

unfoldable pub clear_scheme_rules : Rules → Rules
unfolding unregister
clear_scheme_rules s = record s {
  windows = empty_book;
  layers = empty_book;
  workspace = none;
  index = [];
  engine = unregister s.layers.anonymous (unregister s.windows.anonymous s.engine);
}

-- A rule that the book has under this name; an anonymous rule is always a new one.
unfoldable pub known : Text → Book → Option ℕ
unfolding rule_named
known n b = if is_empty n then none else rule_named n b.named

abbrev pub with_enabled : Bool → Rule → Rule
with_enabled on r = record r { enabled = on }

unfoldable pub begin_rule : Text → Bool → Book → Rules → Book × Rules
unfolding known modify
begin_rule n on b s = elim (known n b) [
  | some a ↦
      (record b { current = some a }, record s { store = modify a (with_enabled on) s.store })
  | none ↦ (
    record {
      named = if is_empty n then b.named else (n, s.next) ∷ b.named;
      anonymous = if is_empty n then b.anonymous ++ s.next ∷ [] else b.anonymous;
      current = some s.next;
    },
    record s {
      store = (s.next, record { name = n; enabled = on; matches = []; effects = [] }) ∷ s.store;
      next = suc s.next;
      engine = s.engine ++ s.next ∷ [];
    },
  )
]

unfoldable pub window_rule_begin : Bool → Text → Bool → Rules → Rules × ℤ
unfolding begin_rule
window_rule_begin up n on s =
    if not up
    then (s, refused)
    else let (b, t) = begin_rule n on s.windows s in (record t { windows = b }, done)

unfoldable pub layer_rule_begin : Bool → Text → Bool → Rules → Rules × ℤ
unfolding begin_rule
layer_rule_begin up n on s =
    if not up
    then (s, refused)
    else let (b, t) = begin_rule n on s.layers s in (record t { layers = b }, done)

abbrev pub with_match : ℕ → Text → Rule → Rule
with_match p v r = record r { matches = r.matches ++ (p, v) ∷ [] }

abbrev pub with_effect : ℕ → Text → Rule → Rule
with_effect e v r = record r { effects = r.effects ++ (e, v) ∷ [] }

abbrev pub quoted : Text → Text → Text
quoted message name = message ++ (name ++ codes "'")

-- `match_prop` is the compositor's table of match properties.
unfoldable pub rule_match : (Text → Option ℕ) → Bool → Text → Text → Rules → Rules × ℤ
unfolding hyprland_name modify
rule_match match_prop up prop value s =
    if not up then (s, refused) else elim (match_prop (hyprland_name prop)) [
      | none ↦ (record s { error = quoted (codes "unknown match property '") prop }, refused)
      | some p ↦ elim s.windows.current [
        | some a ↦ (record s { store = modify a (with_match p value) s.store }, done)
        | none ↦ elim s.layers.current [
          | some a ↦ (record s { store = modify a (with_match p value) s.store }, done)
          | none ↦ (s, refused)
        ]
      ]
    ]

-- An effect of the current rule: `effect_of` is the compositor's registry of effects and `refusal` the
-- error with which a rule refuses an effect's value.
unfoldable pub rule_effect :
    Text
    → (Text → Option ℕ)
    → (ℕ → Text → Option Text)
    → Bool
    → Option ℕ
    → Text
    → Text
    → Rules
    → Rules × ℤ
unfolding hyprland_name modify
rule_effect message effect_of refusal up none effect value s = (s, refused)
rule_effect message effect_of refusal up (some a) effect value s =
    if not up then (s, refused) else elim (effect_of (hyprland_name effect)) [
      | none ↦ (record s { error = quoted message effect }, refused)
      | some e ↦ elim (refusal e value) [
        | none ↦ (record s { store = modify a (with_effect e value) s.store }, done)
        | some why ↦ (record s { error = why }, rejected)
      ]
    ]

unfoldable pub window_rule_effect :
    (Text → Option ℕ) → (ℕ → Text → Option Text) → Bool → Text → Text → Rules → Rules × ℤ
unfolding rule_effect
window_rule_effect effect_of refusal up effect value s =
    rule_effect (codes "unknown effect '") effect_of refusal up s.windows.current effect value s

unfoldable pub layer_rule_effect :
    (Text → Option ℕ) → (ℕ → Text → Option Text) → Bool → Text → Text → Rules → Rules × ℤ
unfolding rule_effect
layer_rule_effect effect_of refusal up effect value s =
    rule_effect (codes "unknown layer effect '") effect_of refusal up s.layers.current effect value
      s

unfoldable pub window_rule_commit : Bool → ℕ → Rules → Rules × ℤ
window_rule_commit up r s = if not up then (s, refused) else elim s.windows.current [
  | none ↦ (s, refused)
  | some a ↦ (
    record s {
      index = emplace r a s.index;
      refreshes = refresh_window_states ∷ s.refreshes;
      windows = record (s.windows) { current = none };
    },
    done,
  )
]

unfoldable pub layer_rule_commit : Bool → ℕ → Rules → Rules × ℤ
layer_rule_commit up r s = if not up then (s, refused) else elim s.layers.current [
  | none ↦ (s, refused)
  | some a ↦ (
    record s {
      index = emplace r a s.index;
      refreshes = refresh_rules ∷ s.refreshes;
      layers = record (s.layers) { current = none };
    },
    done,
  )
]

unfoldable pub rule_set_enabled : Bool → ℕ → Bool → Rules → Rules × ℤ
unfolding modify
rule_set_enabled up r on s = if not up then (s, refused) else elim (find r s.index) [
  | none ↦ (s, refused)
  | some a ↦ (record s { store = modify a (with_enabled on) s.store }, done)
]

-- The entry locks its rule, so the store has it.
unfoldable pub rule_enabled : ℕ → Rules → ℤ
rule_enabled r s = elim (find r s.index) [
  | none ↦ pos 0
  | some a ↦ elim (find a s.store) [
    | none ↦ pos 0
    | some rule ↦ if rule.enabled then pos 1 else pos 0
  ]
]
