-- ===== src/Rule/Tests.antt =====
-- The theorems on rules at concrete rules.
use hyprscheme.Base.{
  ℕ, ◌≡◌, refl, true, Option, none, some, List, [], ◌∷◌, if◌then◌else◌, Text, codes, find, text_eq,
}
use hyprscheme.Rule.Store.{Rule, Rules, done, empty_book, hyprland_name, rule_named}
use hyprscheme.Rule.Builder.{
  layer_rule_begin, begin_rule, known, rule_match, window_rule_commit, with_match,
}
use hyprscheme.Rule.Handles.{rule_match-stale_window}
use hyprscheme.Rule.Sessions.{match_all, resolved, with_matches, match_all-commit}

abbrev float_rule : Rule
float_rule = record { name = codes "float"; enabled = true; matches = []; effects = [] }

-- Rule 3 is open as a window rule, and record 8 has it.
abbrev opened : Rules
opened = record {
  windows = record { named = []; anonymous = []; current = some 3 };
  layers = empty_book;
  workspace = none;
  index = (8, 3) ∷ [];
  store = (3, float_rule) ∷ [];
  next = 4;
  engine = 3 ∷ [];
  workspace_rules = [];
  refreshes = [];
  error = [];
}

abbrev props : Text → Option ℕ
props t = if text_eq t (codes "initial_class") then some 1 else none

layer_current : (layer_rule_begin true (codes "bar") true opened).0.layers.current ≡ some 4
unfolding layer_rule_begin begin_rule known rule_named
layer_current = refl

window_stored : find 3 (layer_rule_begin true (codes "bar") true opened).0.store ≡ some float_rule
unfolding layer_rule_begin begin_rule known rule_named find
window_stored = refl

class_known : props (hyprland_name (codes "initial-class")) ≡ some 1
unfolding hyprland_name text_eq
class_known = refl

rule_match-stale_window_example :
    let after_begin = (layer_rule_begin true (codes "bar") true opened).0 in
    let told = rule_match props true (codes "initial-class") (codes "mpv") after_begin in
    (told.1 ≡ done)
    × (find 3 told.0.store ≡ some (with_match 1 (codes "mpv") float_rule))
    × (find 4 told.0.store ≡ find 4 after_begin.store)
rule_match-stale_window_example =
    rule_match-stale_window props (codes "bar") (codes "initial-class") (codes "mpv") true 3 4 1
      opened {w = float_rule} refl layer_current window_stored refl class_known

abbrev ms : List (Text × Text)
ms = (codes "initial-class", codes "mpv") ∷ (codes "colour", codes "red") ∷ []

match_all-commit_example :
    let built = window_rule_commit true 9 (match_all props ms opened) in
    (built.1 ≡ done)
    × (find 9 built.0.index ≡ some 3)
    × (built.0.windows.current ≡ none)
    × (find 3 built.0.store ≡ some (with_matches (resolved props ms) float_rule))
unfolding find
match_all-commit_example = match_all-commit props 3 9 ms opened {w = float_rule} refl refl refl
