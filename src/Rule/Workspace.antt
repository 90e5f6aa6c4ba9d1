-- ===== src/Rule/Workspace.antt =====
-- The builder of workspace rules: cpp/Rule.cpp.
use hyprscheme.Base.{
  ℕ, Bool, not, Option, none, some, List, [], ◌∷◌, ◌++◌, if◌then◌else◌, Text, codes, text_eq,
  is_empty,
}
use hyprscheme.Base.Int.{ℤ}
use hyprscheme.Rule.Store.{
  Rules, WorkspaceRule, refresh_monitor_and_window_states, done, refused, rejected, hyprland_name,
}
use hyprscheme.Rule.Builder.{quoted}

abbrev pub new_rule : Text → Bool → WorkspaceRule
new_rule ws on = record {
  selector = ws;
  enabled = on;
  monitor = none;
  on_created_empty = none;
  default_name = none;
  layout = none;
  animation = none;
  border_size = none;
  is_default = none;
  persistent = none;
  no_border = none;
  no_rounding = none;
  decorate = none;
  no_shadow = none;
  gaps_in = none;
  gaps_out = none;
  float_gaps = none;
  layoutopts = [];
}

unfoldable pub workspace_rule_begin : Bool → Text → Bool → Rules → Rules × ℤ
workspace_rule_begin up ws on s =
    if not up
    then (s, refused)
    else if is_empty ws
    then (record s { error = codes "hl-workspace-rule-add!: workspace selector required" }, refused)
    else (record s { workspace = some (new_rule ws on) }, done)

-- The field that a setter sets, or `none` for a field that it does not know.
unfoldable pub set_str : Text → Text → WorkspaceRule → Option WorkspaceRule
set_str f v r =
    if text_eq f (codes "monitor")
    then some (record r { monitor = some v })
    else if text_eq f (codes "on_created_empty")
    then some (record r { on_created_empty = some v })
    else if text_eq f (codes "default_name")
    then some (record r { default_name = some v })
    else if text_eq f (codes "layout")
    then some (record r { layout = some v })
    else if text_eq f (codes "animation")
    then some (record r { animation = some v })
    else none

unfoldable pub set_num : Text → ℕ → WorkspaceRule → Option WorkspaceRule
set_num f v r =
    if text_eq f (codes "border_size") then some (record r { border_size = some v }) else none

unfoldable pub set_bool : Text → Bool → WorkspaceRule → Option WorkspaceRule
set_bool f v r =
    if text_eq f (codes "default")
    then some (record r { is_default = some v })
    else if text_eq f (codes "persistent")
    then some (record r { persistent = some v })
    else if text_eq f (codes "no_border")
    then some (record r { no_border = some v })
    else if text_eq f (codes "no_rounding")
    then some (record r { no_rounding = some v })
    else if text_eq f (codes "decorate")
    then some (record r { decorate = some v })
    else if text_eq f (codes "no_shadow")
    then some (record r { no_shadow = some v })
    else none

unfoldable pub set_gap : Text → ℕ → WorkspaceRule → Option WorkspaceRule
set_gap f g r =
    if text_eq f (codes "gaps_in")
    then some (record r { gaps_in = some g })
    else if text_eq f (codes "gaps_out")
    then some (record r { gaps_out = some g })
    else if text_eq f (codes "float_gaps")
    then some (record r { float_gaps = some g })
    else none

-- A setter's step on the current rule.
unfoldable pub set_field : Text → Text → Option WorkspaceRule → Rules → Rules × ℤ
set_field message f none s = (record s { error = quoted message f }, refused)
set_field message f (some r) s = (record s { workspace = some r }, done)

unfoldable pub workspace_rule_str : Bool → Text → Text → Rules → Rules × ℤ
unfolding set_field set_str hyprland_name
workspace_rule_str up field v s = if not up then (s, refused) else elim s.workspace [
  | none ↦ (s, refused)
  | some r ↦
      set_field (codes "unknown workspace-rule field '") (hyprland_name field)
        (set_str (hyprland_name field) v r) s
]

-- The number is the double's cast to an integer.
unfoldable pub workspace_rule_num : Bool → Text → ℕ → Rules → Rules × ℤ
unfolding set_field set_num hyprland_name
workspace_rule_num up field v s = if not up then (s, refused) else elim s.workspace [
  | none ↦ (s, refused)
  | some r ↦
      set_field (codes "unknown workspace-rule numeric field '") (hyprland_name field)
        (set_num (hyprland_name field) v r) s
]

unfoldable pub workspace_rule_bool : Bool → Text → Bool → Rules → Rules × ℤ
unfolding set_field set_bool hyprland_name
workspace_rule_bool up field v s = if not up then (s, refused) else elim s.workspace [
  | none ↦ (s, refused)
  | some r ↦
      set_field (codes "unknown workspace-rule bool field '") (hyprland_name field)
        (set_bool (hyprland_name field) v r) s
]

-- What the compositor's parser made of the gaps on the scratch state: gaps, or an error message.
pub data Parsed : Type 0 where
  gaps : ℕ → Parsed
  invalid : Text → Parsed

unfoldable pub workspace_rule_gap : Bool → Parsed → Text → Rules → Rules × ℤ
unfolding set_field set_gap hyprland_name
workspace_rule_gap up parsed field s = if not up then (s, refused) else elim s.workspace [
  | none ↦ (s, refused)
  | some r ↦ elim parsed [
    | invalid message ↦
        (record s { error = if is_empty message then codes "invalid gaps" else message }, rejected)
    | gaps g ↦
        set_field (codes "unknown workspace-rule gap field '") (hyprland_name field)
          (set_gap (hyprland_name field) g r) s
  ]
]

-- `m[k] = v` on a map.
unfoldable pub put_opt : Text → Text → List (Text × Text) → List (Text × Text)
put_opt k v [] = (k, v) ∷ []
put_opt k v ((j, w) ∷ m) = if text_eq j k then (j, v) ∷ m else (j, w) ∷ put_opt k v m

unfoldable pub workspace_rule_layout_opt : Bool → Text → Text → Rules → Rules × ℤ
unfolding put_opt hyprland_name
workspace_rule_layout_opt up k v s = if not up then (s, refused) else elim s.workspace [
  | none ↦ (s, refused)
  | some r ↦ (
    record s {
      workspace = some (record r { layoutopts = put_opt (hyprland_name k) v r.layoutopts });
    },
    done,
  )
]

unfoldable pub workspace_rule_commit : Bool → Rules → Rules × ℤ
workspace_rule_commit up s = if not up then (s, refused) else elim s.workspace [
  | none ↦ (s, refused)
  | some r ↦ (
    record s {
      workspace_rules = s.workspace_rules ++ r ∷ [];
      workspace = none;
      refreshes = refresh_monitor_and_window_states ∷ s.refreshes;
    },
    done,
  )
]
