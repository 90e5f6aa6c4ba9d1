-- ===== src/Rule/Store.antt =====
-- What cpp/Rule.cpp keeps: the rules, the books of window and layer rules, the rule that each builder
-- has open, and the records of committed rules. A rule is shared, so it stands in a store by its
-- address; what it is told to match and to do is kept in the order in which it is told.
use hyprscheme.Base.{
  ℕ, ◌==◌, Bool, not, Option, none, some, List, [], ◌∷◌, if◌then◌else◌, Text, text_eq, find, assign,
  keep,
}
use hyprscheme.Base.Int.{ℤ, pos, negsuc}

pub record Rule : Type 0 where
  pub name : Text
  pub enabled : Bool
  pub matches : List (ℕ × Text)
  pub effects : List (ℕ × Text)

-- `g_windowRules` or `g_layerRules`, the anonymous ones, and the current one.
pub record Book : Type 0 where
  pub named : List (Text × ℕ)
  pub anonymous : List ℕ
  pub current : Option ℕ

-- A workspace rule: what is not set is `none`. A number and gaps are opaque.
pub record WorkspaceRule : Type 0 where
  pub selector : Text
  pub enabled : Bool
  pub monitor : Option Text
  pub on_created_empty : Option Text
  pub default_name : Option Text
  pub layout : Option Text
  pub animation : Option Text
  pub border_size : Option ℕ
  pub is_default : Option Bool
  pub persistent : Option Bool
  pub no_border : Option Bool
  pub no_rounding : Option Bool
  pub decorate : Option Bool
  pub no_shadow : Option Bool
  pub gaps_in : Option ℕ
  pub gaps_out : Option ℕ
  pub float_gaps : Option ℕ
  pub layoutopts : List (Text × Text)

pub data Refresh : Type 0 where
  refresh_window_states refresh_rules refresh_monitor_and_window_states : Refresh

-- `engine` is what the compositor's rule engine holds and `workspace_rules` what its workspace rules
-- were given; `error` is `g_configError`.
pub record Rules : Type 0 where
  pub windows : Book
  pub layers : Book
  pub workspace : Option WorkspaceRule
  pub index : List (ℕ × ℕ)
  pub store : List (ℕ × Rule)
  pub next : ℕ
  pub engine : List ℕ
  pub workspace_rules : List WorkspaceRule
  pub refreshes : List Refresh
  pub error : Text

abbrev pub done : ℤ
done = pos 0

abbrev pub refused : ℤ
refused = negsuc 0

abbrev pub rejected : ℤ
rejected = negsuc 1

abbrev pub empty_book : Book
empty_book = record { named = []; anonymous = []; current = none }

-- `hyprlandName`: Scheme's '-' is the compositor's '_'.
unfoldable pub hyprland_name : Text → Text
hyprland_name [] = []
hyprland_name (c ∷ s) = (if c == b'-' then b'_' else c) ∷ hyprland_name s

unfoldable pub rule_named : Text → List (Text × ℕ) → Option ℕ
rule_named n [] = none
rule_named n ((m, a) ∷ rs) = if text_eq m n then some a else rule_named n rs

-- Changes the rule at an address.
unfoldable pub modify : ℕ → (Rule → Rule) → List (ℕ × Rule) → List (ℕ × Rule)
modify a f m = elim (find a m) [ none ↦ m | some r ↦ assign a (f r) m ]

unfoldable pub unregister : List ℕ → List ℕ → List ℕ
unregister [] engine = engine
unregister (a ∷ rs) engine = unregister rs (keep (λ b. not (b == a)) engine)
