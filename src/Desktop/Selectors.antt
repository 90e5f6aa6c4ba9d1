-- ===== src/Desktop/Selectors.antt =====
-- Which windows a selector picks, and the queries for a window, a workspace or a monitor: cpp/Query.cpp,
-- with `hlWindowsFrom` of cpp/Workspace.cpp. A regular expression's full match is the standard
-- library's, a parameter, which is false where it throws.
pub mod Picking
use hyprscheme.Base.{
  ℕ, suc, ◌==◌, Bool, true, false, not, ◌||◌, ◌&&◌, Option, none, some, List, [], ◌∷◌,
  if◌then◌else◌, Text, codes, text_eq, has_prefix, is_empty, decimal, address_text, find,
}
use hyprscheme.Base.Int.{ℤ, pos, negsuc}
use hyprscheme.Scm.{Scm, Family}
use hyprscheme.Desktop.{
  Window, Workspace, Monitor, Desktop, false_value, window_handle, workspace_handle, handle_result,
  alive,
}
use hyprscheme.Desktop.Windows.{list_or_false}

-- `strip`: what follows a prefix that is there.
unfoldable pub strip : Text → Text → Option Text
strip [] s = some s
strip (a ∷ p) [] = none
strip (a ∷ p) (b ∷ s) = let rest = strip p s in if a == b then rest else none

abbrev pub same_pointer : Option ℕ → ℕ → Bool
same_pointer none a = false
same_pointer (some b) a = b == a

unfoldable pub any_match : (Text → Text → Bool) → Text → List Text → Bool
any_match regex arg [] = false
any_match regex arg (t ∷ ts) = regex t arg || any_match regex arg ts

-- The prefixes in their order; a body with none of them is matched by every window.
unfoldable pub matches_body : (Text → Text → Bool) → Text → ℕ → Window → Bool
unfolding strip any_match
matches_body regex m a w = elim (strip (codes "class:") m) [
  | some arg ↦ regex w.app_id arg
  | none ↦ elim (strip (codes "initialclass:") m) [
    | some arg ↦ regex w.initial_app_id arg
    | none ↦ elim (strip (codes "title:") m) [
      | some arg ↦ regex w.title arg
      | none ↦ elim (strip (codes "initialtitle:") m) [
        | some arg ↦ regex w.initial_title arg
        | none ↦ elim (strip (codes "pid:") m) [
          | some arg ↦ text_eq (decimal w.pid) arg
          | none ↦ elim (strip (codes "address:") m) [
            | some arg ↦ text_eq (address_text a) arg
            | none ↦ elim (strip (codes "tag:") m) [
              | some arg ↦ any_match regex arg w.tags
              | none ↦ true
            ]
          ]
        ]
      ]
    ]
  ]
]

-- Whether the window must float, and the body that is left.
unfoldable pub float_part : Text → Option Bool × Text
float_part sel =
    if has_prefix (codes "floating") sel
    then (some true, codes "active")
    else (if has_prefix (codes "tiled") sel then (some false, codes "active") else (none, sel))

abbrev pub same_bool : Bool → Bool → Bool
same_bool true b = b
same_bool false b = not b

abbrev pub float_agrees : Option Bool → Window → Bool
float_agrees none w = true
float_agrees (some f) w = same_bool w.floating f

unfoldable pub window_matches_selector : (Text → Text → Bool) → Text → Desktop → ℕ → Window → Bool
unfolding matches_body float_part
window_matches_selector regex sel d a w =
    if not w.mapped
    then false
    else if is_empty sel || text_eq sel (codes "active")
    then same_pointer d.focused a
    else (let (must_float, body) = float_part sel in
        matches_body regex body a w && float_agrees must_float w)

unfoldable pub matching : (ℕ → Window → Bool) → List (ℕ × Window) → List Scm
matching test [] = []
matching test ((a, w) ∷ m) =
    let rest = matching test m in if not (test a w) then rest else window_handle a ∷ rest

unfoldable pub first_matching : (ℕ → Window → Bool) → List (ℕ × Window) → Scm
first_matching test [] = false_value
first_matching test ((a, w) ∷ m) =
    let rest = first_matching test m in if not (test a w) then rest else window_handle a

abbrev pub or_empty : Option Text → Text
or_empty none = []
or_empty (some t) = t

unfoldable pub window_from : (Text → Text → Bool) → Bool → Option Text → Desktop → Scm
unfolding first_matching window_matches_selector
window_from regex up sel d =
    if not up
    then false_value
    else first_matching (window_matches_selector regex (or_empty sel) d) d.windows

unfoldable pub windows_from : (Text → Text → Bool) → Bool → Option Text → Desktop → Scm
unfolding matching window_matches_selector
windows_from regex up sel d =
    if not up
    then false_value
    else list_or_false (matching (window_matches_selector regex (or_empty sel) d) d.windows)

-- The newest of a history that is mapped and not the focused window.
unfoldable pub last_of : List (Option ℕ) → Desktop → Option ℕ
unfolding alive
last_of [] d = none
last_of (h ∷ hs) d =
    let older = last_of hs d in
    elim h [
      | none ↦ older
      | some a ↦ elim (alive a d.windows) [
        | none ↦ older
        | some (b, w) ↦
            if not w.mapped then older else (if same_pointer d.focused a then older else some a)
      ]
    ]

unfoldable pub reversed : List (Option ℕ) → List (Option ℕ) → List (Option ℕ)
reversed [] acc = acc
reversed (h ∷ hs) acc = reversed hs (h ∷ acc)

unfoldable pub last_window : Bool → Desktop → Scm
unfolding last_of reversed
last_window up d =
    if not up then false_value else handle_result Family.window (last_of (reversed d.history []) d)

-- A query of the compositor, which answers with an object or none.
unfoldable pub queried : Family → Bool → Option ℕ → Scm
queried f up found = if not up then false_value else handle_result f found

abbrev pub of_focused_monitor : (Monitor → Option ℕ) → Desktop → Option ℕ
of_focused_monitor field d = elim d.focused_monitor [
  | none ↦ none
  | some m ↦ elim (find m d.monitors) [ none ↦ none | some x ↦ field x ]
]

unfoldable pub active_workspace : Bool → Desktop → Scm
unfolding queried
active_workspace up d =
    queried Family.workspace up (of_focused_monitor (λ (m : Monitor). m.active_workspace) d)

unfoldable pub active_special_workspace : Bool → Desktop → Scm
unfolding queried
active_special_workspace up d =
    queried Family.workspace up (of_focused_monitor (λ (m : Monitor). m.active_special) d)

unfoldable pub active_monitor : Bool → Desktop → Scm
unfolding queried
active_monitor up d = queried Family.monitor up d.focused_monitor

-- `previous` is the tracker's: the workspace, which may have died, and the one its target finds.
unfoldable pub last_workspace : (ℕ → Option ℕ × Option ℕ) → Bool → Desktop → Scm
last_workspace previous up d =
    if not up
    then false_value
    else elim (of_focused_monitor (λ (m : Monitor). m.active_workspace) d) [
      | none ↦ false_value
      | some ws ↦ elim ((previous ws).0) [
        | some p ↦ workspace_handle p
        | none ↦ handle_result Family.workspace ((previous ws).1)
      ]
    ]

-- `keysym` is xkbcommon's, 0 for a name that it does not know; `is_down` the manager's, if it is there.
unfoldable pub is_key_down : (Text → ℕ) → Option (ℕ → Bool) → Bool → Option Text → ℤ
is_key_down keysym none up key = negsuc 0
is_key_down keysym (some is_down) up key =
    if not up
    then negsuc 0
    else if keysym (or_empty key) == 0
    then negsuc 0
    else if is_down (keysym (or_empty key))
    then pos 1
    else pos 0

-- The plugins' names, consed one by one; a null plugin is passed over.
unfoldable pub plugin_list : List (Option Text) → Scm → Scm
plugin_list [] l = l
plugin_list (none ∷ ps) l = plugin_list ps l
plugin_list (some name ∷ ps) l = plugin_list ps (Scm.pair (Scm.string name) l)

unfoldable pub loaded_plugins : Bool → List (Option Text) → Scm
unfolding plugin_list
loaded_plugins up ps = if not up then false_value else plugin_list ps Scm.nil
