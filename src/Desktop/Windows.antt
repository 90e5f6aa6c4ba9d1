-- ===== src/Desktop/Windows.antt =====
-- The reads of cpp/Window.cpp.
use hyprscheme.Base.{
  ℕ, ◌==◌, Bool, true, false, not, Option, none, some, List, [], ◌∷◌, if◌then◌else◌, Text, digits,
  length,
}
use hyprscheme.Base.Int.{ℤ, pos, negsuc}
use hyprscheme.Scm.{Scm, Family, list_of}
use hyprscheme.Desktop.{
  Outcome, Window, Group, Desktop, false_value, window_handle, handle_result, alive, window_of,
  window_or_focused, focused_window, getter, flag,
}

unfoldable pub active_title : Bool → Desktop → Scm
unfolding alive
active_title up d =
    if not up
    then false_value
    else elim (focused_window d) [ none ↦ false_value | some (a, w) ↦ Scm.string w.title ]

unfoldable pub active_window : Bool → Desktop → Scm
unfolding alive
active_window up d =
    if not up
    then false_value
    else elim (focused_window d) [ none ↦ false_value | some (a, w) ↦ window_handle a ]

unfoldable pub mapped_handles : List (ℕ × Window) → List Scm
mapped_handles [] = []
mapped_handles ((a, w) ∷ m) =
    let rest = mapped_handles m in if not w.mapped then rest else window_handle a ∷ rest

-- No windows read as #f.
abbrev pub list_or_false : List Scm → Scm
list_or_false [] = false_value
list_or_false (v ∷ vs) = list_of (v ∷ vs)

unfoldable pub window_ids : Bool → Desktop → Scm
unfolding mapped_handles
window_ids up d = if not up then false_value else list_or_false (mapped_handles d.windows)

unfoldable pub window_title : Bool → Scm → Desktop → Outcome Scm
unfolding getter
window_title up v d = getter up false_value (λ a w. Scm.string w.title) (window_of v d)

unfoldable pub window_alive : Bool → Scm → Desktop → Outcome ℤ
unfolding getter
window_alive up v d = getter up (pos 0) (λ a w. pos 1) (window_of v d)

unfoldable pub window_class : Bool → Scm → Desktop → Outcome Scm
unfolding getter
window_class up v d = getter up false_value (λ a w. Scm.string w.app_id) (window_of v d)

unfoldable pub window_workspace_id : Bool → Scm → Desktop → Outcome Scm
unfolding getter
window_workspace_id up v d =
    getter up false_value (λ a w. handle_result Family.workspace w.workspace) (window_of v d)

unfoldable pub window_monitor_id : Bool → Scm → Desktop → Outcome Scm
unfolding getter
window_monitor_id up v d =
    getter up false_value (λ a w. handle_result Family.monitor w.monitor) (window_of v d)

unfoldable pub window_floating : Bool → Scm → Desktop → Outcome ℤ
unfolding getter
window_floating up v d = getter up (pos 0) (λ a w. flag w.floating) (window_of v d)

abbrev pub pair_of : ℤ × ℤ → Scm
pair_of (x, y) = Scm.pair (Scm.int x) (Scm.int y)

unfoldable pub window_size : Bool → Scm → Desktop → Outcome Scm
unfolding getter
window_size up v d = getter up false_value (λ a w. pair_of w.size) (window_of v d)

unfoldable pub window_pid : Bool → Scm → Desktop → Outcome ℤ
unfolding getter
window_pid up v d = getter up (negsuc 0) (λ a w. w.pid) (window_of v d)

-- `hlWindowFocusHistoryId`: the place from the newest end, of the oldest entry for the window.
unfoldable pub history_id : ℕ → List (Option ℕ) → ℤ
history_id a [] = negsuc 0
history_id a (h ∷ hs) =
    let rest = history_id a hs in
    elim h [ none ↦ rest | some b ↦ if b == a then pos (length hs) else rest ]

unfoldable pub window_focus_history_id : Bool → Scm → Desktop → Outcome Scm
unfolding getter history_id
window_focus_history_id up v d =
    getter up false_value (λ a w. Scm.int (history_id a d.history)) (window_of v d)

unfoldable pub window_content_type : Bool → Scm → Desktop → Outcome Scm
unfolding getter
window_content_type up v d =
    getter up false_value (λ a w. Scm.string w.content_type) (window_of v d)

unfoldable pub window_stable_id : Bool → Scm → Desktop → Outcome Scm
unfolding getter digits
window_stable_id up v d =
    getter up false_value (λ a w. Scm.string (digits 16 w.stable_id)) (window_of v d)

-- Consed one by one, so the last tag comes first.
unfoldable pub tag_list : List Text → Scm → Scm
tag_list [] l = l
tag_list (t ∷ ts) l = tag_list ts (Scm.pair (Scm.string t) l)

unfoldable pub window_tags : Bool → Scm → Desktop → Outcome Scm
unfolding getter tag_list
window_tags up v d = getter up false_value (λ a w. tag_list w.tags Scm.nil) (window_of v d)

unfoldable pub window_swallowing_id : Bool → Scm → Desktop → Outcome Scm
unfolding getter
window_swallowing_id up v d =
    getter up false_value (λ a w. handle_result Family.window w.swallowee) (window_of v d)

abbrev pub text_result : Option Text → Scm
text_result none = false_value
text_result (some t) = Scm.string t

unfoldable pub window_xdg_tag : Bool → Scm → Desktop → Outcome Scm
unfolding getter
window_xdg_tag up v d = getter up false_value (λ a w. text_result w.xdg_tag) (window_of v d)

unfoldable pub window_xdg_description : Bool → Scm → Desktop → Outcome Scm
unfolding getter
window_xdg_description up v d =
    getter up false_value (λ a w. text_result w.xdg_description) (window_of v d)

unfoldable pub window_fullscreen_mode : Bool → Scm → Desktop → Outcome ℤ
unfolding getter window_or_focused
window_fullscreen_mode up v d =
    getter up (negsuc 0) (λ a w. w.internal_mode) (window_or_focused v d)

unfoldable pub window_fullscreen_client : Bool → Scm → Desktop → Outcome ℤ
unfolding getter window_or_focused
window_fullscreen_client up v d =
    getter up (negsuc 0) (λ a w. w.client_mode) (window_or_focused v d)

unfoldable pub window_hidden : Bool → Scm → Desktop → Outcome ℤ
unfolding getter
window_hidden up v d = getter up (pos 0) (λ a w. flag w.hidden) (window_of v d)

unfoldable pub window_pinned : Bool → Scm → Desktop → Outcome ℤ
unfolding getter
window_pinned up v d = getter up (pos 0) (λ a w. flag w.pinned) (window_of v d)

unfoldable pub window_pseudo_query : Bool → Scm → Desktop → Outcome ℤ
unfolding getter window_or_focused
window_pseudo_query up v d = getter up (pos 0) (λ a w. flag w.pseudo) (window_or_focused v d)

abbrev pub is_maximized : ℤ → Bool
is_maximized (pos n) = n == 1
is_maximized (negsuc n) = false

unfoldable pub window_maximized_query : Bool → Scm → Desktop → Outcome ℤ
unfolding getter window_or_focused
window_maximized_query up v d =
    getter up (pos 0) (λ a w. flag (is_maximized w.internal_mode)) (window_or_focused v d)

-- The group of a window, if it is in one.
abbrev pub group_of_window : Window → Desktop → Option (ℕ × Group)
group_of_window w d = elim w.group [ none ↦ none | some g ↦ alive g d.groups ]

abbrev pub of_group : (Group → Bool) → Option (ℕ × Group) → ℤ
of_group test none = pos 0
of_group test (some (g, x)) = flag (test x)

unfoldable pub window_in_group : Bool → Scm → Desktop → Outcome ℤ
unfolding getter window_or_focused alive
window_in_group up v d =
    getter up (pos 0) (λ a w. of_group (λ g. true) (group_of_window w d)) (window_or_focused v d)

abbrev pub group_result : Option (ℕ × Group) → Scm
group_result none = false_value
group_result (some (g, x)) = Scm.handle Family.group g

unfoldable pub window_group : Bool → Scm → Desktop → Outcome Scm
unfolding getter window_or_focused alive
window_group up v d =
    getter up false_value (λ a w. group_result (group_of_window w d)) (window_or_focused v d)

unfoldable pub window_group_denied : Bool → Scm → Desktop → Outcome ℤ
unfolding getter window_or_focused alive
window_group_denied up v d =
    getter up (pos 0) (λ a w. of_group (λ (g : Group). g.denied) (group_of_window w d))
      (window_or_focused v d)

unfoldable pub window_group_locked : Bool → Scm → Desktop → Outcome ℤ
unfolding getter window_or_focused alive
window_group_locked up v d =
    getter up (pos 0) (λ a w. of_group (λ (g : Group). g.locked) (group_of_window w d))
      (window_or_focused v d)
