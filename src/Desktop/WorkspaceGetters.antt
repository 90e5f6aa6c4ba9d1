-- ===== src/Desktop/WorkspaceGetters.antt =====
-- The getters of cpp/Workspace.cpp.
use hyprscheme.Base.{
  ℕ, ◌==◌, Bool, true, false, not, ◌||◌, Option, none, some, if◌then◌else◌, Text, codes, find,
}
use hyprscheme.Base.Int.{ℤ, pos, negsuc}
use hyprscheme.Scm.{Scm, Family}
use hyprscheme.Desktop.{
  Outcome, answers, then_with, Workspace, Monitor, Desktop, false_value, bool_result, handle_result,
  workspace_of, getter,
}
use hyprscheme.Desktop.WindowState.{same_live}
use hyprscheme.Desktop.Selectors.{same_pointer}

unfoldable pub workspace_alive : Bool → Scm → Desktop → Outcome Scm
unfolding getter
workspace_alive up v d =
    getter up false_value (λ a (w : Workspace). bool_result true) (workspace_of v d)

abbrev pub same_live_result : ℤ → Scm
same_live_result (pos n) = bool_result (n == 1)
same_live_result (negsuc n) = false_value

unfoldable pub workspace_same : Bool → Scm → Scm → Desktop → Outcome Scm
workspace_same up v u d =
    if not up
    then answers false_value
    else then_with (workspace_of v d)
        (λ a. then_with (workspace_of u d) (λ b. answers (same_live_result (same_live a b))))

unfoldable pub workspace_name : Bool → Scm → Desktop → Outcome Scm
unfolding getter
workspace_name up v d =
    getter up false_value (λ a (w : Workspace). Scm.string w.display_name) (workspace_of v d)

unfoldable pub workspace_monitor : Bool → Scm → Desktop → Outcome Scm
unfolding getter
workspace_monitor up v d =
    getter up false_value (λ a (w : Workspace). handle_result Family.monitor w.monitor)
      (workspace_of v d)

unfoldable pub workspace_special : Bool → Scm → Desktop → Outcome Scm
unfolding getter
workspace_special up v d =
    getter up false_value (λ a (w : Workspace). bool_result w.special) (workspace_of v d)

abbrev pub shows : ℕ → Option Monitor → Bool
shows a none = false
shows a (some m) = same_pointer m.active_workspace a || same_pointer m.active_special a

unfoldable pub workspace_active : Bool → Scm → Desktop → Outcome Scm
unfolding getter
workspace_active up v d =
    getter up false_value
      (λ a (w : Workspace).
        bool_result (elim w.monitor [ none ↦ false | some m ↦ shows a (find m d.monitors) ]))
      (workspace_of v d)

unfoldable pub workspace_empty : Bool → Scm → Desktop → Outcome Scm
unfolding getter
workspace_empty up v d =
    getter up false_value (λ a (w : Workspace). bool_result (w.window_count == 0))
      (workspace_of v d)

unfoldable pub workspace_window_count : Bool → Scm → Desktop → Outcome Scm
unfolding getter
workspace_window_count up v d =
    getter up false_value (λ a (w : Workspace). Scm.int (pos w.window_count)) (workspace_of v d)

abbrev pub int_or_false : Option ℤ → Scm
int_or_false none = false_value
int_or_false (some n) = Scm.int n

abbrev pub layout_or_unknown : Option Text → Text
layout_or_unknown none = codes "unknown"
layout_or_unknown (some t) = t

unfoldable pub workspace_addressable_name : Bool → Scm → Desktop → Outcome Scm
unfolding getter
workspace_addressable_name up v d =
    getter up false_value (λ a (w : Workspace). Scm.string w.addressable_name) (workspace_of v d)

unfoldable pub workspace_number : Bool → Scm → Desktop → Outcome Scm
unfolding getter
workspace_number up v d =
    getter up false_value (λ a (w : Workspace). int_or_false w.numbered_id) (workspace_of v d)

unfoldable pub workspace_visible : Bool → Scm → Desktop → Outcome Scm
unfolding getter
workspace_visible up v d =
    getter up false_value (λ a (w : Workspace). bool_result w.visible) (workspace_of v d)

unfoldable pub workspace_persistent : Bool → Scm → Desktop → Outcome Scm
unfolding getter
workspace_persistent up v d =
    getter up false_value (λ a (w : Workspace). bool_result w.persistent) (workspace_of v d)

unfoldable pub workspace_has_urgent : Bool → Scm → Desktop → Outcome Scm
unfolding getter
workspace_has_urgent up v d =
    getter up false_value (λ a (w : Workspace). bool_result w.has_urgent) (workspace_of v d)

unfoldable pub workspace_has_fullscreen : Bool → Scm → Desktop → Outcome Scm
unfolding getter
workspace_has_fullscreen up v d =
    getter up false_value (λ a (w : Workspace). bool_result w.has_fullscreen) (workspace_of v d)

unfoldable pub workspace_fullscreen_mode : Bool → Scm → Desktop → Outcome Scm
unfolding getter
workspace_fullscreen_mode up v d =
    getter up false_value (λ a (w : Workspace). Scm.int w.fullscreen_mode) (workspace_of v d)

unfoldable pub workspace_fullscreen_window : Bool → Scm → Desktop → Outcome Scm
unfolding getter
workspace_fullscreen_window up v d =
    getter up false_value (λ a (w : Workspace). handle_result Family.window w.fullscreen_window)
      (workspace_of v d)

unfoldable pub workspace_last_window : Bool → Scm → Desktop → Outcome Scm
unfolding getter
workspace_last_window up v d =
    getter up false_value (λ a (w : Workspace). handle_result Family.window w.last_window)
      (workspace_of v d)

unfoldable pub workspace_group_count : Bool → Scm → Desktop → Outcome Scm
unfolding getter
workspace_group_count up v d =
    getter up false_value (λ a (w : Workspace). Scm.int w.group_count) (workspace_of v d)

unfoldable pub workspace_tiled_layout : Bool → Scm → Desktop → Outcome Scm
unfolding getter
workspace_tiled_layout up v d =
    getter up false_value (λ a (w : Workspace). Scm.string (layout_or_unknown w.tiled_layout))
      (workspace_of v d)

unfoldable pub workspace_selector : Bool → Scm → Desktop → Outcome Scm
unfolding getter
workspace_selector up v d =
    getter up false_value (λ a (w : Workspace). Scm.string w.selector) (workspace_of v d)
