-- ===== src/Desktop/Tests.antt =====
-- The theorems on windows, groups, workspaces and selectors on a small desktop.
use hyprscheme.Base.{
  ℕ, ◌≡◌, refl, Bool, true, false, none, some, List, [], ◌∷◌, Text, codes, find, member, get_elem?,
  IsDistinct,
}
use hyprscheme.Base.Int.{pos}
use hyprscheme.Scm.{Scm, list_of, elements}
use hyprscheme.Desktop.{
  crashed, answers, Monitor, Layer, drm, monitor_handle, Window, Group, Workspace, Desktop, act,
  set_locked, action_result, window_handle, lock_handle, alive, group_handle, workspace_handle,
}
use hyprscheme.Desktop.WindowLayout.{Column, Algorithm, scrolling, window_layout}
use hyprscheme.Desktop.WindowLayout.Columns.{value_of, window_layout-from_the_end}
use hyprscheme.Desktop.Windows.{list_or_false}
use hyprscheme.Desktop.Layers.{layers_of}
use hyprscheme.Desktop.Layers.Filtered.{one_or_all, layers_of-one_or_all}
use hyprscheme.Desktop.Piles.{handles_of}
use hyprscheme.Desktop.WindowActions.{
  switched, window_close, window_focus, window_move_to_workspace,
}
use hyprscheme.Desktop.WindowActions.Stale.{stale_window-passes}
use hyprscheme.Desktop.Groups.{group_members, group_lock_set}
use hyprscheme.Desktop.Groups.Members.{living, redraws, group_members-redrawn}
use hyprscheme.Desktop.Workspaces.{workspace_groups}
use hyprscheme.Desktop.Workspaces.Grouped.{shown, workspace_groups-IsDistinct}

abbrev terminal : Window
terminal = record {
  mapped = true;
  hidden = false;
  floating = false;
  pinned = false;
  accepts_input = true;
  alpha_nonzero = true;
  tearing_hint = false;
  inhibiting_idle = false;
  pin_fullscreened = false;
  over_fullscreen = false;
  x11 = false;
  pseudo = false;
  title = codes "shell";
  app_id = codes "term";
  initial_title = codes "shell";
  initial_app_id = codes "term";
  content_type = codes "none";
  fullscreen_handler = codes "default";
  xdg_tag = none;
  xdg_description = none;
  tags = [];
  pid = pos 4711;
  stable_id = 1;
  size = (pos 800, pos 600);
  position = (pos 0, pos 0);
  internal_mode = pos 0;
  client_mode = pos 0;
  workspace = some 50;
  monitor = some 90;
  group = some 70;
  swallowee = none;
}

abbrev tabs : Group
tabs = record {
  members = some 1 ∷ some 3 ∷ some 2 ∷ none ∷ [];
  current = some 1;
  current_index = 0;
  locked = false;
  denied = false;
}

abbrev first_workspace : Workspace
first_workspace = record {
  display_name = codes "1";
  monitor = some 90;
  special = false;
  window_count = 2;
  group_count = pos 1;
  addressable_name = codes "1";
  selector = codes "1";
  numbered_id = some (pos 1);
  visible = true;
  persistent = false;
  has_urgent = false;
  has_fullscreen = false;
  fullscreen_mode = pos 0;
  fullscreen_window = none;
  last_window = some 1;
  tiled_layout = none;
}

-- Two windows in one group on one workspace; a third one, at 3, has died.
abbrev two_windows : Desktop
two_windows = record {
  windows = (1, terminal) ∷ (2, record terminal { pid = pos 12 }) ∷ [];
  groups = (70, tabs) ∷ [];
  workspaces = (50, first_workspace) ∷ [];
  monitors = [];
  layers = [];
  focused = some 1;
  focused_monitor = none;
  history = [];
  groups_locked = false;
  requests = [];
  error = [];
}

abbrev same_text : Text → Text → Bool
same_text s t = true

stale_window-passes_example :
    let asked = act (codes "window-close") (some none) [] [] in
    let focus = act (codes "window-focus") (some none) [] [] in
    (window_close (λ r. true) true (window_handle 3) two_windows
      ≡ answers (record two_windows { requests = asked ∷ [] }, action_result true))
    × (window_focus (λ r. true) true (window_handle 3) two_windows
        ≡ answers (record two_windows { requests = focus ∷ [] }, action_result true))
    × (window_move_to_workspace
          (λ r. true)
          (λ t. some t)
          (λ t. none)
          (λ t. some 60)
          true
          (window_handle 3)
          (some (codes "9"))
          false
          two_windows
        ≡ crashed)
unfolding find
stale_window-passes_example =
    stale_window-passes (λ r. true) (λ t. some t) (λ t. none) (λ t. some 60) 3 (codes "9")
      (codes "9") false two_windows refl refl refl

group_members-redrawn_example :
    (group_members true (group_handle 70) two_windows
      ≡ answers (list_of (handles_of window_handle (living two_windows tabs.members))))
    × (group_lock_set true (group_handle 70) (pos 1) two_windows
        ≡ answers (
          record two_windows {
            requests =
                redraws
                  (living two_windows tabs.members)
                  (set_locked 70 (switched (pos 1) tabs.locked) ∷ two_windows.requests);
          },
          pos 0,
        ))
unfolding find
group_members-redrawn_example = group_members-redrawn 70 (pos 1) two_windows {x = tabs} refl

workspace_groups-IsDistinct_example :
    (gs : List ℕ) × (workspace_groups true (workspace_handle 50) two_windows
      ≡ answers (list_of (handles_of group_handle gs)))
    × IsDistinct gs
    × ((g : ℕ) → member g gs ≡ shown 50 g two_windows.windows)
unfolding find
workspace_groups-IsDistinct_example =
    workspace_groups-IsDistinct 50 two_windows {x = first_workspace} refl

abbrev panel : Monitor
panel = record {
  active_workspace = some 50;
  active_special = none;
  name = codes "DP-1";
  description = codes "panel";
  serial = codes "77";
  number = pos 0;
  enabled = true;
  position = (pos 0, pos 0);
  size = (pos 1920, pos 1080);
  physical_size = (pos 600, pos 340);
  scale = 1;
  transform = pos 0;
  refresh_rate = 60;
  dpms_status = true;
  vrr_active = false;
  enabled_10bit = false;
  reserved = record { top = pos 0; left = pos 0; right = pos 0; bottom = pos 0 };
  mirrors = [];
  mirror_of = none;
  modes = [];
  backend = drm;
  hdr = false;
  chroma = false;
  bt2020 = false;
  vrr_capable = false;
  layer_levels = [];
}

abbrev two_monitors : Desktop
two_monitors = record two_windows {
  monitors = (91, record panel { name = codes "DP-2" }) ∷ (90, panel) ∷ [];
}

abbrev bar : Layer
bar = record {
  mapped = true;
  namespace = codes "bar";
  pid = pos 9;
  monitor = some 90;
  level = pos 2;
  kb_interactivity = pos 0;
  above_fullscreen = false;
  position = (pos 0, pos 0);
  size = (pos 1920, pos 30);
}

abbrev one_bar : Desktop
one_bar = record two_monitors {
  monitors = (91, panel) ∷ (90, record panel { layer_levels = (some 30 ∷ []) ∷ [] }) ∷ [];
  layers = (30, bar) ∷ [];
}

layers_of-one_or_all_example :
    layers_of true (monitor_handle 90) (Scm.string (codes "bar")) one_bar
    ≡ answers (list_or_false (one_or_all (find 90 one_bar.monitors) (codes "bar") one_bar))
layers_of-one_or_all_example =
    layers_of-one_or_all 90 (Scm.string (codes "bar")) one_bar (refl, (refl, tt))

-- A column of three targets, one of which shows no window.
abbrev column : Column
column = record {
  index = some (pos 0);
  width = 1;
  targets = some (some 1) ∷ some none ∷ some (some 2) ∷ [];
}

abbrev in_columns : Text × (ℕ → Algorithm)
in_columns = (codes "scrolling", λ a. scrolling (some (some (column, pos 0))))

window_layout-from_the_end_example :
    (l : Scm) × (window_layout
        (λ a. some false)
        (λ ws. some (some in_columns))
        true
        (window_handle 1)
        two_windows
      ≡ answers l)
    × (value_of (codes "index-in-column") l ≡ Scm.int (pos 0))
    × (get_elem? (elements (value_of (codes "windows") (value_of (codes "column") l))) 1
        ≡ some (window_handle 1))
unfolding find alive lock_handle
window_layout-from_the_end_example =
    window_layout-from_the_end (λ a. some false) (λ ws. some (some in_columns)) (window_handle 1)
      two_windows 1 terminal 50 (codes "scrolling") (λ a. scrolling (some (some (column, pos 0))))
      column (pos 0) [] (some none ∷ some (some 2) ∷ []) 1 refl refl refl refl refl refl
