-- ===== src/Desktop/Monitors.antt =====
-- The entry points of cpp/Monitor.cpp.
pub mod Named
use hyprscheme.Base.{
  ℕ, ◌==◌, Bool, true, false, not, ◌||◌, ◌&&◌, Option, none, some, List, [], ◌∷◌, ◌++◌,
  if◌then◌else◌, Text, codes, text_eq, is_empty, decimal,
}
use hyprscheme.Base.Int.{ℤ, pos, negsuc}
use hyprscheme.Scm.{Scm, Family, list_of}
use hyprscheme.Desktop.{
  Outcome, answers, then_with, Monitor, Sides, Mode, Backend, drm, wayland, headless, null,
  other_backend, Request, set_special, Desktop, false_value, bool_result, monitor_handle,
  handle_result, alive, lock_handle, monitor_of, getter,
}
use hyprscheme.Desktop.Windows.{list_or_false}
use hyprscheme.Desktop.WindowState.{same_live}
use hyprscheme.Desktop.Workspaces.{
  or_empty, Resolver, asks, monitor_arg, special_workspace_from_name,
}
use hyprscheme.Desktop.WorkspaceGetters.{same_live_result}

-- `monitorFromName`: the first monitor of that name.
unfoldable pub named : Text → List (ℕ × Monitor) → Option ℕ
named t [] = none
named t ((a, m) ∷ ms) = let rest = named t ms in if text_eq m.name t then some a else rest

unfoldable pub monitor_from_name : Option Text → Desktop → Option ℕ
unfolding named
monitor_from_name none d = none
monitor_from_name (some t) d = if is_empty t then none else named t d.monitors

unfoldable pub focus_monitor :
    (ℕ → Bool) → Resolver → (Request → Bool) → Bool → Scm → Desktop → Outcome (Desktop × ℤ)
unfolding monitor_arg
focus_monitor is_whole r accepts up v d =
    if not up
    then answers (d, negsuc 0)
    else then_with (monitor_arg is_whole r v d) (λ o. elim o [
      | none ↦ answers (d, negsuc 0)
      | some m ↦ answers (asks accepts (codes "focus-monitor") (pos m ∷ []) [] d)
    ])

-- The monitor shows a workspace, or none.
abbrev pub show_special : ℕ → Option ℕ → Desktop → Desktop × ℤ
show_special m ws d = (record d { requests = set_special m ws ∷ d.requests }, pos 0)

-- On a monitor that is there.
unfoldable pub set_special_on : Resolver → ℕ → Text → Desktop → Desktop × ℤ
unfolding special_workspace_from_name
set_special_on r m name d =
    if is_empty name
    then show_special m none d
    else let (after, found) = special_workspace_from_name r name (some m) d in
      elim found [ none ↦ (after, negsuc 0) | some ws ↦ show_special m (some ws) after ]

unfoldable pub monitor_set_special :
    Resolver → Bool → Option Text → Option Text → Desktop → Desktop × ℤ
unfolding set_special_on
monitor_set_special r up selector name d =
    if not up then (d, negsuc 0) else elim (r.monitor_by (or_empty selector)) [
      | none ↦ (d, negsuc 0)
      | some m ↦ set_special_on r m (or_empty name) d
    ]
