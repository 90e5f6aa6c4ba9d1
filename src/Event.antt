-- ===== src/Event.antt =====
-- The event family: cpp/Event.cpp, with the submap listener and the subscription's entry points of
-- cpp/Bind.cpp and the layer listener of cpp/Layer.cpp. A handler is named by its record's address.
pub mod Payload
pub mod Subscription
pub mod Start
mod Tests
use hyprscheme.Base.{
  ℕ, zero, suc, Bool, true, false, not, ◌&&◌, Option, none, some, List, [], ◌∷◌, ◌++◌,
  if◌then◌else◌, ◌==◌, get_elem?, find, emplace, erase, is_some,
}
use hyprscheme.Base.Int.{ℤ, pos, negsuc}

-- The signals of the compositor's event bus that have listeners here.
pub data Signal : Type 0 where
  window_open_late window_close window_title window_class window_urgent window_pin window_fullscreen
        window_move_to_workspace window_active window_open_early window_kill window_bell
        window_update_rules window_minimize window_destroy :
      Signal
  exiting monitor_added monitor_removed monitor_focused monitor_layout_changed : Signal
  workspace_created workspace_removed workspace_special_active workspace_move_to_monitor
        workspace_active :
      Signal
  config_reloaded config_pre_reload config_props_refreshed screenshare_state keyboard_key : Signal
  keybinds_submap layer_opened layer_closed : Signal

-- `g_eventConnections`, `g_startSeen`, `g_pendingStart`, how many start dispatches
-- `g_lifecycleListeners` holds, the start handlers handed to the event loop's next pass, and the start
-- handlers that were called, oldest first.
pub record Events : Type 0 where
  pub connections : List (ℕ × Signal)
  pub start_seen : Bool
  pub pending : List ℕ
  pub dispatches : ℕ
  pub later : List ℕ
  pub started : List ℕ

abbrev pub done : ℤ
done = pos 0

abbrev pub refused : ℤ
refused = negsuc 0

-- A `switch` on `which`.
abbrev pub nth_signal : List Signal → ℤ → Option Signal
nth_signal signals (pos n) = get_elem? signals n
nth_signal signals (negsuc n) = none

unfoldable pub connect : ℕ → Option Signal → Events → Events
connect r none s = s
connect r (some g) s = record s { connections = emplace r g s.connections }

-- `g_up` guards each entry point.
unfoldable pub listen : Bool → ℕ → Option Signal → Events → Events × ℤ
unfolding connect
listen up r g s = if not up then (s, refused) else (connect r g s, done)

unfoldable pub window_event_listen : Bool → ℕ → ℤ → Events → Events × ℤ
unfolding listen
window_event_listen up r which = listen up r (
    nth_signal
      (window_open_late ∷ window_close ∷ window_title ∷ window_class ∷ window_urgent ∷ window_pin
        ∷ window_fullscreen ∷ window_move_to_workspace ∷ window_active ∷ window_open_early
        ∷ window_kill ∷ window_bell ∷ window_update_rules ∷ [])
      which)

unfoldable pub window_minimize_listen : Bool → ℕ → Events → Events × ℤ
unfolding listen
window_minimize_listen up r = listen up r (some window_minimize)

abbrev pub is_zero : ℤ → Bool
is_zero (pos n) = n == 0
is_zero (negsuc n) = false

-- A start handler waits for the first frame, or for the next pass of the loop once that is over.
unfoldable pub lifecycle_listen : Bool → Bool → ℕ → ℤ → Events → Events × ℤ
unfolding listen
lifecycle_listen up loop r which s =
    if not up
    then (s, refused)
    else if is_zero which
    then (
      if s.start_seen
          then (if loop then record s { later = s.later ++ r ∷ [] } else s)
          else record s { pending = s.pending ++ r ∷ [] },
      done,
    )
    else listen up r (some exiting) s

unfoldable pub monitor_listen : Bool → ℕ → ℤ → Events → Events × ℤ
unfolding listen
monitor_listen up r which = listen up r (
    nth_signal (monitor_added ∷ monitor_removed ∷ monitor_focused ∷ monitor_layout_changed ∷ [])
      which)

unfoldable pub workspace_listen : Bool → ℕ → ℤ → Events → Events × ℤ
unfolding listen
workspace_listen up r which = listen up r (
    nth_signal
      (workspace_created ∷ workspace_removed ∷ workspace_special_active ∷ workspace_move_to_monitor
        ∷ [])
      which)

unfoldable pub config_reloaded_listen : Bool → ℕ → Events → Events × ℤ
unfolding listen
config_reloaded_listen up r = listen up r (some config_reloaded)

unfoldable pub config_unload_listen : Bool → ℕ → Events → Events × ℤ
unfolding listen
config_unload_listen up r = listen up r (some config_pre_reload)

unfoldable pub window_destroy_listen : Bool → ℕ → Events → Events × ℤ
unfolding listen
window_destroy_listen up r = listen up r (some window_destroy)

unfoldable pub screenshare_listen : Bool → ℕ → Events → Events × ℤ
unfolding listen
screenshare_listen up r = listen up r (some screenshare_state)

unfoldable pub keyboard_key_listen : Bool → ℕ → Events → Events × ℤ
unfolding listen
keyboard_key_listen up r = listen up r (some keyboard_key)

unfoldable pub props_refreshed_listen : Bool → ℕ → Events → Events × ℤ
unfolding listen
props_refreshed_listen up r = listen up r (some config_props_refreshed)

unfoldable pub workspace_active_listen : Bool → ℕ → Events → Events × ℤ
unfolding listen
workspace_active_listen up r = listen up r (some workspace_active)

unfoldable pub submap_listen : Bool → ℕ → Events → Events × ℤ
unfolding listen
submap_listen up r = listen up r (some keybinds_submap)

unfoldable pub layer_listen : Bool → ℕ → ℤ → Events → Events × ℤ
unfolding listen
layer_listen up r which = listen up r (some (if is_zero which then layer_opened else layer_closed))

unfoldable pub event_cancel : Bool → ℕ → Events → Events × ℤ
event_cancel up r s =
    if not up
    then (s, refused)
    else if is_some (find r s.connections)
    then (record s { connections = erase r s.connections }, done)
    else (s, refused)

unfoldable pub event_active : Bool → ℕ → Events → ℤ
event_active up r s =
    if not up then refused else if is_some (find r s.connections) then pos 1 else pos 0

unfoldable pub register_start_dispatch : Events → Events
register_start_dispatch s = record s { dispatches = suc s.dispatches }

-- The dispatch's closure: `fireScheme` calls nothing when the interpreter is down.
unfoldable pub start_dispatch : Bool → Events → Events
start_dispatch up s = record s {
  start_seen = true;
  pending = [];
  started = if up then s.started ++ s.pending else s.started;
}

-- The loop's next pass runs what `doLater` was given.
unfoldable pub next_pass : Bool → Events → Events
next_pass up s = record s { later = []; started = if up then s.started ++ s.later else s.started }

unfoldable pub drop_event_handlers : Events → Events
drop_event_handlers s = record s { connections = [] }

unfoldable pub shutdown_events : Events → Events
shutdown_events s = record s { dispatches = 0; connections = [] }

unfoldable pub forget_pending_start : Events → Events
forget_pending_start s = record s { pending = [] }
