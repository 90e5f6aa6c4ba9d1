-- ===== src/Exec/Dispatch.antt =====
-- The rest of cpp/Exec.cpp: actions of the compositor without a window of their own, keys that are sent,
-- the crashed lock screen, and running a command. `accepts` says which requests are carried out; doubles
-- are bit patterns.
pub mod Spawning
use hyprscheme.Base.{
  ℕ, ◌==◌, Bool, true, false, not, ◌||◌, ◌&&◌, Option, none, some, List, [], ◌∷◌, ◌++◌,
  if◌then◌else◌, Text, codes, is_empty,
}
use hyprscheme.Base.Int.{ℤ, pos, negsuc}
use hyprscheme.Scm.{Scm, is_false, datum_to_str}
use hyprscheme.Keys.Chord.{Mask}
use hyprscheme.Exec.{ModsResult, mask_of, bad_mods, mods_mask_from_tokens}
use hyprscheme.Rule.Store.{hyprland_name}
use hyprscheme.Desktop.{
  Outcome, raised, answers, then_with, Window, Request, act, Desktop, action, action_window,
  action_result, pointer_in, false_value,
}
use hyprscheme.Desktop.Workspaces.{Resolver, monitor_arg}

abbrev pub or_empty : Option Text → Text
or_empty none = []
or_empty (some t) = t

-- An action that is given no window.
unfoldable pub plain : (Request → Bool) → Bool → Text → List ℤ → List Text → Desktop → Desktop × ℤ
plain accepts up name numbers texts d =
    let asked = act name none numbers texts in
    if not up
    then (d, negsuc 0)
    else (record d { requests = asked ∷ d.requests }, action_result (accepts asked))

unfoldable pub focus_direction : (Request → Bool) → Bool → ℤ → Desktop → Desktop × ℤ
unfolding plain
focus_direction accepts up dir d = plain accepts up (codes "focus-direction") (dir ∷ []) [] d

unfoldable pub focus_last : (Request → Bool) → Bool → Desktop → Desktop × ℤ
unfolding plain
focus_last accepts up d = plain accepts up (codes "focus-last") [] [] d

unfoldable pub focus_urgent : (Request → Bool) → Bool → Desktop → Desktop × ℤ
unfolding plain
focus_urgent accepts up d = plain accepts up (codes "focus-urgent") [] [] d

unfoldable pub cursor_move : (Request → Bool) → Bool → ℕ → ℕ → Desktop → Desktop × ℤ
unfolding plain
cursor_move accepts up x_bits y_bits d =
    plain accepts up (codes "cursor-move") (pos x_bits ∷ pos y_bits ∷ []) [] d

unfoldable pub exit_session : (Request → Bool) → Bool → Desktop → Desktop × ℤ
unfolding plain
exit_session accepts up d = plain accepts up (codes "exit") [] [] d

unfoldable pub reload_config : (Request → Bool) → Bool → Desktop → Desktop × ℤ
unfolding plain
reload_config accepts up d = plain accepts up (codes "reload-config") [] [] d

unfoldable pub force_renderer_reload : (Request → Bool) → Bool → Desktop → Desktop × ℤ
unfolding plain
force_renderer_reload accepts up d = plain accepts up (codes "force-renderer-reload") [] [] d

unfoldable pub force_idle : (Request → Bool) → Bool → ℕ → Desktop → Desktop × ℤ
unfolding plain
force_idle accepts up bits d = plain accepts up (codes "force-idle") (pos bits ∷ []) [] d

unfoldable pub global_shortcut : (Request → Bool) → Bool → Option Text → Desktop → Desktop × ℤ
unfolding plain
global_shortcut accepts up name d = plain accepts up (codes "global") [] (or_empty name ∷ []) d

unfoldable pub send_event : (Request → Bool) → Bool → Option Text → Desktop → Desktop × ℤ
unfolding plain
send_event accepts up text d = plain accepts up (codes "event") [] (or_empty text ∷ []) d

unfoldable pub mouse_action : (Request → Bool) → Bool → Option Text → Desktop → Desktop × ℤ
unfolding plain
mouse_action accepts up name d = plain accepts up (codes "mouse") [] (or_empty name ∷ []) d

unfoldable pub release_input_capture : (Request → Bool) → Bool → Desktop → Desktop × ℤ
unfolding plain
release_input_capture accepts up d = plain accepts up (codes "release-input-capture") [] [] d

unfoldable pub layout_message : (Request → Bool) → Bool → Option Text → Desktop → Desktop × ℤ
unfolding plain
layout_message accepts up msg d = plain accepts up (codes "layout-msg") [] (or_empty msg ∷ []) d

unfoldable pub cursor_corner : (Request → Bool) → Bool → Scm → ℤ → Desktop → Outcome (Desktop × ℤ)
unfolding action action_window
cursor_corner accepts up v corner d =
    action accepts up (action_window v d)
      (λ w. act (codes "cursor-move-to-corner") w (corner ∷ []) []) d

unfoldable pub pass_keys : (Request → Bool) → Bool → Scm → Desktop → Outcome (Desktop × ℤ)
unfolding action action_window
pass_keys accepts up v d = action accepts up (action_window v d) (λ w. act (codes "pass") w [] []) d

-- #f and the empty string stand for every monitor.
abbrev pub is_every_monitor : Scm → Bool
is_every_monitor (Scm.string t) = is_empty t
is_every_monitor v = is_false v

unfoldable pub dpms :
    (ℕ → Bool) → Resolver → (Request → Bool) → Bool → ℤ → Scm → Desktop → Outcome (Desktop × ℤ)
unfolding plain monitor_arg
dpms is_whole r accepts up mode v d =
    if not up
    then answers (d, negsuc 0)
    else if is_every_monitor v
    then answers (plain accepts true (codes "dpms") (mode ∷ []) [] d)
    else then_with (monitor_arg is_whole r v d) (λ o. elim o [
      | none ↦ answers (d, negsuc 0)
      | some m ↦ answers (plain accepts true (codes "dpms") (mode ∷ pos m ∷ []) [] d)
    ])

-- What the compositor is asked for a key: `mask_bits` is the mask's number, `keycode` the resolver's
-- code of a key's name, if the keymap has it.
abbrev pub key_request : (Mask → ℤ) → Text → List ℤ → Mask → ℕ → Option (Option ℕ) → Request
key_request mask_bits name more mask code w = act name w (mask_bits mask ∷ pos code ∷ more) []

-- The mask is read first, then the key, and an action is asked for only with both.
unfoldable pub send_key :
    (Mask → ℤ)
    → (Text → Option ℕ)
    → (Request → Bool)
    → Text
    → List ℤ
    → Bool
    → Scm
    → Option Text
    → Scm
    → Desktop
    → Outcome (Desktop × ℤ)
unfolding mods_mask_from_tokens action action_window
send_key mask_bits keycode accepts name more up mods key v d =
    if not up then answers (d, negsuc 0) else elim (mods_mask_from_tokens mods) [
      | bad_mods why ↦ answers (record d { error = why }, negsuc 0)
      | mask_of mask ↦ elim (keycode (or_empty key)) [
        | none ↦ answers (d, negsuc 0)
        | some code ↦
            action accepts true (action_window v d) (key_request mask_bits name more mask code) d
      ]
    ]

unfoldable pub send_shortcut :
    (Mask → ℤ)
    → (Text → Option ℕ)
    → (Request → Bool)
    → Bool
    → Scm
    → Option Text
    → Scm
    → Desktop
    → Outcome (Desktop × ℤ)
unfolding send_key
send_shortcut mask_bits keycode accepts up mods key v d =
    send_key mask_bits keycode accepts (codes "send-shortcut") [] up mods key v d

unfoldable pub send_key_state :
    (Mask → ℤ)
    → (Text → Option ℕ)
    → (Request → Bool)
    → Bool
    → Scm
    → Option Text
    → ℤ
    → Scm
    → Desktop
    → Outcome (Desktop × ℤ)
unfolding send_key
send_key_state mask_bits keycode accepts up mods key state v d =
    send_key mask_bits keycode accepts (codes "send-key-state") (state ∷ []) up mods key v d

-- The session lock, if its manager is there: whether the session is locked, and whether a client has
-- locked it or was denied.
pub record Lock : Type 0 where
  pub locked : Bool
  pub client_locked : Bool
  pub client_denied : Bool

-- A lock that no client holds is forced open.
unfoldable pub clear_crashed_lockscreen : Bool → Option Lock → Text → Option Lock × Text × ℤ
clear_crashed_lockscreen up none error =
    if not up
    then (none, error, negsuc 0)
    else (none, codes "hl-clear-crashed-lockscreen!: sessionLockMgr not init'd yet", negsuc 0)
clear_crashed_lockscreen up (some l) error =
    if not up
    then (some l, error, negsuc 0)
    else if not l.locked
    then (some l, codes "hl-clear-crashed-lockscreen!: session is not locked", negsuc 0)
    else if l.client_locked || l.client_denied
    then (
      some l,
      codes "hl-clear-crashed-lockscreen!: session is locked with a client, refusing to unlock",
      negsuc 0,
    )
    else (some (record l { locked = false }), error, pos 0)

-- The pointer's position, if there is a pointer.
unfoldable pub cursor_pos : Bool → Option (ℤ × ℤ) → Scm
cursor_pos up none = false_value
cursor_pos up (some (x, y)) = if not up then false_value else Scm.pair (Scm.int x) (Scm.int y)

-- The compositor's refresher answers whether there was a refresh to run.
unfoldable pub scheduled_prop_refresh_immediately : Bool → Bool → ℤ
scheduled_prop_refresh_immediately up refreshed =
    if not up then negsuc 0 else (if refreshed then pos 1 else pos 0)
