-- ===== src/Desktop/WindowActions.antt =====
-- The actions of cpp/Window.cpp. `accepts` says which requests the compositor carries out; a direction, a
-- mode and a switch (0 toggles, 1 is on, 2 is off) are the compositor's own numbers, a double is its bit
-- pattern.
pub mod Stale
use hyprscheme.Base.{
  ℕ, ◌==◌, Bool, true, false, not, ◌||◌, ◌&&◌, Option, none, some, List, [], ◌∷◌, if◌then◌else◌,
  Text, codes,
}
use hyprscheme.Base.Int.{ℤ, pos, negsuc}
use hyprscheme.Scm.{Scm, is_false}
use hyprscheme.Desktop.{
  Outcome, raised, crashed, answers, then_with, Window, Group, Request, act, move_to,
  create_workspace, set_fullscreen, set_locked, redraw, Desktop, alive, window_of,
  window_or_focused, action_window, pointer, pointer_in, action, action_result, flag,
}
use hyprscheme.Desktop.Windows.{group_of_window}

-- `std::optional` tells whether it holds a pointer, which may be null.
abbrev pub is_engaged : Option (Option (ℕ × Window)) → Bool
is_engaged none = false
is_engaged (some w) = true

unfoldable pub window_close : (Request → Bool) → Bool → Scm → Desktop → Outcome (Desktop × ℤ)
unfolding action_window
window_close accepts up v d =
    if not up
    then answers (d, negsuc 0)
    else then_with (action_window v d) (λ w.
      if not (is_engaged w)
      then answers (d, negsuc 0)
      else let asked = act (codes "window-close") (pointer_in w) [] [] in
        answers (record d { requests = asked ∷ d.requests }, action_result (accepts asked)))

unfoldable pub window_focus : (Request → Bool) → Bool → Scm → Desktop → Outcome (Desktop × ℤ)
unfolding action_window
window_focus accepts up v d =
    if not up
    then answers (d, negsuc 0)
    else then_with (action_window v d) (λ w. elim w [
      | none ↦ answers (d, negsuc 0)
      | some p ↦
          let asked = act (codes "window-focus") (some (pointer p)) [] [] in
          answers (record d { requests = asked ∷ d.requests }, action_result (accepts asked))
    ])

-- The monitor that a missing workspace is created on: `w->m_workspace` follows the window's pointer.
abbrev pub monitor_for : Option (ℕ × Window) → Desktop → Outcome (Option ℕ)
monitor_for none d = crashed
monitor_for (some (a, w)) d = elim w.workspace [
  | none ↦ answers d.focused_monitor
  | some ws ↦ elim (alive ws d.workspaces) [ none ↦ answers none | some (b, x) ↦ answers x.monitor ]
]

-- The move itself.
abbrev pub moved :
    (Request → Bool) → ℕ → Bool → Option (ℕ × Window) → Desktop → Outcome (Desktop × ℤ)
moved accepts ws silent p d =
    let asked = move_to ws silent (pointer p) in
    answers (record d { requests = asked ∷ d.requests }, action_result (accepts asked))

-- To the workspace that the compositor finds for a valid target, or makes, if it can.
unfoldable pub move_to_target :
    (Request → Bool)
    → Option ℕ
    → Option ℕ
    → Text
    → Bool
    → Option (ℕ × Window)
    → Desktop
    → Outcome (Desktop × ℤ)
unfolding alive
move_to_target accepts (some ws) created t silent p d = moved accepts ws silent p d
move_to_target accepts none created t silent p d = then_with (monitor_for p d) (λ m.
    let made = record d { requests = create_workspace t m ∷ d.requests } in
    elim created [ none ↦ answers (made, negsuc 1) | some ws ↦ moved accepts ws silent p made ])

-- A selector's target, if it is valid.
unfoldable pub move_to_named :
    (Request → Bool)
    → Option Text
    → (Text → Option ℕ)
    → (Text → Option ℕ)
    → Bool
    → Option (ℕ × Window)
    → Desktop
    → Outcome (Desktop × ℤ)
unfolding move_to_target
move_to_named accepts none find_target created silent p d = answers (d, negsuc 1)
move_to_named accepts (some t) find_target created silent p d =
    move_to_target accepts (find_target t) (created t) t silent p d

-- `target` is the selector's target, if it is valid, and `find_target` and `created` the workspace that
-- the compositor finds for it or makes.
unfoldable pub window_move_to_workspace :
    (Request → Bool)
    → (Text → Option Text)
    → (Text → Option ℕ)
    → (Text → Option ℕ)
    → Bool
    → Scm
    → Option Text
    → Bool
    → Desktop
    → Outcome (Desktop × ℤ)
unfolding action_window move_to_named
window_move_to_workspace accepts target find_target created up v none silent d =
    answers (d, negsuc 0)
window_move_to_workspace accepts target find_target created up v (some name) silent d =
    if not up
    then answers (d, negsuc 0)
    else then_with (action_window v d) (λ w. elim w [
      | none ↦ answers (d, negsuc 0)
      | some p ↦ move_to_named accepts (target name) find_target created silent p d
    ])

unfoldable pub window_fullscreen_set : Bool → Scm → ℤ → Bool → Desktop → Outcome (Desktop × ℤ)
unfolding action_window
window_fullscreen_set up v mode aware d =
    if not up
    then answers (d, negsuc 0)
    else then_with (action_window v d) (λ w. elim w [
      | none ↦ answers (d, negsuc 0)
      | some p ↦
          answers
            (record d { requests = set_fullscreen (pointer p) mode aware ∷ d.requests }, pos 0)
    ])

-- A switch on a lock: 0 flips it, 1 sets it, anything else clears it.
abbrev pub switched : ℤ → Bool → Bool
switched (pos n) locked = if n == 0 then not locked else (n == 1)
switched (negsuc n) locked = false

unfoldable pub window_group_lock : Bool → Scm → ℤ → Desktop → Outcome (Desktop × ℤ)
unfolding window_or_focused alive
window_group_lock up v mode d =
    if not up
    then answers (d, negsuc 0)
    else then_with (window_or_focused v d) (λ o. elim o [
      | none ↦ answers (d, negsuc 0)
      | some (a, w) ↦ elim (group_of_window w d) [
        | none ↦ answers (d, negsuc 0)
        | some (g, x) ↦ answers (
          record d { requests = redraw a ∷ set_locked g (switched mode x.locked) ∷ d.requests },
          pos 0,
        )
      ]
    ])

unfoldable pub window_fullscreen_state :
    (Request → Bool) → Bool → Scm → ℤ → ℤ → Bool → Desktop → Outcome (Desktop × ℤ)
unfolding action_window
window_fullscreen_state accepts up v internal client aware d =
    if not up
    then answers (d, negsuc 0)
    else then_with (action_window v d) (λ w.
      if not (is_false v) && not (is_engaged w)
      then answers (d, negsuc 0)
      else let asked =
          act (codes "window-fullscreen-state") (pointer_in w) (internal ∷ client ∷ flag aware ∷ [])
            [] in
        answers (record d { requests = asked ∷ d.requests }, action_result (accepts asked)))

-- The other window's handle is locked first.
unfoldable pub window_swap_with :
    (Request → Bool) → Bool → Scm → Scm → Desktop → Outcome (Desktop × ℤ)
unfolding action_window alive
window_swap_with accepts up v other d =
    if not up
    then answers (d, negsuc 0)
    else then_with (window_of other d) (λ o. elim o [
      | none ↦ answers (d, negsuc 0)
      | some (b, x) ↦ then_with (action_window v d) (λ w.
          let asked = act (codes "window-swap-with") (pointer_in w) (pos b ∷ []) [] in
          answers (record d { requests = asked ∷ d.requests }, action_result (accepts asked)))
    ])

-- The filter: 1 is tiled windows, 2 is floating ones, anything else all.
abbrev pub filter_numbers : ℤ → List ℤ
filter_numbers (pos n) =
    if n == 1
    then pos 1 ∷ pos 0 ∷ []
    else (if n == 2 then pos 0 ∷ pos 1 ∷ [] else pos 0 ∷ pos 0 ∷ [])
filter_numbers (negsuc n) = pos 0 ∷ pos 0 ∷ []

unfoldable pub window_cycle :
    (Request → Bool) → Bool → Scm → Bool → ℤ → Desktop → Outcome (Desktop × ℤ)
unfolding action action_window
window_cycle accepts up v next mode d =
    action accepts up (action_window v d)
      (λ w. act (codes "window-cycle") w (flag next ∷ filter_numbers mode) []) d
