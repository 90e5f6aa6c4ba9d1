-- ===== src/Desktop/WindowRequests.antt =====
-- The actions of cpp/Window.cpp that ask one thing of the compositor. `accepts` says which requests it
-- carries out; a double is its bit pattern.
use hyprscheme.Base.{ℕ, Bool, not, Option, none, some, [], ◌∷◌, Text, codes}
use hyprscheme.Base.Int.{ℤ, pos}
use hyprscheme.Scm.{Scm}
use hyprscheme.Desktop.{Outcome, answers, Request, act, Desktop, action_window, action, flag}

-- A null string is the empty one.
abbrev pub or_empty : Option Text → Text
or_empty none = []
or_empty (some t) = t

unfoldable pub window_move_direction :
    (Request → Bool) → Bool → Scm → ℤ → Desktop → Outcome (Desktop × ℤ)
unfolding action action_window
window_move_direction accepts up v dir d =
    action accepts up (action_window v d) (λ w. act (codes "window-move") w (dir ∷ []) []) d

unfoldable pub window_swap_direction :
    (Request → Bool) → Bool → Scm → ℤ → Desktop → Outcome (Desktop × ℤ)
unfolding action action_window
window_swap_direction accepts up v dir d =
    action accepts up (action_window v d) (λ w. act (codes "window-swap") w (dir ∷ []) []) d

unfoldable pub window_swap_next :
    (Request → Bool) → Bool → Scm → Bool → Desktop → Outcome (Desktop × ℤ)
unfolding action action_window
window_swap_next accepts up v prev d =
    action accepts up (action_window v d)
      (λ w. act (codes "window-swap-next") w (flag (not prev) ∷ []) []) d

unfoldable pub window_center : (Request → Bool) → Bool → Scm → Desktop → Outcome (Desktop × ℤ)
unfolding action action_window
window_center accepts up v d =
    action accepts up (action_window v d) (λ w. act (codes "window-center") w [] []) d

unfoldable pub window_resize_px :
    (Request → Bool) → Bool → Scm → ℕ → ℕ → Bool → Desktop → Outcome (Desktop × ℤ)
unfolding action action_window
window_resize_px accepts up v w_bits h_bits relative d =
    action accepts up (action_window v d)
      (λ w. act (codes "window-resize") w (pos w_bits ∷ pos h_bits ∷ flag relative ∷ []) []) d

unfoldable pub window_move_px :
    (Request → Bool) → Bool → Scm → ℕ → ℕ → Bool → Desktop → Outcome (Desktop × ℤ)
unfolding action action_window
window_move_px accepts up v x_bits y_bits relative d =
    action accepts up (action_window v d)
      (λ w. act (codes "window-move") w (pos x_bits ∷ pos y_bits ∷ flag relative ∷ []) []) d

unfoldable pub window_float_act :
    (Request → Bool) → Bool → Scm → ℤ → Desktop → Outcome (Desktop × ℤ)
unfolding action action_window
window_float_act accepts up v mode d =
    action accepts up (action_window v d) (λ w. act (codes "window-float") w (mode ∷ []) []) d

unfoldable pub window_pin_act : (Request → Bool) → Bool → Scm → ℤ → Desktop → Outcome (Desktop × ℤ)
unfolding action action_window
window_pin_act accepts up v mode d =
    action accepts up (action_window v d) (λ w. act (codes "window-pin") w (mode ∷ []) []) d

unfoldable pub window_pseudo : (Request → Bool) → Bool → Scm → ℤ → Desktop → Outcome (Desktop × ℤ)
unfolding action action_window
window_pseudo accepts up v mode d =
    action accepts up (action_window v d) (λ w. act (codes "window-pseudo") w (mode ∷ []) []) d

unfoldable pub window_kill : (Request → Bool) → Bool → Scm → Desktop → Outcome (Desktop × ℤ)
unfolding action action_window
window_kill accepts up v d =
    action accepts up (action_window v d) (λ w. act (codes "window-kill") w [] []) d

unfoldable pub window_signal : (Request → Bool) → Bool → Scm → ℤ → Desktop → Outcome (Desktop × ℤ)
unfolding action action_window
window_signal accepts up v number d =
    action accepts up (action_window v d) (λ w. act (codes "window-signal") w (number ∷ []) []) d

unfoldable pub window_z_order :
    (Request → Bool) → Bool → Scm → Option Text → Desktop → Outcome (Desktop × ℤ)
unfolding action action_window
window_z_order accepts up v mode d =
    action accepts up (action_window v d)
      (λ w. act (codes "window-zorder") w [] (or_empty mode ∷ [])) d

unfoldable pub window_set_prop :
    (Request → Bool) → Bool → Scm → Option Text → Option Text → Desktop → Outcome (Desktop × ℤ)
unfolding action action_window
window_set_prop accepts up v prop val d =
    action accepts up (action_window v d)
      (λ w. act (codes "window-set-prop") w [] (or_empty prop ∷ or_empty val ∷ [])) d

unfoldable pub window_tag :
    (Request → Bool) → Bool → Scm → Option Text → Desktop → Outcome (Desktop × ℤ)
unfolding action action_window
window_tag accepts up v tag d =
    action accepts up (action_window v d) (λ w. act (codes "window-tag") w [] (or_empty tag ∷ [])) d

unfoldable pub window_clear_tags : (Request → Bool) → Bool → Scm → Desktop → Outcome (Desktop × ℤ)
unfolding action action_window
window_clear_tags accepts up v d =
    action accepts up (action_window v d) (λ w. act (codes "window-clear-tags") w [] []) d

unfoldable pub window_into_group :
    (Request → Bool) → Bool → Scm → ℤ → Desktop → Outcome (Desktop × ℤ)
unfolding action action_window
window_into_group accepts up v dir d =
    action accepts up (action_window v d)
      (λ w. act (codes "window-move-into-group") w (dir ∷ []) []) d

unfoldable pub window_out_of_group :
    (Request → Bool) → Bool → Scm → ℤ → Desktop → Outcome (Desktop × ℤ)
unfolding action action_window
window_out_of_group accepts up v dir d =
    action accepts up (action_window v d)
      (λ w. act (codes "window-move-out-of-group") w (dir ∷ []) []) d

unfoldable pub window_into_or_create_group :
    (Request → Bool) → Bool → Scm → ℤ → Desktop → Outcome (Desktop × ℤ)
unfolding action action_window
window_into_or_create_group accepts up v dir d =
    action accepts up (action_window v d)
      (λ w. act (codes "window-move-into-or-create-group") w (dir ∷ []) []) d

-- These two are not given the window: the compositor acts on the focused one.
unfoldable pub window_deny_from_group :
    (Request → Bool) → Bool → Scm → ℤ → Desktop → Outcome (Desktop × ℤ)
unfolding action
window_deny_from_group accepts up v mode d =
    action accepts up (answers none) (λ w. act (codes "window-deny-from-group") w (mode ∷ []) []) d

unfoldable pub toggle_swallow : (Request → Bool) → Bool → Desktop → Outcome (Desktop × ℤ)
unfolding action
toggle_swallow accepts up d =
    action accepts up (answers none) (λ w. act (codes "toggle-swallow") w [] []) d
