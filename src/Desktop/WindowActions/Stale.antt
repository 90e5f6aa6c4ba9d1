-- ===== src/Desktop/WindowActions/Stale.antt =====
-- A handle of cpp/Window.cpp whose window has died.
use hyprscheme.Base.{
  ℕ, ◌≡◌, refl, ap, ◌∙◌, Bool, true, false, Option, none, some, [], ◌∷◌, Text, codes, find,
}
use hyprscheme.Scm.{Scm, is_handle, family_eq}
use hyprscheme.Desktop.{
  crashed, answers, Window, Request, act, Desktop, false_value, window_handle, alive, lock_handle,
  window_of, action_window, action_result, getter,
}
use hyprscheme.Desktop.Windows.{
  window_title, window_class, window_workspace_id, window_monitor_id, window_size, window_tags,
  window_focus_history_id, window_stable_id, window_swallowing_id,
}
use hyprscheme.Desktop.WindowState.{window_address, window_position}
use hyprscheme.Desktop.WindowActions.{
  window_close, window_focus, move_to_named, move_to_target, window_move_to_workspace,
}

dead_window :
    (a : ℕ) (d : Desktop) → find a d.windows ≡ none → window_of (window_handle a) d ≡ answers none
unfolding lock_handle alive is_handle family_eq
dead_window a d e = rw (e, alive) refl

getter-dead :
    (up : Bool) (read : ℕ → Window → Scm)
    → getter up false_value read (answers none) ≡ answers false_value
unfolding getter
getter-dead true read = refl
getter-dead false read = refl

-- A handle whose window has died passes the guards of the actions, which only ask whether there is an
-- optional: closing and focusing hand the compositor a null window, and moving to a workspace that has
-- yet to be created follows the null pointer. The interpreter is up, and the selector is valid but names
-- no workspace that there is.
pub stale_window-passes :
    (accepts : Request → Bool) (target : Text → Option Text) (find_target created : Text → Option ℕ)
    (a : ℕ) (name t : Text) (silent : Bool) (d : Desktop)
    → find a d.windows ≡ none
    → target name ≡ some t
    → find_target t ≡ none
    → (let asked = act (codes "window-close") (some none) [] [] in
        window_close accepts true (window_handle a) d
        ≡ answers (record d { requests = asked ∷ d.requests }, action_result (accepts asked)))
      × (let asked = act (codes "window-focus") (some none) [] [] in
          window_focus accepts true (window_handle a) d
          ≡ answers (record d { requests = asked ∷ d.requests }, action_result (accepts asked)))
      × (window_move_to_workspace accepts target find_target created true
            (window_handle a)
            (some name)
            silent
            d
          ≡ crashed)
unfolding window_close window_focus window_move_to_workspace move_to_named move_to_target
    action_window alive lock_handle is_handle family_eq
stale_window-passes accepts target find_target created a name t silent d e valid missing = (
  rw (e, alive, action_window, window_close) refl,
  rw (e, alive, action_window, window_focus) refl,
  rw (e, alive, action_window, window_move_to_workspace) (moved_from_nothing valid missing),
)
  where
    moved_from_nothing :
        target name ≡ some t
        → find_target t ≡ none
        → move_to_named accepts (target name) find_target created silent none d ≡ crashed
    moved_from_nothing q m = rw (q, m, move_to_named, move_to_target) refl

-- A handle whose window has died reads as #f, whether the interpreter is up or not.
pub stale_window-reads :
    (up : Bool) (a : ℕ) (d : Desktop)
    → find a d.windows ≡ none
    → let v = window_handle a in
      let none_read = answers false_value in
      (window_title up v d ≡ none_read)
      × (window_class up v d ≡ none_read)
      × (window_workspace_id up v d ≡ none_read)
      × (window_monitor_id up v d ≡ none_read)
      × (window_size up v d ≡ none_read)
      × (window_tags up v d ≡ none_read)
      × (window_focus_history_id up v d ≡ none_read)
      × (window_stable_id up v d ≡ none_read)
      × (window_swallowing_id up v d ≡ none_read)
      × (window_address up v d ≡ none_read)
      × (window_position up v d ≡ none_read)
unfolding window_title window_class window_workspace_id window_monitor_id window_size window_tags
    window_focus_history_id window_stable_id window_swallowing_id window_address window_position
stale_window-reads up a d e =
    (same _, same _, same _, same _, same _, same _, same _, same _, same _, same _, same _)
  where
    same :
        (read : ℕ → Window → Scm)
        → getter up false_value read (window_of (window_handle a) d) ≡ answers false_value
    same read = ap (getter up false_value read) (dead_window a d e) ∙ getter-dead up read
