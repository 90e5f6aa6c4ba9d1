-- ===== src/Desktop/WindowState.antt =====
-- The reads of cpp/Window.cpp on how a window is placed and shown, and whether two handles are the same.
use hyprscheme.Base.{ℕ, ◌==◌, Bool, not, ◌&&◌, Option, none, some, if◌then◌else◌, address_text}
use hyprscheme.Base.Int.{ℤ, pos}
use hyprscheme.Scm.{Scm}
use hyprscheme.Desktop.{
  Outcome, answers, then_with, Desktop, false_value, window_of, window_or_focused, getter, flag,
}
use hyprscheme.Desktop.Windows.{pair_of}

unfoldable pub window_address : Bool → Scm → Desktop → Outcome Scm
unfolding getter address_text
window_address up v d = getter up false_value (λ a w. Scm.string (address_text a)) (window_of v d)

unfoldable pub window_mapped : Bool → Scm → Desktop → Outcome ℤ
unfolding getter
window_mapped up v d = getter up (pos 0) (λ a w. flag w.mapped) (window_of v d)

unfoldable pub window_visible : Bool → Scm → Desktop → Outcome ℤ
unfolding getter
window_visible up v d =
    getter up (pos 0) (λ a w. flag (w.mapped && (w.accepts_input && w.alpha_nonzero)))
      (window_of v d)

unfoldable pub window_accepts_input : Bool → Scm → Desktop → Outcome ℤ
unfolding getter
window_accepts_input up v d = getter up (pos 0) (λ a w. flag w.accepts_input) (window_of v d)

unfoldable pub window_position : Bool → Scm → Desktop → Outcome Scm
unfolding getter
window_position up v d = getter up false_value (λ a w. pair_of w.position) (window_of v d)

unfoldable pub window_pin_fullscreened : Bool → Scm → Desktop → Outcome ℤ
unfolding getter
window_pin_fullscreened up v d = getter up (pos 0) (λ a w. flag w.pin_fullscreened) (window_of v d)

unfoldable pub window_allowed_over_fullscreen : Bool → Scm → Desktop → Outcome ℤ
unfolding getter
window_allowed_over_fullscreen up v d =
    getter up (pos 0) (λ a w. flag w.over_fullscreen) (window_of v d)

unfoldable pub window_tearing_hint : Bool → Scm → Desktop → Outcome ℤ
unfolding getter
window_tearing_hint up v d = getter up (pos 0) (λ a w. flag w.tearing_hint) (window_of v d)

unfoldable pub window_inhibiting_idle : Bool → Scm → Desktop → Outcome ℤ
unfolding getter
window_inhibiting_idle up v d = getter up (pos 0) (λ a w. flag w.inhibiting_idle) (window_of v d)

unfoldable pub window_fullscreen_handler : Bool → Scm → Desktop → Outcome Scm
unfolding getter window_or_focused
window_fullscreen_handler up v d =
    getter up false_value (λ a w. Scm.symbol w.fullscreen_handler) (window_or_focused v d)

unfoldable pub window_initial_class : Bool → Scm → Desktop → Outcome Scm
unfolding getter
window_initial_class up v d =
    getter up false_value (λ a w. Scm.string w.initial_app_id) (window_of v d)

unfoldable pub window_initial_title : Bool → Scm → Desktop → Outcome Scm
unfolding getter
window_initial_title up v d =
    getter up false_value (λ a w. Scm.string w.initial_title) (window_of v d)

unfoldable pub window_x11 : Bool → Scm → Desktop → Outcome ℤ
unfolding getter
window_x11 up v d = getter up (pos 0) (λ a w. flag w.x11) (window_of v d)

-- Whether two locked handles are the same live object.
abbrev pub same_live {ℓ} : {A : Type ℓ} → Option (ℕ × A) → Option (ℕ × A) → ℤ
same_live none o = pos 0
same_live (some (a, w)) none = pos 0
same_live (some (a, w)) (some (b, x)) = flag (a == b)

unfoldable pub window_same : Bool → Scm → Scm → Desktop → Outcome ℤ
window_same up v u d =
    if not up
    then answers (pos 0)
    else then_with (window_of v d) (λ a. then_with (window_of u d) (λ b. answers (same_live a b)))
