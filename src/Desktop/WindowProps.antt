-- ===== src/Desktop/WindowProps.antt =====
-- `hlSchemeWindowPropGet` of cpp/Window.cpp: the values in force of a window's properties, by the names
-- that setting them takes.
use hyprscheme.Base.{
  ℕ, Bool, Option, none, some, List, [], ◌∷◌, if◌then◌else◌, Text, codes, text_eq, is_empty,
}
use hyprscheme.Base.Int.{ℤ}
use hyprscheme.Scm.{Scm}
use hyprscheme.Desktop.{Outcome, Window, Desktop, false_value, window_or_focused, getter}

-- The truth values of the rule applicator, named as its members are.
pub data Toggle : Type 0 where
  allows_input decorate focus_on_activate keep_aspect_ratio nearest_neighbor no_anim no_blur :
      Toggle
  no_dim no_focus no_max_size no_shadow no_glow no_wobble no_shortcuts_inhibit opaque dim_around :
      Toggle
  rgbx sync_fullscreen tearing xray render_unfocused no_follow_mouse no_screen_share no_vrr : Toggle
  no_auto_hdr persistent_size stay_focused no_xdg_drags : Toggle

-- A window's rule applicator: what is in force.
pub record Applied : Type 0 where
  pub alpha : ℕ
  pub alpha_inactive : ℕ
  pub alpha_fullscreen : ℕ
  pub border_size : ℤ
  pub rounding : ℤ
  pub toggled : Toggle → Bool

-- The names of HL_READ_BOOL, in order.
abbrev pub toggles : List (Text × Toggle)
toggles =
    (codes "allows_input", allows_input)
    ∷ (codes "decorate", decorate)
    ∷ (codes "focus_on_activate", focus_on_activate)
    ∷ (codes "keep_aspect_ratio", keep_aspect_ratio)
    ∷ (codes "nearest_neighbor", nearest_neighbor)
    ∷ (codes "no_anim", no_anim)
    ∷ (codes "no_blur", no_blur)
    ∷ (codes "no_dim", no_dim)
    ∷ (codes "no_focus", no_focus)
    ∷ (codes "no_max_size", no_max_size)
    ∷ (codes "no_shadow", no_shadow)
    ∷ (codes "no_glow", no_glow)
    ∷ (codes "no_wobble", no_wobble)
    ∷ (codes "no_shortcuts_inhibit", no_shortcuts_inhibit)
    ∷ (codes "opaque", opaque)
    ∷ (codes "dim_around", dim_around)
    ∷ (codes "force_rgbx", rgbx)
    ∷ (codes "sync_fullscreen", sync_fullscreen)
    ∷ (codes "immediate", tearing)
    ∷ (codes "xray", xray)
    ∷ (codes "render_unfocused", render_unfocused)
    ∷ (codes "no_follow_mouse", no_follow_mouse)
    ∷ (codes "no_screen_share", no_screen_share)
    ∷ (codes "no_vrr", no_vrr)
    ∷ (codes "no_auto_hdr", no_auto_hdr)
    ∷ (codes "persistent_size", persistent_size)
    ∷ (codes "stay_focused", stay_focused)
    ∷ (codes "no_xdg_drags", no_xdg_drags)
    ∷ []

unfoldable pub read_toggle : Applied → Text → List (Text × Toggle) → Scm
read_toggle applied p [] = false_value
read_toggle applied p ((name, t) ∷ ts) =
    let rest = read_toggle applied p ts in
    if text_eq p name then Scm.bool (applied.toggled t) else rest

unfoldable pub prop_value : Applied → Text → Scm
unfolding read_toggle
prop_value applied p =
    if is_empty p
    then false_value
    else if text_eq p (codes "opacity")
    then Scm.flonum applied.alpha
    else if text_eq p (codes "opacity_inactive")
    then Scm.flonum applied.alpha_inactive
    else if text_eq p (codes "opacity_fullscreen")
    then Scm.flonum applied.alpha_fullscreen
    else if text_eq p (codes "border_size")
    then Scm.int applied.border_size
    else if text_eq p (codes "rounding")
    then Scm.int applied.rounding
    else read_toggle applied p toggles

abbrev pub named_prop : Applied → Option Text → Scm
named_prop applied none = false_value
named_prop applied (some p) = prop_value applied p

unfoldable pub window_prop_get : (ℕ → Applied) → Bool → Scm → Option Text → Desktop → Outcome Scm
unfolding getter window_or_focused prop_value
window_prop_get applied up v prop d =
    getter up false_value (λ a (w : Window). named_prop (applied a) prop) (window_or_focused v d)
