-- ===== src/Bind/Submap.antt =====
-- The submap of cpp/Bind.cpp: the one in force, as the keybind manager keeps it, and entering one.
use hyprscheme.Base.{Bool, Option, none, some, [], ◌∷◌, if◌then◌else◌, not, Text, codes}
use hyprscheme.Base.Int.{ℤ, pos, negsuc}
use hyprscheme.Scm.{Scm}
use hyprscheme.Desktop.{Request, act, Desktop, false_value}

-- The submap is `none` when there is no manager.
unfoldable pub current_submap : Bool → Option Text → Scm
current_submap up none = false_value
current_submap up (some submap) = if not up then false_value else Scm.string submap

-- A null name asks for nothing.
unfoldable pub enter_submap : (Request → Bool) → Bool → Option Text → Desktop → Desktop × ℤ
enter_submap accepts up none d = (d, negsuc 0)
enter_submap accepts up (some name) d =
    let asked = act (codes "set-submap") none [] (name ∷ []) in
    if not up
    then (d, negsuc 0)
    else (record d { requests = asked ∷ d.requests }, if accepts asked then pos 0 else negsuc 0)
