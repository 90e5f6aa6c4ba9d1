-- ===== src/Desktop/Queries.antt =====
-- The queries of cpp/Query.cpp that hand a question to the compositor, whose answer is a parameter.
-- `pointer` is the pointer manager's position, if there is a manager; a coordinate is a double.
use hyprscheme.Base.{ℕ, Bool, Option, none, some, Text}
use hyprscheme.Scm.{Scm, Family}
use hyprscheme.Desktop.{false_value}
use hyprscheme.Desktop.Selectors.{or_empty, queried}

unfoldable pub urgent_window : Bool → Option ℕ → Scm
unfolding queried
urgent_window up urgent = queried Family.window up urgent

unfoldable pub monitor_from : (Text → Option ℕ) → Bool → Option Text → Scm
unfolding queried
monitor_from config_string up sel = queried Family.monitor up (config_string (or_empty sel))

unfoldable pub monitor_at : (ℕ → ℕ → Option ℕ) → Bool → ℕ → ℕ → Scm
unfolding queried
monitor_at at up x y = queried Family.monitor up (at x y)

unfoldable pub monitor_at_cursor : (ℕ → ℕ → Option ℕ) → Bool → Option (ℕ × ℕ) → Scm
unfolding queried
monitor_at_cursor at up none = false_value
monitor_at_cursor at up (some (x, y)) = queried Family.monitor up (at x y)
