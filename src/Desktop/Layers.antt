-- ===== src/Desktop/Layers.antt =====
-- The queries of cpp/Layer.cpp.
pub mod Filtered
use hyprscheme.Base.{
  ℕ, ◌==◌, Bool, true, false, not, ◌||◌, ◌&&◌, Option, none, some, List, [], ◌∷◌, ◌++◌,
  if◌then◌else◌, Text, text_eq, is_empty, address_text,
}
use hyprscheme.Base.Int.{ℤ, pos, negsuc}
use hyprscheme.Scm.{Scm, Family, is_false}
use hyprscheme.Desktop.{
  Outcome, answers, then_with, Monitor, Layer, Desktop, false_value, bool_result, handle_result,
  alive, lock_handle, layer_of, monitor_of, getter,
}
use hyprscheme.Desktop.Windows.{list_or_false}
use hyprscheme.Desktop.WindowState.{same_live}

-- With the interpreter down these two answer -1.
unfoldable pub layer_alive : Bool → Scm → Desktop → Outcome ℤ
unfolding lock_handle alive
layer_alive up v d =
    if not up
    then answers (negsuc 0)
    else then_with (layer_of v d)
        (λ o. elim o [ none ↦ answers (pos 0) | some l ↦ answers (pos 1) ])

unfoldable pub layer_same : Bool → Scm → Scm → Desktop → Outcome ℤ
unfolding lock_handle alive
layer_same up v u d =
    if not up
    then answers (negsuc 0)
    else then_with (layer_of v d) (λ a. then_with (layer_of u d) (λ b. answers (same_live a b)))

unfoldable pub layer_address : Bool → Scm → Desktop → Outcome Scm
unfolding getter lock_handle alive address_text
layer_address up v d =
    getter up false_value (λ a (l : Layer). Scm.string (address_text a)) (layer_of v d)

unfoldable pub layer_pid : Bool → Scm → Desktop → Outcome Scm
unfolding getter lock_handle alive
layer_pid up v d = getter up false_value (λ a (l : Layer). Scm.int l.pid) (layer_of v d)

unfoldable pub layer_namespace : Bool → Scm → Desktop → Outcome Scm
unfolding getter lock_handle alive
layer_namespace up v d =
    getter up false_value (λ a (l : Layer). Scm.string l.namespace) (layer_of v d)

unfoldable pub layer_level : Bool → Scm → Desktop → Outcome Scm
unfolding getter lock_handle alive
layer_level up v d = getter up false_value (λ a (l : Layer). Scm.int l.level) (layer_of v d)

unfoldable pub layer_mapped : Bool → Scm → Desktop → Outcome Scm
unfolding getter lock_handle alive
layer_mapped up v d = getter up false_value (λ a (l : Layer). bool_result l.mapped) (layer_of v d)

unfoldable pub layer_kb_interactivity : Bool → Scm → Desktop → Outcome Scm
unfolding getter lock_handle alive
layer_kb_interactivity up v d =
    getter up false_value (λ a (l : Layer). Scm.int l.kb_interactivity) (layer_of v d)

unfoldable pub layer_above_fullscreen : Bool → Scm → Desktop → Outcome Scm
unfolding getter lock_handle alive
layer_above_fullscreen up v d =
    getter up false_value (λ a (l : Layer). bool_result l.above_fullscreen) (layer_of v d)

unfoldable pub layer_monitor_id : Bool → Scm → Desktop → Outcome Scm
unfolding getter lock_handle alive
layer_monitor_id up v d =
    getter up false_value (λ a (l : Layer). handle_result Family.monitor l.monitor) (layer_of v d)

unfoldable pub layer_position : Bool → Scm → Desktop → Outcome Scm
unfolding getter lock_handle alive
layer_position up v d =
    getter up false_value
      (λ a (l : Layer). Scm.pair (Scm.int (l.position.0)) (Scm.int (l.position.1))) (layer_of v d)

unfoldable pub layer_size : Bool → Scm → Desktop → Outcome Scm
unfolding getter lock_handle alive
layer_size up v d =
    getter up false_value (λ a (l : Layer). Scm.pair (Scm.int (l.size.0)) (Scm.int (l.size.1)))
      (layer_of v d)

abbrev pub layer_handle : ℕ → Scm
layer_handle a = Scm.handle Family.layer a

-- Only a string is a filter.
abbrev pub filter_text : Scm → Text
filter_text (Scm.string t) = t
filter_text _ = []

abbrev pub passes_filter : Text → Layer → Bool
passes_filter ns l = is_empty ns || text_eq l.namespace ns

-- The layers of one level, those that are gone left out.
unfoldable pub on_level : Text → List (ℕ × Layer) → List (Option ℕ) → List Scm
unfolding alive
on_level ns ls [] = []
on_level ns ls (none ∷ l) = on_level ns ls l
on_level ns ls (some a ∷ l) =
    let rest = on_level ns ls l in
    elim (alive a ls) [
      | none ↦ rest
      | some (b, x) ↦ if not (passes_filter ns x) then rest else layer_handle a ∷ rest
    ]

unfoldable pub on_levels : Text → List (ℕ × Layer) → List (List (Option ℕ)) → List Scm
unfolding on_level
on_levels ns ls [] = []
on_levels ns ls (l ∷ levels) = on_level ns ls l ++ on_levels ns ls levels

-- The filter is a pointer: a null one lets every monitor through.
abbrev pub is_other : Option (ℕ × Monitor) → ℕ → Bool
is_other none a = false
is_other (some (f, m)) a = not (f == a)

unfoldable pub on_monitors :
    Option (ℕ × Monitor) → Text → List (ℕ × Layer) → List (ℕ × Monitor) → List Scm
unfolding on_levels
on_monitors f ns ls [] = []
on_monitors f ns ls ((a, m) ∷ ms) =
    let rest = on_monitors f ns ls ms in
    if is_other f a then rest else on_levels ns ls m.layer_levels ++ rest

unfoldable pub layers_of : Bool → Scm → Scm → Desktop → Outcome Scm
unfolding lock_handle alive on_monitors
layers_of up monitor_filter ns d =
    let filtered = λ (f : Option (ℕ × Monitor)).
      answers (list_or_false (on_monitors f (filter_text ns) d.layers d.monitors)) in
    if not up
    then answers false_value
    else if is_false monitor_filter
    then filtered none
    else then_with (monitor_of monitor_filter d) filtered
