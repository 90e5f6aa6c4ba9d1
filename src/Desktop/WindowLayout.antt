-- ===== src/Desktop/WindowLayout.antt =====
-- `hlSchemeWindowLayout` of cpp/Window.cpp: the layout of a tiled window as a plist. What the compositor's
-- layouts keep is a parameter; a double is its bit pattern.
pub mod Columns
use hyprscheme.Base.{ℕ, Bool, true, false, Option, none, some, List, [], ◌∷◌, Text, codes}
use hyprscheme.Base.Int.{ℤ}
use hyprscheme.Scm.{Scm}
use hyprscheme.Desktop.{
  Outcome, answers, then_with, Window, Desktop, false_value, window_handle, window_of, getter,
}

-- The master layout's node of a target.
pub record MasterNode : Type 0 where
  pub is_master : Bool
  pub perc_master : ℕ
  pub perc_size : ℕ

-- A column of the scrolling layout: its index, if the layout's data stands, and its targets, each of
-- which may have died or show no window.
pub record Column : Type 0 where
  pub index : Option ℤ
  pub width : ℕ
  pub targets : List (Option (Option ℕ))

-- What the layout knows of a target: a node; data, whose column may have died, and the place in it.
pub data Algorithm : Type 0 where
  master : Option MasterNode → Algorithm
  scrolling : Option (Option (Column × ℤ)) → Algorithm
  other_algorithm : Algorithm

-- The tiled algorithm of a space: its name, and what it knows of each window's target.
abbrev pub Tiled : Type 0
Tiled = Text × (ℕ → Algorithm)

abbrev pub entry : Text → Scm → Scm → Scm
entry name v l = Scm.pair (Scm.symbol name) (Scm.pair v l)

-- The loop over the targets of a column.
unfoldable pub column_windows : List (Option (Option ℕ)) → Scm → Scm
column_windows [] l = l
column_windows (none ∷ ts) l = column_windows ts l
column_windows (some none ∷ ts) l = column_windows ts l
column_windows (some (some a) ∷ ts) l = column_windows ts (Scm.pair (window_handle a) l)

abbrev pub index_entry : Option ℤ → Scm
index_entry none = Scm.nil
index_entry (some i) = entry (codes "index") (Scm.int i) Scm.nil

unfoldable pub column_plist : Column → Scm
unfolding column_windows
column_plist c =
    entry (codes "windows") (column_windows c.targets Scm.nil)
      (entry (codes "width") (Scm.flonum c.width) (index_entry c.index))

unfoldable pub algorithm_entries : Algorithm → Scm → Scm
unfolding column_plist
algorithm_entries (master none) l = l
algorithm_entries (master (some n)) l = entry (codes "perc-size") (Scm.flonum n.perc_size) (
    entry (codes "perc-master") (Scm.flonum n.perc_master)
      (entry (codes "is-master") (Scm.bool n.is_master) l))
algorithm_entries (scrolling none) l = l
algorithm_entries (scrolling (some none)) l = l
algorithm_entries (scrolling (some (some (c, place)))) l =
    entry (codes "column") (column_plist c) (entry (codes "index-in-column") (Scm.int place) l)
algorithm_entries other_algorithm l = l

-- The target of a window, if it has one, and whether it floats; the space of its workspace, if there
-- are both, and the space's tiled algorithm, if it has one.
unfoldable pub layout_of : Option Bool → Option (Option Tiled) → ℕ → Scm
unfolding algorithm_entries
layout_of none space a = false_value
layout_of (some true) space a = false_value
layout_of (some false) none a = false_value
layout_of (some false) (some none) a = false_value
layout_of (some false) (some (some (name, algorithm))) a =
    algorithm_entries (algorithm a) (entry (codes "name") (Scm.string name) Scm.nil)

abbrev pub space_of : (ℕ → Option (Option Tiled)) → Option ℕ → Option (Option Tiled)
space_of spaces none = none
space_of spaces (some ws) = spaces ws

unfoldable pub window_layout :
    (ℕ → Option Bool) → (ℕ → Option (Option Tiled)) → Bool → Scm → Desktop → Outcome Scm
unfolding getter layout_of
window_layout targets spaces up v d =
    getter up false_value (λ a (w : Window). layout_of (targets a) (space_of spaces w.workspace) a)
      (window_of v d)
