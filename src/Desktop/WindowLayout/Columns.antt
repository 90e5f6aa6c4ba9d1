-- ===== src/Desktop/WindowLayout/Columns.antt =====
-- The column that `hlSchemeWindowLayout` of cpp/Window.cpp lists for a window of the scrolling layout.
use hyprscheme.Base.{
  ℕ, suc, ◌+◌, ◌≡◌, refl, ap, ◌∙◌, arith, Bool, true, false, Option, none, some, List, [], ◌∷◌,
  ◌++◌, if◌then◌else◌, Text, codes, text_eq, length, get_elem?,
}
use hyprscheme.Base.Int.{ℤ}
use hyprscheme.Scm.{Scm, elements}
use hyprscheme.Desktop.{answers, Window, Desktop, window_handle, window_of, getter}
use hyprscheme.Desktop.WindowLayout.{
  Column, Algorithm, scrolling, Tiled, column_windows, column_plist, algorithm_entries, layout_of,
  window_layout,
}

abbrev is_named : Text → Scm → Bool
is_named key (Scm.symbol s) = text_eq s key
is_named key _ = false

-- The value of a key of a plist, as `plist-ref` finds it.
unfoldable pub value_of : Text → Scm → Scm
unfolding text_eq
value_of key (Scm.pair k (Scm.pair v rest)) =
    let further = value_of key rest in if is_named key k then v else further
value_of key _ = Scm.bool false

-- A target that lives and shows a window.
abbrev pub shown_in : List (Option (Option ℕ)) → List ℕ
shown_in [] = []
shown_in (none ∷ ts) = shown_in ts
shown_in (some none ∷ ts) = shown_in ts
shown_in (some (some a) ∷ ts) = a ∷ shown_in ts

abbrev pub backwards : List ℕ → List Scm → List Scm
backwards [] vs = vs
backwards (a ∷ ids) vs = backwards ids (window_handle a ∷ vs)

elements-column_windows :
    (ts : List (Option (Option ℕ))) (l : Scm)
    → elements (column_windows ts l) ≡ backwards (shown_in ts) (elements l)
unfolding column_windows elements
elements-column_windows [] l = refl
elements-column_windows (none ∷ ts) l = elements-column_windows ts l
elements-column_windows (some none ∷ ts) l = elements-column_windows ts l
elements-column_windows (some (some a) ∷ ts) l =
    elements-column_windows ts (Scm.pair (window_handle a) l)

get_elem?-backwards :
    (ids : List ℕ) (vs : List Scm) (i : ℕ)
    → get_elem? (backwards ids vs) (length ids + i) ≡ get_elem? vs i
get_elem?-backwards [] vs i = ap (get_elem? vs) (omega arith)
get_elem?-backwards (a ∷ ids) vs i =
    ap (get_elem? (backwards ids (window_handle a ∷ vs))) (omega arith)
    ∙ get_elem?-backwards ids (window_handle a ∷ vs) (suc i)

column_windows-append :
    (before ts : List (Option (Option ℕ))) (l : Scm)
    → column_windows (before ++ ts) l ≡ column_windows ts (column_windows before l)
unfolding column_windows
column_windows-append [] ts l = refl
column_windows-append (none ∷ before) ts l = column_windows-append before ts l
column_windows-append (some none ∷ before) ts l = column_windows-append before ts l
column_windows-append (some (some a) ∷ before) ts l =
    column_windows-append before ts (Scm.pair (window_handle a) l)

column_windows-at :
    (before after : List (Option (Option ℕ))) (b : ℕ)
    → get_elem?
        (elements (column_windows (before ++ some (some b) ∷ after) Scm.nil))
        (length (shown_in after))
      ≡ some (window_handle b)
unfolding column_windows elements
column_windows-at before after b =
    ap (λ l. get_elem? (elements l) (length (shown_in after)))
      (column_windows-append before (some (some b) ∷ after) Scm.nil)
    ∙ ap (λ vs. get_elem? vs (length (shown_in after)))
        (elements-column_windows after (Scm.pair (window_handle b) (column_windows before Scm.nil)))
    ∙ ap
        (get_elem?
          (backwards (shown_in after) (window_handle b ∷ elements (column_windows before Scm.nil))))
        (omega arith)
    ∙ get_elem?-backwards (shown_in after)
        (window_handle b ∷ elements (column_windows before Scm.nil)) 0

-- For a live window with a target that does not float, on a workspace whose space is laid out in
-- columns, and a column that stands, the interpreter up: the answer is a plist with the compositor's
-- place as 'index-in-column, and a window of the column stands in the listed windows at the number of
-- windows that follow it in the column, which is its place from the end: the list runs backwards.
pub window_layout-from_the_end :
    (targets : ℕ → Option Bool) (spaces : ℕ → Option (Option Tiled)) (v : Scm) (d : Desktop) (a : ℕ)
    (w : Window) (ws : ℕ) (name : Text) (algorithm : ℕ → Algorithm) (c : Column) (place : ℤ)
    (before after : List (Option (Option ℕ))) (b : ℕ)
    → window_of v d ≡ answers (some (a, w))
    → targets a ≡ some false
    → w.workspace ≡ some ws
    → spaces ws ≡ some (some (name, algorithm))
    → algorithm a ≡ scrolling (some (some (c, place)))
    → c.targets ≡ before ++ some (some b) ∷ after
    → (l : Scm) × (window_layout targets spaces true v d ≡ answers l)
      × (value_of (codes "index-in-column") l ≡ Scm.int place)
      × (get_elem?
            (elements (value_of (codes "windows") (value_of (codes "column") l)))
            (length (shown_in after))
          ≡ some (window_handle b))
unfolding window_layout getter layout_of algorithm_entries column_plist value_of text_eq
window_layout-from_the_end targets spaces v d a w ws name algorithm c place before after b found
      target here space data_of column =
    (
      algorithm_entries (scrolling (some (some (c, place))))
          (Scm.pair (Scm.symbol (codes "name")) (Scm.pair (Scm.string name) Scm.nil)),
      rw (found, target, here, space, data_of) refl,
      refl,
      ap (λ ts. get_elem? (elements (column_windows ts Scm.nil)) (length (shown_in after))) column
          ∙ column_windows-at before after b,
    )
