-- ===== src/Layout/Tests.antt =====
-- The theorems on layouts at concrete layouts.
use hyprscheme.Base.{
  ℕ, arith, ◌+◌, ◌*◌, ◌/◌, ◌≡◌, ◌≤◌, ◌<◌, refl, Bool, true, false, some, List, [], ◌∷◌, codes,
  length,
}
use hyprscheme.Base.Int.{pos, pos_part}
use hyprscheme.Scm.{Scm, nil, int, pair, handle, struct_of, window, elements}
use hyprscheme.Layout.Order.{swap_targets, live_targets}
use hyprscheme.Layout.Geometry.{Box, Doubles, World, Algorithm}
use hyprscheme.Layout.Boxes.{read_placement, window_named, target_showing, resolve, apply_each}
use hyprscheme.Layout.Grid.{grid_cols, grid_rows, grid_col, grid_row, grid_cell}
use hyprscheme.Layout.Pass.{recalculate, call_layout, dispatch_recalculate}
use hyprscheme.Layout.Registry.{Registry, layout_add}
use hyprscheme.Layout.Exchange.{exchange_all, swap_targets-exchange_all}
use hyprscheme.Layout.Cells.{grid_cells_distinct}
use hyprscheme.Layout.Fallback.{last_box, recalculate-grid_cell}
use hyprscheme.Layout.Reports.{passes, reported, passes-reported_once}
use hyprscheme.Layout.Placement.{requested, last_box-apply_each}
use hyprscheme.Layout.Names.{IsWellFormed, layout_add-IsWellFormed}

abbrev all_alive : ℕ → Bool
all_alive t = true

abbrev three : List ℕ
three = 1 ∷ 2 ∷ 3 ∷ []

swap_targets-exchange_all_example : swap_targets all_alive 1 9 three ≡ exchange_all 1 9 three
swap_targets-exchange_all_example =
    swap_targets-exchange_all all_alive 1 9 refl refl three (refl, (refl, (refl, tt)))

abbrev one : ℕ
one = 1

grid_cells_distinct_example :
    (grid_col 5 1 < grid_cols 5)
    × (grid_row 5 1 < grid_rows 5)
    × (grid_col 5 1 ≡ grid_col 5 4 → grid_row 5 1 ≡ grid_row 5 4 → one ≡ 4)
grid_cells_distinct_example = grid_cells_distinct 5 1 4 (omega arith)

-- Doubles that hold whole numbers.
abbrev whole : Scm → ℕ
whole (int n) = pos_part n
whole _ = 0

abbrev wholes : Doubles
wholes = record {
  to_double = whole;
  of_int = pos_part;
  lround = pos;
  add = λ a b. a + b;
  mul = λ a b. a * b;
  div = λ a b. a / b;
  no_negative_size = λ b. b;
}

abbrev screen : Box
screen = record { x = 0; y = 0; w = 100; h = 100 }

abbrev box_at : ℕ → Box
box_at n = record { x = n; y = 0; w = 10; h = 10 }

-- Window `n` is shown by target `n`; a callback answers the list it is given.
abbrev world_answering : Scm → World
world_answering answer = record {
  alive = all_alive;
  window_of = some;
  window_alive = λ w. true;
  position = box_at;
  space = some screen;
  box_rtd = some 1;
  make_box = some (λ a b c d. struct_of 1 (int a) (int b) (int c) (int d));
  layout_recalculate = λ spec payload. answer;
  layout_resize = λ spec payload. answer;
  layout_msg_fn = λ spec m. nil;
}

abbrev placed_at : ℕ → ℕ → Scm
placed_at w n =
    pair (handle window w) (struct_of 1 (int (pos n)) (int (pos 0)) (int (pos 10)) (int (pos 10)))

abbrev answer : Scm
answer = pair (placed_at 2 40) (pair (placed_at 1 30) (pair (placed_at 2 50) nil))

abbrev bad_answer : Scm
bad_answer = pair (placed_at 2 40) (pair (int (pos 3)) nil)

abbrev columns : Algorithm
columns = record {
  provider = record { name = codes "scheme:columns"; active = true; did_error = false; spec = nil };
  targets = three;
}

failed_call :
    (call_layout wholes
      (world_answering bad_answer)
      columns.provider
      (live_targets all_alive three)).1
    ≡ false
unfolding call_layout live_targets dispatch_recalculate apply_each resolve read_placement
    window_named target_showing
failed_call = refl

recalculate-grid_cell_example :
    last_box 2 (recalculate wholes (world_answering bad_answer) columns).placed
    ≡ some (grid_cell wholes screen 3 1)
unfolding live_targets
recalculate-grid_cell_example =
    recalculate-grid_cell wholes (world_answering bad_answer) columns {area = screen} 1 2
      failed_call refl (refl, (refl, (refl, tt))) refl

passes-reported_once_example :
    (length (passes wholes (world_answering bad_answer ∷ world_answering bad_answer ∷ []) columns).1
        + reported columns
      ≡ reported
          (passes wholes (world_answering bad_answer ∷ world_answering bad_answer ∷ []) columns).0)
    × (length
          (passes wholes (world_answering bad_answer ∷ world_answering bad_answer ∷ []) columns).1
        ≤ 1)
passes-reported_once_example =
    passes-reported_once wholes (world_answering bad_answer ∷ world_answering bad_answer ∷ [])
      columns

answer_runs : (apply_each wholes (world_answering answer) 1 three answer).1 ≡ true
unfolding apply_each resolve read_placement window_named target_showing
answer_runs = refl

two_shown : target_showing wholes (world_answering answer) 2 three ≡ some 2
unfolding target_showing
two_shown = refl

last_box-apply_each_example :
    last_box 2 (apply_each wholes (world_answering answer) 1 three answer).0
    ≡ requested wholes (world_answering answer) 1 2 (elements answer)
last_box-apply_each_example =
    last_box-apply_each wholes (world_answering answer) 1 three answer 2 2 answer_runs two_shown

abbrev no_layouts : Registry
no_layouts = record { layouts = []; listeners = 0; requests = [] }

no_layouts-IsWellFormed : IsWellFormed no_layouts
no_layouts-IsWellFormed = record { distinct = tt; prefixed = tt; all_active = tt; paired = refl }

layout_add-IsWellFormed_example :
    IsWellFormed (layout_add true (λ n. true) (codes "columns") nil no_layouts).0
layout_add-IsWellFormed_example =
    layout_add-IsWellFormed true (λ n. true) (codes "columns") nil no_layouts
      no_layouts-IsWellFormed

abbrev one_layout : Registry
one_layout = (layout_add true (λ n. true) (codes "columns") nil no_layouts).0
