-- ===== src/Layout/Pass.antt =====
-- A pass over a layout: `dispatchRecalculate`, `dispatchResize`, `callLayout`, `reportError`,
-- `recalculate`, `resizeTarget` and `layoutMsg` (cpp/SchemeLayout.cpp).
use hyprscheme.Base.{
  ℕ, Bool, true, false, Option, none, some, List, [], ◌∷◌, ◌++◌, if◌then◌else◌, ◌||◌, not, Text,
  codes, is_empty,
}
use hyprscheme.Base.Int.{ℤ}
use hyprscheme.Scm.{Scm, bool, int, is_false, list_of}
use hyprscheme.Layout.Order.{live_targets}
use hyprscheme.Layout.Geometry.{Box, Doubles, World, Provider, Algorithm}
use hyprscheme.Layout.Boxes.{box_to_scheme, placement_list, apply_boxes}
use hyprscheme.Layout.Grid.{apply_default_grid}

-- The positions that were set, the notifications that were posted, and the algorithm afterwards.
pub record Done : Type 0 where
  pub algorithm : Algorithm
  pub placed : List (ℕ × Box)
  pub notices : List Text

unfoldable pub error_text : Text → Text → Text
error_text name message = codes "[scheme] layout " ++ (name ++ (codes " error: " ++ message))

-- The provider afterwards, and the notification if this is its first error.
unfoldable pub report_error : Provider → Text → Provider × List Text
unfolding error_text
report_error p message =
    if p.did_error then (p, []) else (record p { did_error = true }, error_text p.name message ∷ [])

abbrev pub malformed : Text
malformed = codes "layout callback failed or returned a malformed box list"

module _ (fpu : Doubles) (o : World) where
  open fpu use {lround}

  -- The payload's area and placements, if the space, the record type and the constructor are there.
  unfoldable pub payload_head : List ℕ → Option (Scm × Scm)
  unfolding box_to_scheme placement_list
  payload_head ts = elim o.space [
    | none ↦ none
    | some area ↦ elim o.box_rtd [
      | none ↦ none
      | some rtd ↦
          if is_false (box_to_scheme fpu o area)
          then none
          else some (box_to_scheme fpu o area, placement_list fpu o ts)
    ]
  ]

  unfoldable pub dispatch_recalculate : Provider → List ℕ → Scm
  unfolding payload_head list_of
  dispatch_recalculate p ts = elim (payload_head ts) [
    | none ↦ bool false
    | some (area, places) ↦ o.layout_recalculate p.spec (list_of (area ∷ places ∷ []))
  ]

  unfoldable pub dispatch_resize : Provider → List ℕ → ℕ → ℕ → ℤ → Scm
  unfolding payload_head list_of
  dispatch_resize p ts dx dy corner = elim (payload_head ts) [
    | none ↦ bool false
    | some (area, places) ↦
        o.layout_resize p.spec
          (list_of (area ∷ places ∷ int (lround dx) ∷ int (lround dy) ∷ int corner ∷ []))
  ]

  -- What the callback's answer sets, and whether it stands.
  unfoldable pub apply_answer : List ℕ → Scm → List (ℕ × Box) × Bool
  unfolding apply_boxes
  apply_answer ts r = if is_false r then ([], false) else apply_boxes fpu o ts r

  -- The positions that the callback had set, and whether the call stands.
  unfoldable pub call_layout : Provider → List ℕ → List (ℕ × Box) × Bool
  unfolding apply_answer
  call_layout p ts =
      if not p.active then ([], false) else apply_answer ts (dispatch_recalculate p ts)

  -- `callLayout` reports a failure of an active layout.
  unfoldable pub after_call : Provider → Bool → Provider × List Text
  unfolding report_error
  after_call p stands = if stands || not p.active then (p, []) else report_error p malformed

  -- The positions of an attempt that stands, or those that it had set and the grid.
  unfoldable pub or_grid : List ℕ → List (ℕ × Box) × Bool → List (ℕ × Box)
  or_grid ts (placed, true) = placed
  or_grid ts (placed, false) = placed ++ apply_default_grid fpu o ts

  unfoldable pub recalculate : Algorithm → Done
  unfolding call_layout after_call or_grid
  recalculate s =
      let live = live_targets o.alive s.targets in
      if is_empty live
      then record { algorithm = record s { targets = live }; placed = []; notices = [] }
      else let attempt = call_layout s.provider live in
        let (p, texts) = after_call s.provider attempt.1 in
        record {
          algorithm = record { provider = p; targets = live };
          placed = or_grid live attempt;
          notices = texts;
        }

  unfoldable pub resize_target : Algorithm → ℕ → ℕ → ℤ → Done
  unfolding apply_answer or_grid
  resize_target s dx dy corner =
      let live = live_targets o.alive s.targets in
      let r = dispatch_resize s.provider live dx dy corner in
      record {
        algorithm = record s { targets = live };
        placed =
            if is_empty live
            then []
            else if is_false r
            then or_grid live (apply_answer live (dispatch_recalculate s.provider live))
            else or_grid live (apply_boxes fpu o live r);
        notices = [];
      }

  abbrev pub message_of : Scm → Text
  message_of (Scm.string t) = t
  message_of _ = []

  -- The error that `layoutMsg` answers, if any, and what it did.
  unfoldable pub layout_msg : Algorithm → Text → Done × Option Text
  layout_msg s sv =
      let idle : Done = record { algorithm = s; placed = []; notices = [] } in
      let out = message_of (o.layout_msg_fn s.provider.spec sv) in
      if not s.provider.active
      then (idle, none)
      else if not (is_empty out)
      then (idle, some (codes "layout " ++ (s.provider.name ++ (codes ": " ++ out))))
      else (recalculate s, none)
