-- ===== src/Layout/Boxes.antt =====
-- Boxes to and from Scheme, and `applyBoxes` (cpp/SchemeLayout.cpp). `setPositionGlobal` is a call of
-- the compositor: what a pass does is the list of the positions it sets, in order.
use hyprscheme.Base.{
  ℕ, Bool, true, false, Option, none, some, List, [], ◌∷◌, ◌==◌, if◌then◌else◌, not,
}
use hyprscheme.Scm.{Scm, bool, pair, handle, struct_of, window, is_pair, is_false, list_of, is_nil}
use hyprscheme.Layout.Geometry.{Box, Doubles, World}

abbrev pub is_number : Scm → Bool
is_number (Scm.int n) = true
is_number (Scm.ratio n d) = true
is_number (Scm.flonum b) = true
is_number _ = false

module _ (fpu : Doubles) where
  open fpu use {to_double, of_int, lround, no_negative_size}

  unfoldable pub box_number : Scm → Option ℕ
  box_number v = if is_number v then some (to_double v) else none

  -- The whole pixel of a number, as the double that a box holds.
  unfoldable pub pixel : ℕ → ℕ
  pixel d = of_int (lround d)

  unfoldable pub box_to_scheme : World → Box → Scm
  box_to_scheme o b = elim o.make_box [
    | none ↦ bool false
    | some make ↦ make (lround b.x) (lround b.y) (lround b.w) (lround b.h)
  ]

  unfoldable pub box_of_numbers : Option ℕ → Option ℕ → Option ℕ → Option ℕ → Option Box
  unfolding pixel
  box_of_numbers (some x) (some y) (some w) (some h) =
      some (no_negative_size (record { x = pixel x; y = pixel y; w = pixel w; h = pixel h }))
  box_of_numbers _ _ _ _ = none

  -- A box is a record of the current record type, of four numbers.
  unfoldable pub read_box : ℕ → Scm → Option Box
  unfolding box_number box_of_numbers
  read_box rtd (struct_of vtable a b c d) =
      if vtable == rtd
      then box_of_numbers (box_number a) (box_number b) (box_number c) (box_number d)
      else none
  read_box rtd _ = none

  unfoldable pub read_placement : ℕ → Scm → Option (Scm × Box)
  unfolding read_box
  read_placement rtd (pair w b) = elim (read_box rtd b) [ none ↦ none | some box ↦ some (w, box) ]
  read_placement rtd _ = none

  unfoldable pub placements : World → List ℕ → List Scm
  unfolding box_to_scheme
  placements o [] = []
  placements o (t ∷ ts) =
      let rest = placements o ts in
      elim (o.window_of t) [
        | none ↦ rest
        | some w ↦
            if is_false (box_to_scheme o (o.position t))
            then rest
            else pair (handle window w) (box_to_scheme o (o.position t)) ∷ rest
      ]

  unfoldable pub placement_list : World → List ℕ → Scm
  unfolding placements list_of
  placement_list o ts = list_of (placements o ts)

  -- The live window that a handle names.
  unfoldable pub window_named : World → Scm → Option ℕ
  window_named o (handle window w) = if o.window_alive w then some w else none
  window_named o _ = none

  abbrev pub shows : World → ℕ → ℕ → Bool
  shows o w t = elim (o.window_of t) [ none ↦ false | some v ↦ v == w ]

  unfoldable pub target_showing : World → ℕ → List ℕ → Option ℕ
  target_showing o w [] = none
  target_showing o w (t ∷ ts) = if shows o w t then some t else target_showing o w ts

  -- The target of a placement, and the box to give it.
  unfoldable pub resolve : World → ℕ → List ℕ → Scm → Option (ℕ × Box)
  resolve o rtd ts v = elim (read_placement rtd v) [
    | none ↦ none
    | some (named, box) ↦ elim (window_named o named) [
      | none ↦ none
      | some w ↦ elim (target_showing o w ts) [ none ↦ none | some t ↦ some (t, box) ]
    ]
  ]

  -- The loop: the positions that were set before it ended, and whether it ran to the end.
  unfoldable pub apply_each : World → ℕ → List ℕ → Scm → List (ℕ × Box) × Bool
  apply_each o rtd ts (pair v rest) = elim (resolve o rtd ts v) [
    | none ↦ ([], false)
    | some placed ↦ let tail = apply_each o rtd ts rest in (placed ∷ tail.0, tail.1)
  ]
  apply_each o rtd ts _ = ([], true)

  unfoldable pub apply_boxes : World → List ℕ → Scm → List (ℕ × Box) × Bool
  apply_boxes o ts result =
      if not (is_pair result)
      then ([], is_nil result)
      else elim o.box_rtd [ none ↦ ([], false) | some rtd ↦ apply_each o rtd ts result ]
