-- ===== src/Gesture/Adding/Exactly.antt =====
-- Which gesture `hlSchemeGesture` of cpp/Gesture.cpp adds.
use hyprscheme.Base.{
  ℕ, ◌≡◌, refl, Bool, true, false, not, Option, none, some, ◌∷◌, ◌++◌, if◌then◌else◌, if_either,
  Text, codes,
}
use hyprscheme.Base.Int.{ℤ, pos, negsuc, fits_int64}
use hyprscheme.Scm.{Scm}
use hyprscheme.Exec.{ModsResult, mask_of, bad_mods, mods_mask_from_tokens}
use hyprscheme.Desktop.{Outcome, raised, answers}
use hyprscheme.Gesture.{Maker, Made, make_gesture, maker_from_address}
use hyprscheme.Gesture.Adding.{
  Spec, Manager, Gestures, or_empty, Call, spec_of, fails, invalid_direction, bad_action, give,
  make_at, make_recipe, with_spec, scheme_gesture,
}

-- What a call asks to add, if its direction, its modifiers, its recipe and the manager allow it.
abbrev pub taken : Manager → Spec → Made → Option (Spec × Made)
taken g spec made = elim (g.add_refusal spec made) [ some why ↦ none | none ↦ some (spec, made) ]

abbrev pub made_by : Manager → Spec → Scm → Option Maker → Option (Spec × Made)
made_by g spec recipe_args none = none
made_by g spec recipe_args (some m) =
    taken g spec (make_gesture g.one g.of_ratio g.print m recipe_args (g.dir_name spec.direction))

abbrev pub made_from : Manager → Spec → Scm → Option (Spec × Made)
made_from g spec (Scm.pair (Scm.int a) recipe_args) =
    if not (fits_int64 a) then none else made_by g spec recipe_args (maker_from_address g.address a)
made_from g spec _ = none

abbrev pub with_mask : Manager → Call → Scm → ℕ → ModsResult → Option (Spec × Made)
with_mask g c recipe dir (bad_mods why) = none
with_mask g c recipe dir (mask_of mask) = made_from g (spec_of c dir mask) recipe

abbrev pub in_direction : Manager → Call → Scm → Option ℕ → Option (Spec × Made)
in_direction g c recipe none = none
in_direction g c recipe (some dir) = with_mask g c recipe dir (mods_mask_from_tokens c.mods)

abbrev pub wanted : Bool → Option Manager → Scm → Call → Option (Spec × Made)
wanted up none recipe c = none
wanted up (some g) recipe c =
    if not up then none else in_direction g c recipe (g.dir_for (or_empty c.direction))

-- Exactly what was wanted was added, or nothing was.
abbrev pub IsAdded : Gestures → Option (Spec × Made) → Outcome (Gestures × ℤ) → Type 0
IsAdded s none raised = Unit
IsAdded s (some p) raised = ⊥
IsAdded s o hyprscheme.Desktop.crashed = ⊥
IsAdded s (some p) (answers (t, n)) = (n ≡ pos 0) × (t ≡ record s { added = p ∷ s.added })
IsAdded s none (answers (t, n)) = (n ≡ negsuc 0) × (t.added ≡ s.added) × (t.removed ≡ s.removed)

give-IsAdded :
    (g : Manager) (spec : Spec) (made : Made) (s : Gestures)
    → IsAdded s (taken g spec made) (give g spec made s)
unfolding give
give-IsAdded g spec made s = by_refusal (g.add_refusal spec made)
  where
    by_refusal :
        (o : Option Text)
        → IsAdded s
            (elim o [ some why ↦ none | none ↦ some (spec, made) ])
            (elim o [
              | some why ↦ fails (codes "hl-gesture: " ++ why) s
              | none ↦ answers (record s { added = (spec, made) ∷ s.added }, pos 0)
            ])
    by_refusal none = (refl, refl)
    by_refusal (some why) = (refl, refl, refl)

make_at-IsAdded :
    (g : Manager) (spec : Spec) (a : ℤ) (recipe_args : Scm) (s : Gestures)
    → IsAdded s
        (made_from g spec (Scm.pair (Scm.int a) recipe_args))
        (make_at g spec a recipe_args s)
unfolding make_at
make_at-IsAdded g spec a recipe_args s = by_size (not (fits_int64 a))
  where
    by_maker :
        (o : Option Maker)
        → IsAdded s (made_by g spec recipe_args o) (elim o [
          | none ↦ fails bad_action s
          | some m ↦
              give g spec
                (make_gesture g.one g.of_ratio g.print m recipe_args (g.dir_name spec.direction))
                s
        ])
    by_maker none = (refl, refl, refl)
    by_maker (some m) =
        give-IsAdded g spec
          (make_gesture g.one g.of_ratio g.print m recipe_args (g.dir_name spec.direction)) s

    by_size :
        (b : Bool)
        → IsAdded s
            (if b then none else made_by g spec recipe_args (maker_from_address g.address a))
            (if b then raised else elim (maker_from_address g.address a) [
              | none ↦ fails bad_action s
              | some m ↦
                  give g spec
                    (make_gesture g.one g.of_ratio g.print m recipe_args
                      (g.dir_name spec.direction))
                    s
            ])
    by_size true = tt
    by_size false = by_maker (maker_from_address g.address a)

make_recipe-IsAdded :
    (g : Manager) (spec : Spec) (recipe : Scm) (s : Gestures)
    → IsAdded s (made_from g spec recipe) (make_recipe g spec recipe s)
unfolding make_recipe
make_recipe-IsAdded g spec (Scm.pair (Scm.int a) recipe_args) s =
    make_at-IsAdded g spec a recipe_args s
make_recipe-IsAdded g spec (Scm.pair (Scm.flonum bits) recipe_args) s =
    if_either (IsAdded s none) (g.is_whole bits) (λ w. tt) (λ w. (refl, refl, refl))
make_recipe-IsAdded g spec _ s = (refl, refl, refl)

with_spec-IsAdded :
    (g : Manager) (c : Call) (recipe : Scm) (s : Gestures)
    → IsAdded s
        (in_direction g c recipe (g.dir_for (or_empty c.direction)))
        (with_spec g c (λ spec. make_recipe g spec recipe s) s)
unfolding with_spec
with_spec-IsAdded g c recipe s = by_direction (g.dir_for (or_empty c.direction))
  where
    by_mask :
        (dir : ℕ) (r : ModsResult)
        → IsAdded s (with_mask g c recipe dir r) (elim r [
          | bad_mods why ↦ fails why s
          | mask_of mask ↦ make_recipe g (spec_of c dir mask) recipe s
        ])
    by_mask dir (bad_mods why) = (refl, refl, refl)
    by_mask dir (mask_of mask) = make_recipe-IsAdded g (spec_of c dir mask) recipe s

    by_direction :
        (o : Option ℕ)
        → IsAdded s (in_direction g c recipe o) (elim o [
          | none ↦ fails (invalid_direction c.direction) s
          | some dir ↦ elim (mods_mask_from_tokens c.mods) [
            | bad_mods why ↦ fails why s
            | mask_of mask ↦ make_recipe g (spec_of c dir mask) recipe s
          ]
        ])
    by_direction none = (refl, refl, refl)
    by_direction (some dir) = by_mask dir (mods_mask_from_tokens c.mods)

-- A call that registers a gesture whose direction, modifiers and recipe are valid and which the manager
-- takes adds exactly the gesture that the recipe's maker makes, under the call's specification, and
-- answers 0; every other call answers -1 or ends in a Scheme error, and leaves what was added and
-- removed as it was.
pub scheme_gesture-IsAdded :
    (up : Bool) (m : Option Manager) (recipe : Scm) (c : Call) (s : Gestures)
    → IsAdded s (wanted up m recipe c) (scheme_gesture up m recipe c s)
unfolding scheme_gesture
scheme_gesture-IsAdded up none recipe c s = (refl, refl, refl)
scheme_gesture-IsAdded up (some g) recipe c s = by_up (not up)
  where
    by_up :
        (b : Bool)
        → IsAdded s
            (if b then none else in_direction g c recipe (g.dir_for (or_empty c.direction)))
            (if b
              then answers (s, negsuc 0)
              else with_spec g c (λ spec. make_recipe g spec recipe s) s)
    by_up true = (refl, refl, refl)
    by_up false = with_spec-IsAdded g c recipe s
