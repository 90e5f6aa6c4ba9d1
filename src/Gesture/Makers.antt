-- ===== src/Gesture/Makers.antt =====
-- The accessors of the makers' addresses in cpp/Gesture.cpp, which the constructors of a recipe call.
use hyprscheme.Base.{
  ℕ, ◌≡◌, refl, ap, sym, ◌∙◌, true, Option, none, some, List, [], ◌∷◌, if_either, arith,
}
use mathlib.Core.List.{Memᴰ}
use mathlib.Core.List.Memᴰ.{head, tail}
use hyprscheme.Base.Int.{ℤ, pos, negsuc, fits_int64}
use hyprscheme.Scm.{Scm}
use hyprscheme.Keys.Chord.{Mask}
use hyprscheme.Exec.{ModsResult, bad_mods, mask_of, mods_mask_from_tokens}
use hyprscheme.Desktop.{Outcome}
use hyprscheme.Gesture.{
  Maker, workspace_swipe, move, resize, close, scroll_move, float, fullscreen, special, cursor_zoom,
  custom, make_gesture, same_number, maker_among, maker_from_address, all_makers,
}
use hyprscheme.Gesture.Adding.{
  Manager, Spec, Gestures, Call, spec_of, or_empty, fails, invalid_direction, give, make_at,
  make_recipe, with_spec, scheme_gesture,
}

-- `makerAddr`, which each of the ten accessors hands its own maker.
unfoldable pub maker_addr : (Maker → ℤ) → Maker → Scm
maker_addr address m = Scm.int (address m)

same_number_sound : (a b : ℤ) → same_number a b ≡ true → a ≡ b
same_number_sound (pos m) (pos n) h = ap pos (ground arith)
same_number_sound (pos m) (negsuc n) h = ground arith
same_number_sound (negsuc m) (pos n) h = ground arith
same_number_sound (negsuc m) (negsuc n) h = ap negsuc (ground arith)

same_number_refl : (a : ℤ) → same_number a a ≡ true
same_number_refl (pos m) = ground arith
same_number_refl (negsuc m) = ground arith

-- Each maker is among those that the search goes through.
maker_listed : (m : Maker) → Memᴰ m all_makers
maker_listed workspace_swipe = head refl
maker_listed move = tail (head refl)
maker_listed resize = tail (tail (head refl))
maker_listed close = tail (tail (tail (head refl)))
maker_listed scroll_move = tail (tail (tail (tail (head refl))))
maker_listed float = tail (tail (tail (tail (tail (head refl)))))
maker_listed fullscreen = tail (tail (tail (tail (tail (tail (head refl))))))
maker_listed special = tail (tail (tail (tail (tail (tail (tail (head refl)))))))
maker_listed cursor_zoom = tail (tail (tail (tail (tail (tail (tail (tail (head refl))))))))
maker_listed custom = tail (tail (tail (tail (tail (tail (tail (tail (tail (head refl)))))))))

module _ (address : Maker → ℤ) (apart : (m n : Maker) → address m ≡ address n → m ≡ n) where
  maker_among-found :
      (m : Maker) (ms : List Maker) → Memᴰ m ms → maker_among address (address m) ms ≡ some m
  unfolding maker_among
  maker_among-found m [] among = elim among [ ]
  maker_among-found m (k ∷ ms) (head e) =
      if_either (λ o. o ≡ some m) (same_number (address m) (address k)) (λ h. ap some (sym e))
        (λ h. ground (arith, h, ap address e, same_number_refl (address m)))
  maker_among-found m (k ∷ ms) (tail among) =
      if_either (λ o. o ≡ some m) (same_number (address m) (address k))
        (λ e. ap some (sym (apart m k (same_number_sound (address m) (address k) e))))
        (λ e. maker_among-found m ms among)

with_spec-go :
    (g : Manager) (c : Call) (go : Spec → Outcome (Gestures × ℤ)) (s : Gestures) (dir : ℕ)
    (mask : Mask)
    → g.dir_for (or_empty c.direction) ≡ some dir
    → mods_mask_from_tokens c.mods ≡ mask_of mask
    → with_spec g c go s ≡ go (spec_of c dir mask)
unfolding with_spec
with_spec-go g c go s dir mask direction mods = ap by_direction direction ∙ ap (by_mods dir) mods
  where
    by_mods : ℕ → ModsResult → Outcome (Gestures × ℤ)
    by_mods dir (bad_mods why) = fails why s
    by_mods dir (mask_of mask) = go (spec_of c dir mask)

    by_direction : Option ℕ → Outcome (Gestures × ℤ)
    by_direction none = fails (invalid_direction c.direction) s
    by_direction (some dir) = by_mods dir (mods_mask_from_tokens c.mods)

make_at-maker :
    (g : Manager) (spec : Spec) (a : ℤ) (m : Maker) (recipe_args : Scm) (s : Gestures)
    → fits_int64 a ≡ true
    → maker_from_address g.address a ≡ some m
    → make_at g spec a recipe_args s
      ≡ give g spec
          (make_gesture g.one g.of_ratio g.print m recipe_args (g.dir_name spec.direction))
          s
unfolding make_at
make_at-maker g spec a m recipe_args s fits found = rw (fits, found) refl

-- A recipe of a maker's address, where the makers stand at different addresses that 64 bits hold and the
-- call's direction and modifiers are valid, the interpreter up: whatever follows the address, the
-- manager is given the gesture that this very maker makes of it, under the call's specification.
pub scheme_gesture-maker_addr :
    (g : Manager) (c : Call) (s : Gestures) (m : Maker) (recipe_args : Scm) (dir : ℕ) (mask : Mask)
    → ((m n : Maker) → g.address m ≡ g.address n → m ≡ n)
    → fits_int64 (g.address m) ≡ true
    → g.dir_for (or_empty c.direction) ≡ some dir
    → mods_mask_from_tokens c.mods ≡ mask_of mask
    → scheme_gesture true (some g) (Scm.pair (maker_addr g.address m) recipe_args) c s
      ≡ give g
          (spec_of c dir mask)
          (make_gesture g.one g.of_ratio g.print m recipe_args (g.dir_name dir))
          s
unfolding scheme_gesture with_spec make_recipe make_at maker_addr maker_from_address
scheme_gesture-maker_addr g c s m recipe_args dir mask apart fits direction mods =
    with_spec-go g c (λ spec. make_recipe g spec (Scm.pair (maker_addr g.address m) recipe_args) s)
      s dir mask direction mods
    ∙ make_at-maker g (spec_of c dir mask) (g.address m) m recipe_args s fits
        (maker_among-found g.address apart m all_makers (maker_listed m))
