-- ===== src/Layout/Fallback.antt =====
-- What a pass leaves behind when the layout's callback fails.
use hyprscheme.Base.{
  ℕ, zero, suc, ◌+◌, ◌≡◌, refl, Bool, true, false, Option, none, some, List, [], ◌∷◌, ◌++◌, ◌==◌,
  if◌then◌else◌, length, get_elem?, member, IsDistinct, arith, is_some, is_empty,
}
use hyprscheme.Layout.Order.{live_targets}
use hyprscheme.Layout.Geometry.{Box, Doubles, World, Algorithm}
use hyprscheme.Layout.Grid.{grid_cell, grid_from, apply_default_grid}
use hyprscheme.Layout.Pass.{call_layout, or_grid, recalculate}

-- The box that a target is left with: the last that was set.
unfoldable pub last_box : ℕ → List (ℕ × Box) → Option Box
last_box t [] = none
last_box t ((u, b) ∷ ps) =
    let later = last_box t ps in if is_some later then later else if u == t then some b else none

last_box-append :
    (t : ℕ) (ps qs : List (ℕ × Box)) {b : Box}
    → last_box t qs ≡ some b
    → last_box t (ps ++ qs) ≡ some b
unfolding last_box
last_box-append t [] qs h = h
last_box-append t ((u, c) ∷ ps) qs {b} h = ground (arith, last_box-append t ps qs {b = b} h)

module _ (fpu : Doubles) (area : Box) (n : ℕ) where
  last_box-grid_from-none :
      (t i : ℕ) (ts : List ℕ) → member t ts ≡ false → last_box t (grid_from fpu area n i ts) ≡ none
  unfolding last_box grid_from
  last_box-grid_from-none t i [] h = refl
  last_box-grid_from-none t i (u ∷ ts) h = ground (arith, last_box-grid_from-none t (suc i) ts)

  last_box-grid_from :
      (ts : List ℕ) (i k t : ℕ)
      → IsDistinct ts
      → get_elem? ts k ≡ some t
      → last_box t (grid_from fpu area n i ts) ≡ some (grid_cell fpu area n (i + k))
  unfolding last_box grid_from
  last_box-grid_from [] i k t d h = cc
  last_box-grid_from (u ∷ ts) i zero t d h =
      let e : i + 0 ≡ i = omega arith in rw e (ground (arith, last_box-grid_from-none t (suc i) ts))
  last_box-grid_from (u ∷ ts) i (suc k) t d h =
      let e : i + suc k ≡ suc i + k = omega arith in
      rw e (ground (arith, last_box-grid_from ts (suc i) k t d.1 h))

not_empty : (ts : List ℕ) (k : ℕ) {t : ℕ} → get_elem? ts k ≡ some t → is_empty ts ≡ false
not_empty [] k h = cc
not_empty (u ∷ ts) k h = refl

module _ (fpu : Doubles) (o : World) where
  last_box-or_grid :
      (live : List ℕ) (attempt : List (ℕ × Box) × Bool) {area : Box} (k t : ℕ)
      → attempt.1 ≡ false
      → o.space ≡ some area
      → IsDistinct live
      → get_elem? live k ≡ some t
      → last_box t (or_grid fpu o live attempt) ≡ some (grid_cell fpu area (length live) k)
  unfolding or_grid apply_default_grid
  last_box-or_grid live (ps, true) k t f s d h = cc
  last_box-or_grid live (ps, false) {area} k t f s d h =
      let z : 0 + k ≡ k = omega arith in
      rw s (
        last_box-append t ps (grid_from fpu area (length live) 0 live)
          (rw z at (last_box-grid_from fpu area (length live) live 0 k t d h)))

  -- When the callback's call does not stand, a recalculation leaves every live target in its own cell
  -- of the default grid, whatever positions the failed answer had already set; the layout has a work
  -- area and no target stands twice in its order.
  pub recalculate-grid_cell :
      (s : Algorithm) {area : Box} (k t : ℕ)
      → (call_layout fpu o s.provider (live_targets o.alive s.targets)).1 ≡ false
      → o.space ≡ some area
      → IsDistinct (live_targets o.alive s.targets)
      → get_elem? (live_targets o.alive s.targets) k ≡ some t
      → last_box t (recalculate fpu o s).placed
        ≡ some (grid_cell fpu area (length (live_targets o.alive s.targets)) k)
  unfolding recalculate
  recalculate-grid_cell s k t f sp d h = rw (not_empty (live_targets o.alive s.targets) k h) (
      last_box-or_grid (live_targets o.alive s.targets)
        (call_layout fpu o s.provider (live_targets o.alive s.targets)) k t f sp d h)
