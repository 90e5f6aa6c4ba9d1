-- ===== src/Layout/Grid.antt =====
-- `applyDefaultGrid` (cpp/SchemeLayout.cpp).
use hyprscheme.Base.{
  ℕ, zero, suc, ◌+◌, ◌-◌, ◌*◌, ◌/◌, ◌%◌, none, some, List, [], ◌∷◌, leb, true, false, length,
}
use Prim.Native.Nat.{max}
use hyprscheme.Base.Int.{pos}
use hyprscheme.Layout.Geometry.{Box, Doubles, World}

-- The least number from `k` on, within the fuel, whose square is not below `n`.
unfoldable pub sqrt_from : ℕ → ℕ → ℕ → ℕ
sqrt_from zero k n = k
sqrt_from (suc fuel) k n = elim (leb n (k * k)) [ true ↦ k | false ↦ sqrt_from fuel (suc k) n ]

-- `ceil(sqrt(n))`, which a double has exactly for a number of windows below 2^52.
unfoldable pub ceil_sqrt : ℕ → ℕ
unfolding sqrt_from
ceil_sqrt n = sqrt_from n 0 n

unfoldable pub grid_cols : ℕ → ℕ
unfolding ceil_sqrt
grid_cols n = max 1 (ceil_sqrt n)

-- `ceil(n / cols)`.
unfoldable pub grid_rows : ℕ → ℕ
unfolding grid_cols
grid_rows n = max 1 ((n + (grid_cols n - 1)) / grid_cols n)

unfoldable pub grid_col : ℕ → ℕ → ℕ
grid_col n i = i % grid_cols n

unfoldable pub grid_row : ℕ → ℕ → ℕ
grid_row n i = i / grid_cols n

module _ (fpu : Doubles) where
  open fpu use {of_int, add, mul, div, no_negative_size}

  -- `start + extent * k / parts`.
  unfoldable pub offset : ℕ → ℕ → ℕ → ℕ → ℕ
  offset start extent k parts = add start (div (mul extent (of_int (pos k))) (of_int (pos parts)))

  unfoldable pub grid_cell : Box → ℕ → ℕ → Box
  unfolding offset grid_col grid_row
  grid_cell area n i = no_negative_size (record {
    x = offset area.x area.w (grid_col n i) (grid_cols n);
    y = offset area.y area.h (grid_row n i) (grid_rows n);
    w = div area.w (of_int (pos (grid_cols n)));
    h = div area.h (of_int (pos (grid_rows n)));
  })

  -- The loop over the targets from the `i`-th on, of `n` in all.
  unfoldable pub grid_from : Box → ℕ → ℕ → List ℕ → List (ℕ × Box)
  grid_from area n i [] = []
  grid_from area n i (t ∷ ts) = (t, grid_cell area n i) ∷ grid_from area n (suc i) ts

  unfoldable pub apply_default_grid : World → List ℕ → List (ℕ × Box)
  unfolding grid_from
  apply_default_grid o ts = elim o.space [ none ↦ [] | some area ↦ grid_from area (length ts) 0 ts ]
