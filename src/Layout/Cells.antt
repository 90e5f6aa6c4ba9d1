-- ===== src/Layout/Cells.antt =====
-- The cells of the default grid.
use hyprscheme.Base.{
  ℕ, zero, suc, ◌+◌, ◌-◌, ◌*◌, ◌/◌, ◌%◌, ◌≤◌, ◌<◌, ◌≡◌, refl, leb, arith, inl, inr, Bool-cases, ap,
}
use Prim.Native.Nat.{max}
use native.Mathlib.Nat.{div-add-mod, mod-lt}
use hyprscheme.Layout.Grid.{sqrt_from, ceil_sqrt, grid_cols, grid_rows, grid_col, grid_row}

-- `k` is the least number whose square is not below `n`.
abbrev IsCeilSqrt : ℕ → ℕ → Type 0
IsCeilSqrt n k = (n ≤ k * k) × ((j : ℕ) → j < k → j * j < n)

sqrt_from-IsCeilSqrt :
    (fuel k n : ℕ)
    → n ≤ k + fuel
    → ((j : ℕ) → j < k → j * j < n)
    → IsCeilSqrt n (sqrt_from fuel k n)
unfolding sqrt_from
sqrt_from-IsCeilSqrt zero k n h below = (square_bound k n (omega arith), below)
  where
    square_bound : (k n : ℕ) → n ≤ k → n ≤ k * k
    square_bound zero n h = omega arith
    square_bound (suc k) n h = grind arith
sqrt_from-IsCeilSqrt (suc fuel) k n h below = elim (Bool-cases (leb n (k * k))) [
  | inl e ↦ rw (e, sqrt_from) (ground arith, below)
  | inr e ↦
      rw (e, sqrt_from)
        (sqrt_from-IsCeilSqrt fuel (suc k) n (omega arith) (λ j hj. elim (Bool-cases (leb k j)) [
          | inl ge ↦ let same : j ≡ k = ground arith in rw same (ground arith)
          | inr lt ↦ below j (ground arith)
        ]))
]

ceil_sqrt-IsCeilSqrt : (n : ℕ) → IsCeilSqrt n (ceil_sqrt n)
unfolding ceil_sqrt
ceil_sqrt-IsCeilSqrt n = sqrt_from-IsCeilSqrt n 0 n (omega arith) (λ j h. elim h [ ])

pub grid_cols-pos : (n : ℕ) → 0 < grid_cols n
unfolding grid_cols
grid_cols-pos n = omega arith

grid_cols-square : (n : ℕ) → n ≤ grid_cols n * grid_cols n
unfolding grid_cols
grid_cols-square n = cover (ceil_sqrt n) (ceil_sqrt-IsCeilSqrt n).0
  where
    cover : (k : ℕ) → n ≤ k * k → n ≤ max 1 k * max 1 k
    cover zero h = omega arith
    cover (suc k) h = let e : max 1 (suc k) ≡ suc k = omega arith in rw e h

lt_of_mul-lt : (q r c : ℕ) → q * c < r * c → q < r
lt_of_mul-lt q r c h = elim (Bool-cases (leb r q)) [
  | inl ge ↦ let le : r ≤ q = ground arith in absurd (grind arith)
  | inr lt ↦ ground arith
]

-- As many rows as it takes to cover the targets.
rows_cover : (n c : ℕ) → 0 < c → n ≤ ((n + (c - 1)) / c) * c
rows_cover n c h = omega (arith, div-add-mod (n + (c - 1)) c, mod-lt (n + (c - 1)) h)

row_lt : (n c i : ℕ) → 0 < c → i < n → i / c < max 1 ((n + (c - 1)) / c)
row_lt n c i hc hi =
    let low : (i / c) * c ≤ i = omega (arith, div-add-mod i c) in
    let step : i / c < (n + (c - 1)) / c =
      lt_of_mul-lt (i / c) ((n + (c - 1)) / c) c (omega (arith, rows_cover n c hc)) in
    omega arith

-- Each target of the grid has a cell inside it, and no two targets have the same cell.
pub grid_cells_distinct :
    (n i j : ℕ)
    → i < n
    → (grid_col n i < grid_cols n)
      × (grid_row n i < grid_rows n)
      × (grid_col n i ≡ grid_col n j → grid_row n i ≡ grid_row n j → i ≡ j)
unfolding grid_col grid_row grid_rows
grid_cells_distinct n i j h =
    (mod-lt i (grid_cols-pos n), row_lt n (grid_cols n) i (grid_cols-pos n) h, same)
  where
    same : i % grid_cols n ≡ j % grid_cols n → i / grid_cols n ≡ j / grid_cols n → i ≡ j
    same p q = omega (
      arith,
      p,
      ap (λ (t : ℕ). grid_cols n * t) q,
      div-add-mod i (grid_cols n),
      div-add-mod j (grid_cols n),
    )

last_row_used : (n c : ℕ) → 0 < c → 0 < n → (max 1 ((n + (c - 1)) / c) - 1) * c < n
last_row_used n c hc hn = used ((n + (c - 1)) / c) refl
  where
    used : (q : ℕ) → (n + (c - 1)) / c ≡ q → (max 1 q - 1) * c < n
    used zero e = omega arith
    used (suc q) e =
        let m : max 1 (suc q) - 1 ≡ q = omega arith in
        rw m (omega (arith, div-add-mod (n + (c - 1)) c, ap (λ (t : ℕ). c * t) e))

grid_cols_least : (n k : ℕ) → 0 < k → n ≤ k * k → grid_cols n ≤ k
unfolding grid_cols
grid_cols_least n k hk h = elim (Bool-cases (leb (ceil_sqrt n) k)) [
  | inl le ↦ ground arith
  | inr gt ↦ absurd (omega (arith, (ceil_sqrt-IsCeilSqrt n).1 k (ground arith)))
]

-- The grid of `n` targets is the smallest that is at least as wide as high: it has the least number
-- of columns whose square covers them, its rows cover them, and with one row less they do not fit.
pub grid_least :
    (n : ℕ)
    → 0 < n
    → (n ≤ grid_cols n * grid_cols n)
      × ((k : ℕ) → 0 < k → n ≤ k * k → grid_cols n ≤ k)
      × (n ≤ grid_rows n * grid_cols n)
      × ((grid_rows n - 1) * grid_cols n < n)
unfolding grid_rows
grid_least n h = (
  grid_cols-square n,
  grid_cols_least n,
  covered,
  last_row_used n (grid_cols n) (grid_cols-pos n) h,
)
  where
    covered : n ≤ max 1 ((n + (grid_cols n - 1)) / grid_cols n) * grid_cols n
    covered =
        at_least ((n + (grid_cols n - 1)) / grid_cols n)
          (rows_cover n (grid_cols n) (grid_cols-pos n))
      where
        at_least : (q : ℕ) → n ≤ q * grid_cols n → n ≤ max 1 q * grid_cols n
        at_least zero e = omega arith
        at_least (suc q) e = let same : max 1 (suc q) ≡ suc q = omega arith in rw same e
