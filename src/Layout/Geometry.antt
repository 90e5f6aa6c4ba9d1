-- ===== src/Layout/Geometry.antt =====
-- Boxes, the arithmetic on doubles that cpp/SchemeLayout.cpp uses, and what a pass of a layout finds
-- in the compositor and in the Scheme side.
use hyprscheme.Base.{ℕ, Bool, Option, List, Text}
use hyprscheme.Base.Int.{ℤ}
use hyprscheme.Scm.{Scm}

-- `CBox`: four doubles, each its bit pattern.
pub record Box : Type 0 where
  pub x : ℕ
  pub y : ℕ
  pub w : ℕ
  pub h : ℕ

-- Operations on doubles, of libguile and of `CBox`, which the code calls and does not define.
pub record Doubles : Type 0 where
  pub to_double : Scm → ℕ
  pub of_int : ℤ → ℕ
  pub lround : ℕ → ℤ
  pub add : ℕ → ℕ → ℕ
  pub mul : ℕ → ℕ → ℕ
  pub div : ℕ → ℕ → ℕ
  pub no_negative_size : Box → Box

-- `space` is the work area, if the algorithm's parent and its space are there. `box_rtd` is the record
-- type `hl-box-rtd` and `make_box` the procedure `hl-box`, if they are bound. The last three are the
-- Scheme procedures `hl--layout-recalculate`, `hl--layout-resize` and `hl--layout-msg`.
pub record World : Type 0 where
  pub alive : ℕ → Bool
  pub window_of : ℕ → Option ℕ
  pub window_alive : ℕ → Bool
  pub position : ℕ → Box
  pub space : Option Box
  pub box_rtd : Option ℕ
  pub make_box : Option (ℤ → ℤ → ℤ → ℤ → Scm)
  pub layout_recalculate : Scm → Scm → Scm
  pub layout_resize : Scm → Scm → Scm
  pub layout_msg_fn : Scm → Text → Scm

-- `SSchemeLayoutProvider`.
pub record Provider : Type 0 where
  pub name : Text
  pub active : Bool
  pub did_error : Bool
  pub spec : Scm

-- `CSchemeTiledAlgorithm`; `layout_add` makes it with a provider that is not null.
pub record Algorithm : Type 0 where
  pub provider : Provider
  pub targets : List ℕ
