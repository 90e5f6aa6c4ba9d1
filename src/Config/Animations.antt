-- ===== src/Config/Animations.antt =====
-- Curves, animations and permissions: `hlBezierCurveAdd`, `hlSpringCurveAdd`, `hlAnimationSet` and
-- `hlPermissionAdd` of cpp/Config.cpp. The compositor's managers are parameters; a double is its bit pattern.
pub mod Curves
mod Tests
use hyprscheme.Base.{
  ℕ, Bool, true, false, not, ◌||◌, ◌&&◌, Option, none, some, List, [], ◌∷◌, ◌++◌, if◌then◌else◌,
  Text, codes, text_eq, is_empty,
}
use hyprscheme.Base.Int.{ℤ, pos, negsuc}
use hyprscheme.Desktop.Workspaces.{or_empty}

-- The animation manager and the animation tree: the curves that are there and how one is added, the leaves
-- of the tree, the error text of a style, if it has one, and the test `x <= 0.5`.
pub record Manager (M : Type 0) : Type 0 where
  pub bezier_exists : Text → M → Bool
  pub spring_exists : Text → M → Bool
  pub add_bezier : Text → ℕ → ℕ → ℕ → ℕ → M → M
  pub add_spring : Text → ℕ → ℕ → ℕ → M → M
  pub node_exists : Text → Bool
  pub style_error : Text → Text → Text
  pub at_most_half : ℕ → Bool

-- What a leaf of the tree is set to.
pub record Node : Type 0 where
  pub leaf : Text
  pub enabled : Bool
  pub speed : ℕ
  pub curve : Text
  pub style : Text

pub record Animations (M : Type 0) : Type 0 where
  pub curves : M
  pub nodes_set : List Node
  pub error : Text

module _ {M : Type 0} (g : Manager M) where
  abbrev pub fails : Text → Animations M → Animations M × ℤ
  fails why s = (record s { error = why }, negsuc 0)

  unfoldable pub bezier_curve_add :
      Bool → Option Text → ℕ → ℕ → ℕ → ℕ → Animations M → Animations M × ℤ
  bezier_curve_add up name x1 y1 x2 y2 s =
      if not up
      then (s, negsuc 0)
      else if is_empty (or_empty name)
      then fails (codes "hl-bezier-curve-add!: name required") s
      else (record s { curves = g.add_bezier (or_empty name) x1 y1 x2 y2 s.curves }, pos 0)

  unfoldable pub spring_curve_add : Bool → Option Text → ℕ → ℕ → ℕ → Animations M → Animations M × ℤ
  spring_curve_add up name stiffness damping mass s =
      if not up
      then (s, negsuc 0)
      else if is_empty (or_empty name)
      then fails (codes "hl-spring-curve-add!: name required") s
      else if g.at_most_half stiffness || (g.at_most_half damping || g.at_most_half mass)
      then fails (codes "hl-spring-curve-add!: stiffness, damping and mass must all be >= 0.5") s
      else (
        record s { curves = g.add_spring (or_empty name) stiffness damping mass s.curves },
        pos 0,
      )

  -- The empty curve is no curve.
  abbrev pub is_defined : Text → M → Bool
  is_defined curve m = is_empty curve || (g.bezier_exists curve m || g.spring_exists curve m)

  abbrev pub no_leaf : Text → Text
  no_leaf leaf = codes "hl-animation-add!: unknown animation leaf '" ++ (leaf ++ codes "'")

  abbrev pub no_curve : Text → Text
  no_curve curve =
      codes "hl-animation-add!: curve '"
      ++ (curve
          ++ codes
              "' is not defined (declare it with hl-bezier-curve-add! or hl-spring-curve-add!)")

  abbrev pub style_refusal : Text → Text → Text
  style_refusal leaf style = if is_empty style then [] else g.style_error leaf style

  -- A leaf that is there, with its curve and its style.
  unfoldable pub set_leaf : Node → Animations M → Animations M × ℤ
  set_leaf n s =
      if not (is_defined n.curve s.curves)
      then fails (no_curve n.curve) s
      else if not (is_empty (style_refusal n.leaf n.style))
      then fails (style_refusal n.leaf n.style) s
      else (record s { nodes_set = n ∷ s.nodes_set }, pos 0)

  unfoldable pub animation_set :
      Bool → Option Text → Bool → ℕ → Option Text → Option Text → Animations M → Animations M × ℤ
  unfolding set_leaf
  animation_set up leaf enabled speed curve style s =
      if not up
      then (s, negsuc 0)
      else if is_empty (or_empty leaf)
      then fails (codes "hl-animation-add!: leaf required") s
      else if not (g.node_exists (or_empty leaf))
      then fails (no_leaf (or_empty leaf)) s
      else set_leaf
          (record {
            leaf = or_empty leaf;
            enabled = enabled;
            speed = speed;
            curve = or_empty curve;
            style = or_empty style;
          })
          s

-- The compositor's permission types and modes, and the rules that were added, the newest first.
pub data PermissionType : Type 0 where
  screencopy cursor_position plugin_type keyboard input_capture : PermissionType

pub data PermissionMode : Type 0 where
  ask_mode allow_mode deny_mode : PermissionMode

pub record Permissions : Type 0 where
  pub permission_rules : List (Text × PermissionType × PermissionMode)
  pub error : Text

unfoldable pub permission_type : Text → Option PermissionType
permission_type t =
    if text_eq t (codes "screencopy")
    then some screencopy
    else if text_eq t (codes "cursorpos")
    then some cursor_position
    else if text_eq t (codes "plugin")
    then some plugin_type
    else if text_eq t (codes "keyboard") || text_eq t (codes "keeb")
    then some keyboard
    else if text_eq t (codes "input-capture")
    then some input_capture
    else none

unfoldable pub permission_mode : Text → Option PermissionMode
permission_mode m =
    if text_eq m (codes "ask")
    then some ask_mode
    else if text_eq m (codes "allow")
    then some allow_mode
    else if text_eq m (codes "deny")
    then some deny_mode
    else none

abbrev pub not_allowed : Text → Permissions → Permissions × ℤ
not_allowed why s = (record s { error = why }, negsuc 0)

abbrev pub unknown_permission : Text → Text → Text
unknown_permission t m =
    codes "hl-permission-add!: unknown type '" ++ (t ++ (codes "' or mode '" ++ (m ++ codes "'")))

abbrev pub add_rule :
    Text
    → Text
    → Text
    → Option PermissionType
    → Option PermissionMode
    → Permissions
    → Permissions × ℤ
add_rule binary t m (some type) (some mode) s =
    (record s { permission_rules = (binary, type, mode) ∷ s.permission_rules }, pos 0)
add_rule binary t m _ _ s = not_allowed (unknown_permission t m) s

-- `first_launch` is whether the manager is there and this is its first launch, `has_manager` whether the
-- permission manager is.
unfoldable pub permission_add :
    Bool → Bool → Bool → Option Text → Option Text → Option Text → Permissions → Permissions × ℤ
unfolding permission_type permission_mode
permission_add up first_launch has_manager binary t m s =
    if not up
    then (s, negsuc 0)
    else if not first_launch
    then not_allowed
        (codes
          "hl-permission-add!: permission rules only take effect at startup; set them in your config and restart")
        s
    else if not has_manager
    then not_allowed (codes "hl-permission-add!: permission manager unavailable") s
    else add_rule (or_empty binary) (or_empty t) (or_empty m) (permission_type (or_empty t))
        (permission_mode (or_empty m)) s
