-- ===== src/Gesture/Adding.antt =====
-- Registering and removing gestures: `hlSchemeGesture` and `hlSchemeGestureRemove` of cpp/Gesture.cpp.
pub mod Exactly
use hyprscheme.Base.{
  ℕ, suc, ◌-◌, ◌^◌, ◌≡◌, refl, Bool, not, Option, none, some, List, [], ◌∷◌, ◌++◌, if◌then◌else◌,
  if_either, Text, codes, text_eq, ◌⊎◌, inl, inr,
}
use hyprscheme.Base.Int.{ℤ, pos, negsuc, fits_int64}
use hyprscheme.Scm.{Scm}
use hyprscheme.Keys.Chord.{Mask}
use hyprscheme.Exec.{ModsResult, mask_of, bad_mods, mods_mask_from_tokens}
use hyprscheme.Desktop.{Outcome, raised, answers}
use hyprscheme.Gesture.{Maker, Made, make_gesture, maker_from_address}

-- What a gesture is registered under. The scale is narrowed to a float by the compositor's side.
pub record Spec : Type 0 where
  pub fingers : ℕ
  pub direction : ℕ
  pub mods : Mask
  pub scale : ℕ
  pub disable_inhibit : Bool

-- The gesture manager: a direction's number, if the text names one, its name, and the error with which
-- it refuses to add or to remove; the makers' addresses; the format of a double, the pattern of 1.0
-- and the double of a ratio; and which patterns are whole numbers.
pub record Manager : Type 0 where
  pub dir_for : Text → Option ℕ
  pub dir_name : ℕ → Text
  pub add_refusal : Spec → Made → Option Text
  pub remove_refusal : Spec → Option Text
  pub address : Maker → ℤ
  pub print : ℕ → Text
  pub one : ℕ
  pub of_ratio : ℤ → ℕ → ℕ
  pub is_whole : ℕ → Bool

-- The gestures that the manager was given and the specifications that it removed, the newest first,
-- and `g_configError`.
pub record Gestures : Type 0 where
  pub added : List (Spec × Made)
  pub removed : List Spec
  pub error : Text

abbrev pub or_empty : Option Text → Text
or_empty none = []
or_empty (some t) = t

-- `sc<size_t>` of an int.
abbrev pub as_size : ℤ → ℕ
as_size (pos n) = n
as_size (negsuc n) = 2 ^ 64 - suc n

-- What a call is given besides the recipe.
pub record Call : Type 0 where
  pub fingers : ℤ
  pub direction : Option Text
  pub mods : Scm
  pub scale : ℕ
  pub disable_inhibit : Bool

abbrev pub spec_of : Call → ℕ → Mask → Spec
spec_of c dir mask = record {
  fingers = as_size c.fingers;
  direction = dir;
  mods = mask;
  scale = c.scale;
  disable_inhibit = c.disable_inhibit;
}

abbrev pub fails : Text → Gestures → Outcome (Gestures × ℤ)
fails why s = answers (record s { error = why }, negsuc 0)

abbrev pub invalid_direction : Option Text → Text
invalid_direction t = codes "hl-gesture: invalid direction '" ++ (or_empty t ++ codes "'")

abbrev pub no_action : Text
no_action =
    codes "hl-gesture: 'action is not a gesture action (see the hl-make-*-gesture constructors)"

abbrev pub bad_action : Text
bad_action =
    codes
      "hl-gesture: 'action is not a valid gesture action (see the hl-make-*-gesture constructors)"

-- The manager takes the gesture that a maker made.
unfoldable pub give : Manager → Spec → Made → Gestures → Outcome (Gestures × ℤ)
give g spec made s = elim (g.add_refusal spec made) [
  | some why ↦ fails (codes "hl-gesture: " ++ why) s
  | none ↦ answers (record s { added = (spec, made) ∷ s.added }, pos 0)
]

-- The maker at an address, which is cast to 64 bits first.
unfoldable pub make_at : Manager → Spec → ℤ → Scm → Gestures → Outcome (Gestures × ℤ)
unfolding give maker_from_address make_gesture
make_at g spec a recipe_args s =
    if not (fits_int64 a) then raised else elim (maker_from_address g.address a) [
      | none ↦ fails bad_action s
      | some m ↦
          give g spec
            (make_gesture g.one g.of_ratio g.print m recipe_args (g.dir_name spec.direction)) s
    ]

-- A recipe is a pair of a maker's address and its arguments.
unfoldable pub make_recipe : Manager → Spec → Scm → Gestures → Outcome (Gestures × ℤ)
unfolding make_at
make_recipe g spec (Scm.pair (Scm.int a) recipe_args) s = make_at g spec a recipe_args s
make_recipe g spec (Scm.pair (Scm.flonum bits) recipe_args) s =
    if g.is_whole bits then raised else fails no_action s
make_recipe g spec _ s = fails no_action s

-- The direction and the modifiers are read before anything else.
unfoldable pub with_spec :
    Manager → Call → (Spec → Outcome (Gestures × ℤ)) → Gestures → Outcome (Gestures × ℤ)
unfolding mods_mask_from_tokens
with_spec g c go s = elim (g.dir_for (or_empty c.direction)) [
  | none ↦ fails (invalid_direction c.direction) s
  | some dir ↦ elim (mods_mask_from_tokens c.mods) [
    | bad_mods why ↦ fails why s
    | mask_of mask ↦ go (spec_of c dir mask)
  ]
]

-- The manager is `none` when the compositor has none.
unfoldable pub scheme_gesture :
    Bool → Option Manager → Scm → Call → Gestures → Outcome (Gestures × ℤ)
unfolding with_spec make_recipe
scheme_gesture up none recipe c s = answers (s, negsuc 0)
scheme_gesture up (some g) recipe c s =
    if not up then answers (s, negsuc 0) else with_spec g c (λ spec. make_recipe g spec recipe s) s

-- A gesture that is not there is told apart by the manager's text.
unfoldable pub remove_spec : Manager → Spec → Gestures → Outcome (Gestures × ℤ)
remove_spec g spec s = elim (g.remove_refusal spec) [
  | none ↦ answers (record s { removed = spec ∷ s.removed }, pos 0)
  | some why ↦
      if text_eq why (codes "Can't remove a non-existent gesture")
      then answers (s, pos 1)
      else fails (codes "hl-gesture: " ++ why) s
]

unfoldable pub gesture_remove : Bool → Option Manager → Call → Gestures → Outcome (Gestures × ℤ)
unfolding with_spec remove_spec
gesture_remove up none c s = answers (s, negsuc 0)
gesture_remove up (some g) c s =
    if not up then answers (s, negsuc 0) else with_spec g c (λ spec. remove_spec g spec s) s
