-- ===== src/Config/Device.antt =====
-- `hlSchemeDeviceAdd` of cpp/Config.cpp: the settings of an input device. A double is its bit pattern, and
-- its arithmetic is a parameter.
pub mod Settings
pub mod Readback
mod Tests
use hyprscheme.Base.{
  ℕ, ◌==◌, Bool, true, false, not, ◌||◌, ◌&&◌, Option, none, some, List, [], ◌∷◌, ◌++◌,
  if◌then◌else◌, Text, codes, text_eq, is_empty,
}
use hyprscheme.Base.Int.{ℤ, pos, negsuc}
use hyprscheme.Scm.{Scm, is_pair, datum_to_str}
use hyprscheme.Scm.Reads.{Read, read, refused, read_raised, then_read, Reals, number_of}
use hyprscheme.Desktop.{Outcome, raised, answers}
use hyprscheme.Desktop.Workspaces.{or_empty}
use hyprscheme.Rule.Store.{hyprland_name}

pub data Kind : Type 0 where
  bool_kind int_kind float_kind string_kind vec2_kind : Kind

-- A field, with its bounds if it has any.
pub record Field : Type 0 where
  pub name : Text
  pub kind : Kind
  pub lo : ℤ
  pub hi : ℤ

abbrev pub device_field : Text → Kind → ℤ → ℤ → Field
device_field name kind lo hi = record { name = name; kind = kind; lo = lo; hi = hi }

abbrev pub device_fields : List Field
device_fields =
    device_field (codes "sensitivity") float_kind (negsuc 0) (pos 1)
    ∷ device_field (codes "accel_profile") string_kind (pos 0) (pos 0)
    ∷ device_field (codes "rotation") int_kind (pos 0) (pos 359)
    ∷ device_field (codes "kb_file") string_kind (pos 0) (pos 0)
    ∷ device_field (codes "kb_layout") string_kind (pos 0) (pos 0)
    ∷ device_field (codes "kb_variant") string_kind (pos 0) (pos 0)
    ∷ device_field (codes "kb_options") string_kind (pos 0) (pos 0)
    ∷ device_field (codes "kb_rules") string_kind (pos 0) (pos 0)
    ∷ device_field (codes "kb_model") string_kind (pos 0) (pos 0)
    ∷ device_field (codes "repeat_rate") int_kind (pos 0) (pos 200)
    ∷ device_field (codes "repeat_delay") int_kind (pos 0) (pos 2000)
    ∷ device_field (codes "natural_scroll") bool_kind (pos 0) (pos 0)
    ∷ device_field (codes "tap_button_map") string_kind (pos 0) (pos 0)
    ∷ device_field (codes "numlock_by_default") bool_kind (pos 0) (pos 0)
    ∷ device_field (codes "resolve_binds_by_sym") bool_kind (pos 0) (pos 0)
    ∷ device_field (codes "disable_while_typing") bool_kind (pos 0) (pos 0)
    ∷ device_field (codes "clickfinger_behavior") bool_kind (pos 0) (pos 0)
    ∷ device_field (codes "middle_button_emulation") bool_kind (pos 0) (pos 0)
    ∷ device_field (codes "tap_to_click") bool_kind (pos 0) (pos 0)
    ∷ device_field (codes "tap_and_drag") bool_kind (pos 0) (pos 0)
    ∷ device_field (codes "drag_lock") int_kind (pos 0) (pos 2)
    ∷ device_field (codes "left_handed") bool_kind (pos 0) (pos 0)
    ∷ device_field (codes "scroll_method") string_kind (pos 0) (pos 0)
    ∷ device_field (codes "scroll_button") int_kind (pos 0) (pos 300)
    ∷ device_field (codes "scroll_button_lock") bool_kind (pos 0) (pos 0)
    ∷ device_field (codes "scroll_points") string_kind (pos 0) (pos 0)
    ∷ device_field (codes "scroll_factor") float_kind (pos 0) (pos 100)
    ∷ device_field (codes "transform") int_kind (pos 0) (pos 0)
    ∷ device_field (codes "output") string_kind (pos 0) (pos 0)
    ∷ device_field (codes "enabled") bool_kind (pos 0) (pos 0)
    ∷ device_field (codes "region_position") vec2_kind (pos 0) (pos 0)
    ∷ device_field (codes "absolute_region_position") bool_kind (pos 0) (pos 0)
    ∷ device_field (codes "region_size") vec2_kind (pos 0) (pos 0)
    ∷ device_field (codes "relative_input") bool_kind (pos 0) (pos 0)
    ∷ device_field (codes "active_area_position") vec2_kind (pos 0) (pos 0)
    ∷ device_field (codes "active_area_size") vec2_kind (pos 0) (pos 0)
    ∷ device_field (codes "flip_x") bool_kind (pos 0) (pos 0)
    ∷ device_field (codes "flip_y") bool_kind (pos 0) (pos 0)
    ∷ device_field (codes "drag_3fg") int_kind (pos 0) (pos 2)
    ∷ device_field (codes "keybinds") bool_kind (pos 0) (pos 0)
    ∷ device_field (codes "share_states") int_kind (pos 0) (pos 2)
    ∷ device_field (codes "release_pressed_on_close") bool_kind (pos 0) (pos 0)
    ∷ device_field (codes "tags") string_kind (pos 0) (pos 0)
    ∷ []

-- `CDeviceValue`.
pub data DeviceValue : Type 0 where
  bool_value : Bool → DeviceValue
  int_value : ℤ → DeviceValue
  float_value : ℕ → DeviceValue
  string_value : Text → DeviceValue
  vec2_value : ℕ → ℕ → DeviceValue

-- The integer that a double is cut to, its cast to the compositor's FLOAT, the order of doubles, and the text for bounds that a value is not
-- in.
pub record Doubles : Type 0 where
  pub reals : Reals
  pub truncated : ℕ → ℤ
  pub narrowed : ℕ → ℕ
  pub less : ℕ → ℕ → Bool
  pub out_of_range : ℤ → ℤ → Text

abbrev pub is_zero : ℤ → Bool
is_zero (pos n) = n == 0
is_zero (negsuc n) = false

abbrev pub is_outside : Doubles → Field → ℕ → Bool
is_outside n f d =
    not (is_zero f.lo && is_zero f.hi)
    && (n.less d (n.reals.to_double f.lo) || n.less (n.reals.to_double f.hi) d)

-- A number within the field's bounds.
unfoldable pub bounded_number : Doubles → Field → (ℕ → DeviceValue) → Scm → Read DeviceValue
unfolding number_of
bounded_number n f make v =
    then_read (number_of n.reals (codes "expected a number") v)
      (λ d. if is_outside n f d then refused (n.out_of_range f.lo f.hi) else read (make d))

abbrev pub no_pair : Text
no_pair = codes "expected a coordinate pair"

abbrev pub second_of : Scm → Scm
second_of (Scm.pair y rest) = y
second_of y = y

-- (x . y) or (x y), y first.
unfoldable pub coordinates : Doubles → Scm → Read DeviceValue
unfolding number_of
coordinates n (Scm.pair x tail) =
    then_read (number_of n.reals no_pair (second_of tail))
      (λ dy. then_read (number_of n.reals no_pair x) (λ dx. read (vec2_value dx dy)))
coordinates n _ = refused no_pair

abbrev pub bool_of : Scm → Read DeviceValue
bool_of (Scm.bool b) = read (bool_value b)
bool_of _ = refused (codes "expected #t or #f")

abbrev pub string_of : Scm → Read DeviceValue
string_of (Scm.string t) = read (string_value t)
string_of _ = refused (codes "expected a string")

unfoldable pub value_of_kind : Doubles → Field → Kind → Scm → Read DeviceValue
unfolding bounded_number coordinates
value_of_kind n f bool_kind v = bool_of v
value_of_kind n f string_kind v = string_of v
value_of_kind n f int_kind v = bounded_number n f (λ d. int_value (n.truncated d)) v
value_of_kind n f float_kind v = bounded_number n f (λ d. float_value (n.narrowed d)) v
value_of_kind n f vec2_kind v = coordinates n v

abbrev pub explained : Field → Read DeviceValue → Read (Text × DeviceValue)
explained f (read x) = read (f.name, x)
explained f (refused why) =
    refused (codes "hl-device-add!: field '" ++ (f.name ++ (codes "': " ++ why)))
explained f read_raised = read_raised

unfoldable pub device_value : Doubles → Field → Scm → Read (Text × DeviceValue)
unfolding value_of_kind
device_value n f v = explained f (value_of_kind n f f.kind v)

unfoldable pub field_named : Text → List Field → Option Field
field_named key [] = none
field_named key (f ∷ fs) =
    let rest = field_named key fs in if text_eq key f.name then some f else rest

-- A field of the plist: the key with underscores, and its value.
unfoldable pub read_field : Doubles → Scm → Scm → Read (Text × DeviceValue)
unfolding datum_to_str hyprland_name field_named device_value
read_field n k v = elim (datum_to_str k) [
  | none ↦ read_raised
  | some key ↦ elim (field_named (hyprland_name key) device_fields) [
    | none ↦ refused (codes "hl-device-add!: unknown field '" ++ (hyprland_name key ++ codes "'"))
    | some f ↦ device_value n f v
  ]
]

-- The loop over the plist: every field is read before one is written.
unfoldable pub read_settings : Doubles → Scm → Read (List (Text × DeviceValue))
unfolding read_field
read_settings n (Scm.pair k (Scm.pair v rest)) =
    let further = read_settings n rest in
    then_read (read_field n k v) (λ p. then_read further (λ ps. read (p ∷ ps)))
read_settings n (Scm.pair k _) = refused (codes "hl-device-add!: odd plist of fields")
read_settings n _ = read []

-- `insert_or_assign`.
unfoldable pub put_value :
    Text → DeviceValue → List (Text × DeviceValue) → List (Text × DeviceValue)
put_value k v [] = (k, v) ∷ []
put_value k v ((j, w) ∷ m) =
    let rest = put_value k v m in if text_eq j k then (j, v) ∷ m else (j, w) ∷ rest

unfoldable pub put_all :
    List (Text × DeviceValue) → List (Text × DeviceValue) → List (Text × DeviceValue)
unfolding put_value
put_all [] m = m
put_all ((k, v) ∷ l) m = put_all l (put_value k v m)

-- The device's configuration is made where there is none.
unfoldable pub put_device :
    Text
    → List (Text × DeviceValue)
    → List (Text × List (Text × DeviceValue))
    → List (Text × List (Text × DeviceValue))
unfolding put_all
put_device dev values [] = (dev, put_all values []) ∷ []
put_device dev values ((e, m) ∷ ds) =
    let rest = put_device dev values ds in
    if text_eq e dev then (e, put_all values m) ∷ ds else (e, m) ∷ rest

-- The configurations of the devices by name, the refreshes that were scheduled, and `g_configError`.
pub record Devices : Type 0 where
  pub configs : List (Text × List (Text × DeviceValue))
  pub refreshes : List Text
  pub error : Text

-- Spaces become dashes.
unfoldable pub dashed : Text → Text
dashed [] = []
dashed (b ∷ t) = (if b == b' ' then b'-' else b) ∷ dashed t

abbrev pub fails : Text → Devices → Outcome (Devices × ℤ)
fails why s = answers (record s { error = why }, negsuc 0)

unfoldable pub write_settings :
    Text → Read (List (Text × DeviceValue)) → Devices → Outcome (Devices × ℤ)
unfolding put_device
write_settings dev read_raised s = raised
write_settings dev (refused why) s = fails why s
write_settings dev (read values) s = answers (
  record s {
    configs = put_device dev values s.configs;
    refreshes = codes "input-devices" ∷ s.refreshes;
  },
  pos 0,
)

unfoldable pub device_add : Doubles → Bool → Option Text → Scm → Devices → Outcome (Devices × ℤ)
unfolding dashed read_settings write_settings
device_add n up name fields s =
    if not up || is_empty (or_empty name)
    then fails (codes "hl-device-add!: a device name is required") s
    else if not (is_pair fields)
    then fails
        (codes "hl-device-add!: fields must be a plist, e.g. (hl-device-add! NAME 'enabled #t)") s
    else write_settings (dashed (or_empty name)) (read_settings n fields) s
