-- ===== src/Config/MonitorRules.antt =====
-- Monitor rules: `hlMonitorBegin` to `hlMonitorCommit` of cpp/Config.cpp. A double is its bit pattern. The
-- compositor's rule parser, its checks of numbers and the value on the Lua stack are parameters.
pub mod Sessions
use hyprscheme.Base.{
  ℕ, ◌==◌, Bool, true, false, not, ◌||◌, ◌&&◌, Option, none, some, List, [], ◌∷◌, ◌++◌,
  if◌then◌else◌, Text, codes, text_eq, is_empty,
}
use hyprscheme.Base.Int.{ℤ, pos, negsuc}
use hyprscheme.Desktop.Workspaces.{or_empty}
use hyprscheme.Rule.Store.{hyprland_name}

-- A rule: `parsed` stands for the fields that the compositor's parser sets.
pub record MonitorRule : Type 0 where
  pub name : Text
  pub parsed : ℕ
  pub sdr_eotf : ℕ
  pub transform : ℤ
  pub enable_10bit : Bool
  pub vrr : Option ℤ
  pub supports_wide_color : ℤ
  pub supports_hdr : ℤ
  pub sdr_max_luminance : ℤ
  pub max_luminance : ℤ
  pub max_avg_luminance : ℤ
  pub sdr_brightness : ℕ
  pub sdr_saturation : ℕ
  pub sdr_min_luminance : ℕ
  pub min_luminance : ℕ
  pub disabled : Bool
  pub reserved : ℕ

-- The parser: the rule it starts with for an output, what a text does to a field's part of the rule and
-- whether it takes it, and its error text; the mirror and the transfer function of a text; the checks of
-- integers and doubles, which name an error; the integer that a double is cut to; the error text of an area
-- that does not parse, and whether a rule takes an area; and the manager's rules once one is added.
pub record Parser : Type 0 where
  pub fresh : Text → MonitorRule
  pub parse : Text → Text → ℕ → ℕ × Bool
  pub error_of : Text → Text → Option Text
  pub mirror_of : Text → ℕ → ℕ
  pub eotf_of : Text → ℕ
  pub int_check : Option ℤ → Option ℤ → ℤ → Option Text
  pub float_check : ℕ → Option Text
  pub truncated : ℕ → ℤ
  pub area_error : Text
  pub takes_area : ℕ → Bool
  pub with_rule : MonitorRule → List MonitorRule → List MonitorRule

-- The rule that is being built, the rules of the manager, the refreshes that were
-- scheduled, and `g_configError`.
pub record MonitorRules : Type 0 where
  pub building : Option MonitorRule
  pub rules : List MonitorRule
  pub refreshes : List Text
  pub error : Text

unfoldable pub existing_rule : Text → List MonitorRule → Option MonitorRule
existing_rule t [] = none
existing_rule t (r ∷ rs) =
    let rest = existing_rule t rs in if text_eq r.name t then some r else rest

abbrev pub seed : Parser → Text → Option MonitorRule → MonitorRule
seed p output none = p.fresh output
seed p output (some r) = r

unfoldable pub monitor_begin : Parser → Bool → Option Text → MonitorRules → MonitorRules × ℤ
unfolding existing_rule
monitor_begin p up output s =
    if not up
    then (s, negsuc 0)
    else if is_empty (or_empty output)
    then (record s { error = codes "hl-monitor-rule-add!: output name required" }, negsuc 0)
    else (
      record s {
        building = some (seed p (or_empty output) (existing_rule (or_empty output) s.rules));
      },
      pos 0,
    )

-- What a field comes to: the rule with it, or an answer and an error text.
pub data FieldResult : Type 0 where
  field_set : MonitorRule → FieldResult
  field_refused : ℤ → Text → MonitorRule → FieldResult

-- The fields that the parser reads: mode, position, scale, cm, icc.
abbrev pub is_parsed : Text → Bool
is_parsed f =
    text_eq f (codes "mode")
    || (text_eq f (codes "position")
        || (text_eq f (codes "scale") || (text_eq f (codes "cm") || text_eq f (codes "icc"))))

abbrev pub error_or : Text → Option Text → Text
error_or why none = why
error_or why (some e) = e

abbrev pub parsed_field : Parser → Text → Text → MonitorRule → FieldResult
parsed_field p f v r =
    let (after, ok) = p.parse f v r.parsed in
    if ok
    then field_set (record r { parsed = after })
    else field_refused (negsuc 0)
        (error_or (codes "invalid value for '" ++ (f ++ codes "'")) (p.error_of f v))
        (record r { parsed = after })

unfoldable pub str_field : Parser → Text → Text → MonitorRule → FieldResult
str_field p f v r =
    if is_parsed f
    then parsed_field p f v r
    else if text_eq f (codes "mirror")
    then field_set (record r { parsed = p.mirror_of v r.parsed })
    else if text_eq f (codes "sdr_eotf")
    then field_set (record r { sdr_eotf = p.eotf_of v })
    else field_refused (negsuc 0)
        (codes "hl-monitor-rule-add!: unknown string field '" ++ (f ++ codes "'")) r

abbrev pub vrr_of : ℤ → Option ℤ
vrr_of (pos n) = some (pos n)
vrr_of (negsuc n) = none

abbrev pub is_ten : ℤ → Bool
is_ten (pos n) = n == 10
is_ten (negsuc n) = false

-- A check that names an error refuses with -2.
abbrev pub checked : Option Text → MonitorRule → MonitorRule → FieldResult
checked none r before = field_set r
checked (some why) r before =
    field_refused (negsuc 1) (if is_empty why then codes "invalid value" else why) before

-- The numeric fields, each with its check and its place in the rule.
unfoldable pub num_field : Parser → Text → ℕ → MonitorRule → FieldResult
num_field p f v r =
    let i = p.truncated v in
    if text_eq f (codes "transform")
    then checked (p.int_check (some (pos 0)) (some (pos 7)) i) (record r { transform = i }) r
    else if text_eq f (codes "bitdepth")
    then checked (p.int_check none none i) (record r { enable_10bit = is_ten i }) r
    else if text_eq f (codes "vrr")
    then checked (p.int_check (some (negsuc 0)) (some (pos 3)) i) (record r { vrr = vrr_of i }) r
    else if text_eq f (codes "supports_wide_color")
    then checked (p.int_check (some (negsuc 0)) (some (pos 1)) i)
        (record r { supports_wide_color = i }) r
    else if text_eq f (codes "supports_hdr")
    then checked (p.int_check (some (negsuc 0)) (some (pos 1)) i) (record r { supports_hdr = i }) r
    else if text_eq f (codes "sdr_max_luminance")
    then checked (p.int_check none none i) (record r { sdr_max_luminance = i }) r
    else if text_eq f (codes "max_luminance")
    then checked (p.int_check none none i) (record r { max_luminance = i }) r
    else if text_eq f (codes "max_avg_luminance")
    then checked (p.int_check none none i) (record r { max_avg_luminance = i }) r
    else if text_eq f (codes "sdrbrightness")
    then checked (p.float_check v) (record r { sdr_brightness = v }) r
    else if text_eq f (codes "sdrsaturation")
    then checked (p.float_check v) (record r { sdr_saturation = v }) r
    else if text_eq f (codes "sdr_min_luminance")
    then checked (p.float_check v) (record r { sdr_min_luminance = v }) r
    else if text_eq f (codes "min_luminance")
    then checked (p.float_check v) (record r { min_luminance = v }) r
    else field_refused (negsuc 0)
        (codes "hl-monitor-rule-add!: unknown numeric field '" ++ (f ++ codes "'")) r

abbrev pub bool_field : Text → Bool → MonitorRule → FieldResult
bool_field f v r =
    if text_eq f (codes "disabled")
    then field_set (record r { disabled = v })
    else field_refused (negsuc 0)
        (codes "hl-monitor-rule-add!: unknown bool field '" ++ (f ++ codes "'")) r

abbrev pub is_gap : Text → Bool
is_gap f = text_eq f (codes "reserved") || text_eq f (codes "reserved_area")

unfoldable pub gap_field : Parser → Text → Option ℕ → MonitorRule → FieldResult
gap_field p f area r =
    if not (is_gap f)
    then field_refused (negsuc 0)
        (codes "hl-monitor-rule-add!: unknown gap field '" ++ (f ++ codes "'")) r
    else elim area [
      | none ↦
          field_refused (negsuc 1)
            (if is_empty p.area_error then codes "invalid reserved area" else p.area_error) r
      | some a ↦
          if p.takes_area a
          then field_set (record r { reserved = a })
          else field_refused (negsuc 1) (codes "invalid reserved area") r
    ]

-- A field of the rule that is being built; its Scheme name has dashes. A gap's area is the value on the
-- Lua stack, if it parses.
pub data FieldCall : Type 0 where
  str_call : Option Text → Option Text → FieldCall
  num_call : Option Text → ℕ → FieldCall
  bool_call : Option Text → Bool → FieldCall
  gap_call : Option Text → Option ℕ → FieldCall

unfoldable pub field_result : Parser → FieldCall → MonitorRule → FieldResult
unfolding str_field num_field gap_field hyprland_name
field_result p (str_call f v) r = str_field p (hyprland_name (or_empty f)) (or_empty v) r
field_result p (num_call f v) r = num_field p (hyprland_name (or_empty f)) v r
field_result p (bool_call f v) r = bool_field (hyprland_name (or_empty f)) v r
field_result p (gap_call f area) r = gap_field p (hyprland_name (or_empty f)) area r

abbrev pub set_field : MonitorRules → FieldResult → MonitorRules × ℤ
set_field s (field_set r) = (record s { building = some r }, pos 0)
set_field s (field_refused code why r) = (record s { building = some r; error = why }, code)

unfoldable pub monitor_field : Parser → Bool → FieldCall → MonitorRules → MonitorRules × ℤ
unfolding field_result
monitor_field p up c s = elim s.building [
  | none ↦ (s, negsuc 0)
  | some r ↦ if not up then (s, negsuc 0) else set_field s (field_result p c r)
]

unfoldable pub monitor_commit : Parser → Bool → MonitorRules → MonitorRules × ℤ
monitor_commit p up s = elim s.building [
  | none ↦ (s, negsuc 0)
  | some r ↦ if not up then (s, negsuc 0) else (
    record s {
      building = none;
      rules = p.with_rule r s.rules;
      refreshes = codes "monitor-states" ∷ s.refreshes;
    },
    pos 0,
  )
]
