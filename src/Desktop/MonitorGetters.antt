-- ===== src/Desktop/MonitorGetters.antt =====
-- The getters of cpp/Monitor.cpp. A double is its bit pattern.
use hyprscheme.Base.{
  ℕ, ◌==◌, Bool, true, false, not, Option, none, some, List, [], ◌∷◌, ◌++◌, if◌then◌else◌, Text,
  codes, decimal,
}
use hyprscheme.Scm.{Scm, Family, list_of}
use hyprscheme.Desktop.{
  Outcome, answers, then_with, Monitor, Sides, Mode, Backend, drm, wayland, headless, null,
  other_backend, Desktop, false_value, bool_result, monitor_handle, handle_result, alive,
  lock_handle, monitor_of, getter,
}
use hyprscheme.Desktop.Windows.{list_or_false}
use hyprscheme.Desktop.WindowState.{same_live}
use hyprscheme.Desktop.WorkspaceGetters.{same_live_result}

-- `monGet`.
unfoldable pub mon_get : Bool → (Monitor → Scm) → Scm → Desktop → Outcome Scm
unfolding getter lock_handle alive
mon_get up read v d = getter up false_value (λ a m. read m) (monitor_of v d)

unfoldable pub monitor_name : Bool → Scm → Desktop → Outcome Scm
unfolding mon_get
monitor_name up v d = mon_get up (λ m. Scm.string m.name) v d

unfoldable pub monitor_description : Bool → Scm → Desktop → Outcome Scm
unfolding mon_get
monitor_description up v d = mon_get up (λ m. Scm.string m.description) v d

unfoldable pub monitor_number : Bool → Scm → Desktop → Outcome Scm
unfolding mon_get
monitor_number up v d = mon_get up (λ m. Scm.int m.number) v d

unfoldable pub monitor_enabled : Bool → Scm → Desktop → Outcome Scm
unfolding mon_get
monitor_enabled up v d = mon_get up (λ m. bool_result m.enabled) v d

unfoldable pub monitor_x : Bool → Scm → Desktop → Outcome Scm
unfolding mon_get
monitor_x up v d = mon_get up (λ m. Scm.int (m.position.0)) v d

unfoldable pub monitor_y : Bool → Scm → Desktop → Outcome Scm
unfolding mon_get
monitor_y up v d = mon_get up (λ m. Scm.int (m.position.1)) v d

unfoldable pub monitor_width : Bool → Scm → Desktop → Outcome Scm
unfolding mon_get
monitor_width up v d = mon_get up (λ m. Scm.int (m.size.0)) v d

unfoldable pub monitor_height : Bool → Scm → Desktop → Outcome Scm
unfolding mon_get
monitor_height up v d = mon_get up (λ m. Scm.int (m.size.1)) v d

unfoldable pub monitor_scale : Bool → Scm → Desktop → Outcome Scm
unfolding mon_get
monitor_scale up v d = mon_get up (λ m. Scm.flonum m.scale) v d

unfoldable pub monitor_transform : Bool → Scm → Desktop → Outcome Scm
unfolding mon_get
monitor_transform up v d = mon_get up (λ m. Scm.int m.transform) v d

unfoldable pub monitor_refresh_rate : Bool → Scm → Desktop → Outcome Scm
unfolding mon_get
monitor_refresh_rate up v d = mon_get up (λ m. Scm.flonum m.refresh_rate) v d

unfoldable pub monitor_dpms : Bool → Scm → Desktop → Outcome Scm
unfolding mon_get
monitor_dpms up v d = mon_get up (λ m. bool_result m.dpms_status) v d

unfoldable pub monitor_vrr : Bool → Scm → Desktop → Outcome Scm
unfolding mon_get
monitor_vrr up v d = mon_get up (λ m. bool_result m.vrr_active) v d

unfoldable pub monitor_10bit : Bool → Scm → Desktop → Outcome Scm
unfolding mon_get
monitor_10bit up v d = mon_get up (λ m. bool_result m.enabled_10bit) v d

unfoldable pub monitor_serial : Bool → Scm → Desktop → Outcome Scm
unfolding mon_get
monitor_serial up v d = mon_get up (λ m. Scm.string m.serial) v d

unfoldable pub monitor_physical_size : Bool → Scm → Desktop → Outcome Scm
unfolding mon_get
monitor_physical_size up v d =
    mon_get up (λ m. Scm.pair (Scm.int (m.physical_size.0)) (Scm.int (m.physical_size.1))) v d

unfoldable pub monitor_mirror_of : Bool → Scm → Desktop → Outcome Scm
unfolding mon_get
monitor_mirror_of up v d = mon_get up (λ m. handle_result Family.monitor m.mirror_of) v d

unfoldable pub monitor_active_workspace : Bool → Scm → Desktop → Outcome Scm
unfolding mon_get
monitor_active_workspace up v d =
    mon_get up (λ m. handle_result Family.workspace m.active_workspace) v d

unfoldable pub monitor_active_special_workspace : Bool → Scm → Desktop → Outcome Scm
unfolding mon_get
monitor_active_special_workspace up v d =
    mon_get up (λ m. handle_result Family.workspace m.active_special) v d

unfoldable pub monitor_selector : Bool → Scm → Desktop → Outcome Scm
unfolding mon_get
monitor_selector up v d = mon_get up (λ m. Scm.string m.name) v d

unfoldable pub monitor_focused : Bool → Scm → Desktop → Outcome Scm
unfolding getter
monitor_focused up v d =
    getter up false_value
      (λ a (m : Monitor). bool_result (elim d.focused_monitor [ none ↦ false | some f ↦ f == a ]))
      (monitor_of v d)

-- Width, height and refresh rate as the compositor's format prints them.
unfoldable pub monitor_mode : (ℕ → Text) → Bool → Scm → Desktop → Outcome Scm
unfolding mon_get decimal
monitor_mode print up v d =
    mon_get up
      (λ m. Scm.string (
        decimal (m.size.0)
        ++ (codes "x" ++ (decimal (m.size.1) ++ (codes "@" ++ print m.refresh_rate)))))
      v d

-- The mirrors that are still there.
unfoldable pub living_mirrors : List (Option ℕ) → List Scm
living_mirrors [] = []
living_mirrors (none ∷ l) = living_mirrors l
living_mirrors (some a ∷ l) = monitor_handle a ∷ living_mirrors l

unfoldable pub monitor_mirrors : Bool → Scm → Desktop → Outcome Scm
unfolding mon_get living_mirrors
monitor_mirrors up v d = mon_get up (λ m. list_of (living_mirrors m.mirrors)) v d

-- `hertz` is the double of a rate in millihertz divided by 1000.0.
unfoldable pub mode_plist : (ℕ → ℕ) → Mode → Scm
unfolding list_of
mode_plist hertz m = list_of (
    Scm.symbol (codes "width")
    ∷ Scm.int m.width
    ∷ Scm.symbol (codes "height")
    ∷ Scm.int m.height
    ∷ Scm.symbol (codes "refresh-rate")
    ∷ Scm.flonum (hertz m.refresh_rate)
    ∷ Scm.symbol (codes "preferred")
    ∷ bool_result m.preferred
    ∷ [])

unfoldable pub mode_plists : (ℕ → ℕ) → List (Option Mode) → List Scm
unfolding mode_plist
mode_plists hertz [] = []
mode_plists hertz (none ∷ l) = mode_plists hertz l
mode_plists hertz (some m ∷ l) = mode_plist hertz m ∷ mode_plists hertz l

unfoldable pub monitor_available_modes : (ℕ → ℕ) → Bool → Scm → Desktop → Outcome Scm
unfolding mon_get mode_plists
monitor_available_modes hertz up v d = mon_get up (λ m. list_of (mode_plists hertz m.modes)) v d

unfoldable pub monitor_backend_name : Backend → Text
monitor_backend_name drm = codes "drm"
monitor_backend_name wayland = codes "wayland"
monitor_backend_name headless = codes "headless"
monitor_backend_name null = codes "null"
monitor_backend_name other_backend = codes "unknown"

unfoldable pub hardware_plist : Monitor → Scm
unfolding monitor_backend_name list_of
hardware_plist m = list_of (
    Scm.symbol (codes "backend")
    ∷ Scm.string (monitor_backend_name m.backend)
    ∷ Scm.symbol (codes "hdr")
    ∷ bool_result m.hdr
    ∷ Scm.symbol (codes "chroma")
    ∷ bool_result m.chroma
    ∷ Scm.symbol (codes "bt2020")
    ∷ bool_result m.bt2020
    ∷ Scm.symbol (codes "vrr-capable")
    ∷ bool_result m.vrr_capable
    ∷ [])

unfoldable pub monitor_hardware_details : Bool → Scm → Desktop → Outcome Scm
unfolding mon_get hardware_plist
monitor_hardware_details up v d = mon_get up hardware_plist v d

unfoldable pub reserved_plist : Sides → Scm
unfolding list_of
reserved_plist r = list_of (
    Scm.symbol (codes "top")
    ∷ Scm.int r.top
    ∷ Scm.symbol (codes "left")
    ∷ Scm.int r.left
    ∷ Scm.symbol (codes "right")
    ∷ Scm.int r.right
    ∷ Scm.symbol (codes "bottom")
    ∷ Scm.int r.bottom
    ∷ [])

unfoldable pub monitor_reserved : Bool → Scm → Desktop → Outcome Scm
unfolding mon_get reserved_plist
monitor_reserved up v d = mon_get up (λ m. reserved_plist m.reserved) v d

unfoldable pub monitor_alive : Bool → Scm → Desktop → Outcome Scm
unfolding mon_get
monitor_alive up v d = mon_get up (λ m. bool_result true) v d

unfoldable pub monitor_same : Bool → Scm → Scm → Desktop → Outcome Scm
unfolding lock_handle alive
monitor_same up v u d =
    if not up
    then answers false_value
    else then_with (monitor_of v d)
        (λ a. then_with (monitor_of u d) (λ b. answers (same_live_result (same_live a b))))

unfoldable pub all_monitors : List (ℕ × Monitor) → List Scm
all_monitors [] = []
all_monitors ((a, m) ∷ ms) = monitor_handle a ∷ all_monitors ms

unfoldable pub monitor_names : Bool → Desktop → Scm
unfolding all_monitors
monitor_names up d = if not up then false_value else list_or_false (all_monitors d.monitors)
