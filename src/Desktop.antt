-- ===== src/Desktop.antt =====
-- What the families of windows, groups, workspaces and queries read of the compositor, and the handles
-- that Scheme has of it: cpp/Handles.hpp, and the shared helpers of cpp/SchemeInternals.hpp and
-- cpp/Window.cpp. An object is its address; a handle's object is dead once the compositor has it no more.
-- What the entry points ask the compositor to do is a log of requests, the newest first.
pub mod Piles
pub mod Windows
pub mod WindowState
pub mod WindowActions
pub mod WindowLayout
pub mod WindowProps
pub mod Queries
pub mod WindowRequests
pub mod Selectors
pub mod Groups
pub mod Layers
pub mod Monitors
pub mod MonitorGetters
pub mod Workspaces
pub mod WorkspaceGetters
mod Tests
use hyprscheme.Base.{
  ℕ, ◌==◌, Bool, true, false, not, Option, none, some, List, [], ◌∷◌, if◌then◌else◌, Text, find,
}
use hyprscheme.Base.Int.{ℤ, pos, negsuc}
use hyprscheme.Scm.{Scm, Family, is_false, is_handle}

-- What a call comes to: the Scheme error that `unwrapHandle` raises on a value that is no handle of the
-- family, a null pointer that is followed, or an answer.
pub data Outcome {ℓ} (A : Type ℓ) : Type ℓ where
  raised : Outcome A
  crashed : Outcome A
  answers : A → Outcome A

-- A window as these entry points read it. Its sizes are whole numbers, as they are passed to Scheme.
pub record Window : Type 0 where
  pub mapped : Bool
  pub hidden : Bool
  pub floating : Bool
  pub pinned : Bool
  pub accepts_input : Bool
  pub alpha_nonzero : Bool
  pub tearing_hint : Bool
  pub inhibiting_idle : Bool
  pub pin_fullscreened : Bool
  pub over_fullscreen : Bool
  pub x11 : Bool
  pub pseudo : Bool
  pub title : Text
  pub app_id : Text
  pub initial_title : Text
  pub initial_app_id : Text
  pub content_type : Text
  pub fullscreen_handler : Text
  pub xdg_tag : Option Text
  pub xdg_description : Option Text
  pub tags : List Text
  pub pid : ℤ
  pub stable_id : ℕ
  pub size : ℤ × ℤ
  pub position : ℤ × ℤ
  pub internal_mode : ℤ
  pub client_mode : ℤ
  pub workspace : Option ℕ
  pub monitor : Option ℕ
  pub group : Option ℕ
  pub swallowee : Option ℕ

-- A group: its members are weak references, and `none` is one whose window died.
pub record Group : Type 0 where
  pub members : List (Option ℕ)
  pub current : Option ℕ
  pub current_index : ℕ
  pub locked : Bool
  pub denied : Bool

pub record Workspace : Type 0 where
  pub display_name : Text
  pub monitor : Option ℕ
  pub special : Bool
  pub window_count : ℕ
  pub group_count : ℤ
  pub addressable_name : Text
  pub selector : Text
  pub numbered_id : Option ℤ
  pub visible : Bool
  pub persistent : Bool
  pub has_urgent : Bool
  pub has_fullscreen : Bool
  pub fullscreen_mode : ℤ
  pub fullscreen_window : Option ℕ
  pub last_window : Option ℕ
  pub tiled_layout : Option Text

-- A mode of an output: its size and its refresh rate in millihertz.
pub record Mode : Type 0 where
  pub width : ℤ
  pub height : ℤ
  pub refresh_rate : ℕ
  pub preferred : Bool

-- The reserved area's sides.
pub record Sides : Type 0 where
  pub top : ℤ
  pub left : ℤ
  pub right : ℤ
  pub bottom : ℤ

pub data Backend : Type 0 where
  drm wayland headless null other_backend : Backend

pub record Layer : Type 0 where
  pub mapped : Bool
  pub namespace : Text
  pub pid : ℤ
  pub monitor : Option ℕ
  pub level : ℤ
  pub kb_interactivity : ℤ
  pub above_fullscreen : Bool
  pub position : ℤ × ℤ
  pub size : ℤ × ℤ

-- What the compositor keeps of an output. A double is its bit pattern; a position or a size is the
-- `int` that it is cast to; a mode or a mirror that is gone is `none`.
pub record Monitor : Type 0 where
  pub active_workspace : Option ℕ
  pub active_special : Option ℕ
  pub name : Text
  pub description : Text
  pub serial : Text
  pub number : ℤ
  pub enabled : Bool
  pub position : ℤ × ℤ
  pub size : ℤ × ℤ
  pub physical_size : ℤ × ℤ
  pub scale : ℕ
  pub transform : ℤ
  pub refresh_rate : ℕ
  pub dpms_status : Bool
  pub vrr_active : Bool
  pub enabled_10bit : Bool
  pub reserved : Sides
  pub mirrors : List (Option ℕ)
  pub mirror_of : Option ℕ
  pub modes : List (Option Mode)
  pub backend : Backend
  pub hdr : Bool
  pub chroma : Bool
  pub bt2020 : Bool
  pub vrr_capable : Bool
  pub layer_levels : List (List (Option ℕ))

-- What is asked of the compositor: an action by its name, with the window it is given (`none` for no
-- value, `some none` for a null pointer) and its numbers and texts, a change of a group, or a redraw.
pub data Request : Type 0 where
  act : Text → Option (Option ℕ) → List ℤ → List Text → Request
  move_to : ℕ → Bool → Option ℕ → Request
  create_workspace : Text → Option ℕ → Request
  set_fullscreen : Option ℕ → ℤ → Bool → Request
  set_locked : ℕ → Bool → Request
  add_member : ℕ → ℕ → Option ℕ → Request
  remove_member : ℕ → ℕ → Request
  redraw : ℕ → Request
  set_special : ℕ → Option ℕ → Request

-- `history` is the focus history, the oldest first, of weak references.
pub record Desktop : Type 0 where
  pub windows : List (ℕ × Window)
  pub groups : List (ℕ × Group)
  pub workspaces : List (ℕ × Workspace)
  pub monitors : List (ℕ × Monitor)
  pub layers : List (ℕ × Layer)
  pub focused : Option ℕ
  pub focused_monitor : Option ℕ
  pub history : List (Option ℕ)
  pub groups_locked : Bool
  pub requests : List Request
  pub error : Text

abbrev pub false_value : Scm
false_value = Scm.bool false

abbrev pub bool_result : Bool → Scm
bool_result b = Scm.bool b

abbrev pub window_handle : ℕ → Scm
window_handle a = Scm.handle Family.window a

abbrev pub workspace_handle : ℕ → Scm
workspace_handle a = Scm.handle Family.workspace a

abbrev pub monitor_handle : ℕ → Scm
monitor_handle a = Scm.handle Family.monitor a

abbrev pub group_handle : ℕ → Scm
group_handle a = Scm.handle Family.group a

-- A handle's result: a null pointer reads as #f.
abbrev pub handle_result : Family → Option ℕ → Scm
handle_result f none = false_value
handle_result f (some a) = Scm.handle f a

-- The object behind an address, if it lives.
module _ {ℓ} {A : Type ℓ} where
  unfoldable pub alive : ℕ → List (ℕ × A) → Option (ℕ × A)
  alive a m = elim (find a m) [ none ↦ none | some w ↦ some (a, w) ]

  -- `unwrapHandle` and the lock of its weak reference.
  unfoldable pub lock_handle : Family → Scm → List (ℕ × A) → Outcome (Option (ℕ × A))
  unfolding alive is_handle
  lock_handle f (Scm.handle g a) m =
      if is_handle f (Scm.handle g a) then answers (alive a m) else raised
  lock_handle f _ m = raised

abbrev pub window_of : Scm → Desktop → Outcome (Option (ℕ × Window))
window_of v d = lock_handle Family.window v d.windows

abbrev pub group_of : Scm → Desktop → Outcome (Option (ℕ × Group))
group_of v d = lock_handle Family.group v d.groups

abbrev pub layer_of : Scm → Desktop → Outcome (Option (ℕ × Layer))
layer_of v d = lock_handle Family.layer v d.layers

abbrev pub monitor_of : Scm → Desktop → Outcome (Option (ℕ × Monitor))
monitor_of v d = lock_handle Family.monitor v d.monitors

abbrev pub workspace_of : Scm → Desktop → Outcome (Option (ℕ × Workspace))
workspace_of v d = lock_handle Family.workspace v d.workspaces

-- Goes on with an answer.
abbrev pub then_with {ℓ ℓ₂} : {A : Type ℓ} {B : Type ℓ₂} → Outcome A → (A → Outcome B) → Outcome B
then_with raised f = raised
then_with crashed f = crashed
then_with (answers x) f = f x

abbrev pub focused_window : Desktop → Option (ℕ × Window)
focused_window d = elim d.focused [ none ↦ none | some a ↦ alive a d.windows ]

-- `windowOrFocused`: #f is the focused window.
unfoldable pub window_or_focused : Scm → Desktop → Outcome (Option (ℕ × Window))
unfolding lock_handle alive
window_or_focused v d = if is_false v then answers (focused_window d) else window_of v d

-- `actionWindow`: a pointer, null or not, is put into an optional.
unfoldable pub action_window : Scm → Desktop → Outcome (Option (Option (ℕ × Window)))
unfolding lock_handle alive
action_window v d =
    if is_false v
    then answers (some (focused_window d))
    else then_with (window_of v d) (λ w. answers (some w))

-- The pointer that an optional of windows holds.
abbrev pub pointer : Option (ℕ × Window) → Option ℕ
pointer none = none
pointer (some (a, w)) = some a

abbrev pub pointer_in : Option (Option (ℕ × Window)) → Option (Option ℕ)
pointer_in none = none
pointer_in (some w) = some (pointer w)

-- The getter shape that the families share: what a getter reads when the interpreter is down or the
-- object is dead, and what it reads of the object.
module _ {ℓ ℓ₂} {W : Type ℓ} {A : Type ℓ₂} where
  unfoldable pub getter : Bool → A → (ℕ → W → A) → Outcome (Option (ℕ × W)) → Outcome A
  getter up dead read o =
      if not up
      then answers dead
      else then_with o (λ l. elim l [ none ↦ answers dead | some (a, w) ↦ answers (read a w) ])

-- `actionResult`: 0, or -2 when the compositor refuses.
abbrev pub action_result : Bool → ℤ
action_result accepted = if accepted then pos 0 else negsuc 1

-- An action of the compositor, which `accepts` it or not, for an optional window.
unfoldable pub action :
    (Request → Bool)
    → Bool
    → Outcome (Option (Option (ℕ × Window)))
    → (Option (Option ℕ) → Request)
    → Desktop
    → Outcome (Desktop × ℤ)
action accepts up o request d =
    if not up
    then answers (d, negsuc 0)
    else then_with o (λ w.
      let asked = request (pointer_in w) in
      answers (record d { requests = asked ∷ d.requests }, action_result (accepts asked)))

-- Reads of truth values answer the integers 0 and 1.
abbrev pub flag : Bool → ℤ
flag b = if b then pos 1 else pos 0
