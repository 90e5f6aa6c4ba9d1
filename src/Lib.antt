-- ===== src/Lib.antt =====
-- Hyprscheme lets a Scheme program configure a Wayland compositor and act on it. Its C++ side, cpp/, is a plugin:
-- each family of objects has a file with the entry points that the Scheme API calls, and keeps the little state
-- that the compositor does not keep for it. This development models that state and those entry points.
--
-- Parts and files:
--   * Base: lists, maps, bytes and integers over the native numbers. Scm: Scheme values as the C++ side sees them.
--   * Layout (cpp/SchemeLayout.cpp, cpp/SchemeLayout.hpp): `Order` has the order of a layout's targets (newTarget,
--     removeTarget, swapTargets, moveTargetInDirection, getNextCandidate, liveTargets); `Boxes` the boxes that cross
--     to and from Scheme (readPlacement, placementList, applyBoxes); `Grid` the default grid; `Pass` one pass
--     (recalculate, resizeTarget, layoutMsg, callLayout, reportError); `Registry` the layouts (layoutAdd, clear).
--   * Timer (cpp/Timer.cpp): the index of timers and each entry point; `Lifetime` has the timers that the event loop
--     holds, `Histories` the entry points as a step relation.
--   * Event (cpp/Event.cpp, parts of cpp/Bind.cpp and cpp/Layer.cpp): subscriptions and the start event; `Payload`
--     what a handler is called with.
--   * Callback (cpp/Bind.cpp, cpp/Timer.cpp): what a callback's answer means.
--   * Bind (cpp/Bind.cpp, `shutdown` of cpp/Host.cpp): our binds in the compositor's registry.
--   * Keys (cpp/Bind.cpp): chords, their regular form, and the conversion between logical and physical keys.
--   * Exec (cpp/Exec.cpp): the modifier mask of a list of tokens.
--   * Interp (cpp/Guile.cpp, cpp/SThunkRef.hpp): what C++ keeps from the collector; `Boundary` (cpp/Bindings.hpp) the
--     arguments and results of the entry points.
--   * Host (cpp/Host.cpp, paths of cpp/Guile.cpp): the search for the user's configuration; `Machinery` the
--     directory of the machinery (schemeDir), the ipc handler, hlSchemeOnReadable and hlSchemeErrorOverlay;
--     `Watchdog` the detector thread and the main thread's writes, one atomic step at a time; `Generation` the
--     build and swap (buildGeneration); `Session` the plugin's life (init, attachInterp, reloadScheme, shutdown)
--     over the state of the components. What Guile answers to a build and what a configuration does are
--     parameters.
--   * Notification (cpp/Notification.cpp): adding notifications, reading and changing them through handles; `Histories`
--     the entry points as a step relation.
--   * Desktop (cpp/Window.cpp, cpp/Group.cpp, cpp/Workspace.cpp, cpp/Monitor.cpp, cpp/Layer.cpp, cpp/Query.cpp,
--     and the handles of cpp/Handles.hpp and cpp/SchemeInternals.hpp): what the entry points read of the compositor,
--     by address, and the log of what they ask of it; `Windows`, `WindowActions`, `WindowRequests`, `Selectors`, `Groups`,
--     `Workspaces`, `WorkspaceGetters`, `Monitors`, `MonitorGetters`, `Layers`, `WindowLayout`, `WindowProps`,
--     `WindowState`, `Queries`.
--   * Exec.Dispatch (cpp/Exec.cpp): actions without a window, keys that are sent, the crashed lock screen;
--     `Exec.Command`, running a command with the effects of a rule.
--   * Gesture (cpp/Gesture.cpp): the plists of events, custom gestures and the makers; `Adding` the entry points,
--     `Makers` the addresses of the makers.
--   * Config (cpp/Config.cpp): `Device`, the settings of input devices (hlSchemeDeviceAdd) and their readbacks,
--     `MonitorRules`, the building of a monitor's rule, `Values`, the values by key, and `Animations`, curves,
--     animations and permissions. The Lua library and the compositor's managers are parameters.
--   * Rule (cpp/Rule.cpp): the builders of window, layer and workspace rules.
-- The parts meet in Scheme values and in the reload of a configuration, which calls the reload boundary of each:
-- cancel_all_timers, drop_event_handlers, forget_pending_start, clear, clear_scheme_rules.
--
-- Conventions. State is passed explicitly: an entry point takes the state and gives the new one with its answer, 0
-- for done and -1 or -2 for refused; `up` is `g_up`, whether the interpreter is up. An object behind a pointer, a
-- weak reference or a record is a number, its address. A double is its bit pattern. Text is the list of its bytes.
-- The compositor, libguile and xkbcommon are parameters: functions and records of functions (Doubles, World, Xkb,
-- Keymap), or a log of what is asked of them (LoopCall, Request). XkbLaws has what regularising relies on.
--
-- Bounds: the square root of the grid is searched with the number of targets as fuel, which is enough since no
-- number exceeds its square; the search of a keymap runs over the keycodes 8 to 255 as the code does. Every other
-- recursion is structural. Numbers of the code that are small enough for an `int` are unbounded here.
--
-- Not modelled: logging, the libguile calls and their registration, pinning the shared object and the crash
-- handlers of cpp/Host.cpp, and plugin-main.cpp: they call the compositor or libguile and decide nothing of their own.
-- The earlier port in chez/, which this plugin replaces, is left out by choice.
pub mod Base
pub mod Bind
pub mod Callback
pub mod Config
pub mod Desktop
pub mod Event
pub mod Exec
pub mod Gesture
pub mod Host
pub mod Interp
pub mod Keys
pub mod Layout
pub mod Notification
pub mod Rule
pub mod Scm
pub mod Timer
