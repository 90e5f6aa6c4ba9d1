-- ===== src/Host/Session.antt =====
-- The plugin's life in cpp/Host.cpp: `reloadScheme`, `shutdown`, `attachInterp`, `registerIpc` and `init`,
-- composed from the components that they reset. What a configuration does is the parameter `run`.
pub mod Reload
pub mod Plumbing
pub mod Life
pub mod LostPath
mod Tests
use hyprscheme.Base.{
  ℕ, suc, Bool, true, false, not, ◌||◌, ◌&&◌, Option, List, [], ◌∷◌, if◌then◌else◌, Text, is_empty,
}
use hyprscheme.Timer.{Timers, cancel_all_timers}
use hyprscheme.Event.{
  Events, drop_event_handlers, forget_pending_start, shutdown_events, register_start_dispatch,
}
use hyprscheme.Layout.Registry.{Registry, clear}
use hyprscheme.Rule.Store.{Rules}
use hyprscheme.Rule.Builder.{clear_scheme_rules}
use hyprscheme.Bind.{Binds, shutdown_binds}
use hyprscheme.Host.{user_config_path}
use hyprscheme.Host.Watchdog.{Watchdog, start_watchdog}
use hyprscheme.Host.Generation.{HostState, Answers, build_generation}

-- What a configuration can change.
pub record Parts : Type 0 where
  pub timers : Timers
  pub events : Events
  pub registry : Registry
  pub rules : Rules
  pub binds : Binds
  pub host : HostState

-- `g_up`, `g_configPath`, whether `init` ran before, whether the ipc command is registered or waits for
-- the ready event, whether `g_reloadListener` listens, whether the finalizer hook was installed and how
-- often it was added, whether the crash handlers are set, the watchdog, how often the config caches were
-- flushed, the configurations that were run, the newest first, and how often the banner was taken down.
pub record Session : Type 0 where
  pub parts : Parts
  pub up : Bool
  pub config_path : Text
  pub initialised : Bool
  pub ipc : Bool
  pub ipc_waits : Bool
  pub listens : Bool
  pub hook_tried : Bool
  pub hooks : ℕ
  pub signals : Bool
  pub watchdog : Watchdog
  pub flushes : ℕ
  pub configs : List Text
  pub banners_cleared : ℕ

-- What surrounds the plugin during one call: Guile's answers to a build on attaching and to one on
-- reloading, the directory of the machinery, whether the event loop, the ipc socket and the bind manager
-- are there, whether the finalizer procedure is bound, the environment and the file system.
pub record World : Type 0 where
  pub attaching : Answers
  pub reloading : Answers
  pub machinery : Text
  pub loop : Bool
  pub socket : Bool
  pub binder : Bool
  pub finalizers : Bool
  pub env : Text → Option Text
  pub exists : Text → Bool

-- What `reloadScheme` drops before it builds.
unfoldable pub drop_generation : Bool → Parts → Parts
drop_generation loop p = record p {
  rules = clear_scheme_rules p.rules;
  timers = cancel_all_timers loop p.timers;
  events = forget_pending_start (drop_event_handlers p.events);
  registry = (clear p.registry).0;
}

-- The configuration has run: a clean load takes the banner down.
abbrev pub after_config : Session → Parts × Bool → Session
after_config s (p, loaded) = record s {
  parts = p;
  configs = s.config_path ∷ s.configs;
  banners_cleared = if loaded then suc s.banners_cleared else s.banners_cleared;
}

abbrev pub with_host : HostState → Parts → Parts
with_host h p = record p { host = h }

-- The session with everything dropped and the build's host, before the configuration.
unfoldable pub dropped_before_build : World → Session → Session
unfolding drop_generation
dropped_before_build w s = record s {
  parts =
      with_host (build_generation w.reloading w.machinery s.parts.host).0
        (drop_generation w.loop s.parts);
  flushes = suc s.flushes;
}

unfoldable pub rebuild : (Text → Parts → Parts × Bool) → World → Session → Session
unfolding dropped_before_build
rebuild run w s =
    if (build_generation w.reloading w.machinery s.parts.host).1
    then after_config (dropped_before_build w s)
        (run s.config_path (dropped_before_build w s).parts)
    else dropped_before_build w s

unfoldable pub reload_scheme : (Text → Parts → Parts × Bool) → World → Session → Session
unfolding rebuild
reload_scheme run w s = if not s.up || is_empty s.config_path then s else rebuild run w s

unfoldable pub shutdown : World → Session → Session
shutdown w s = record s {
  ipc = false;
  ipc_waits = false;
  listens = false;
  parts = record (s.parts) {
    events = shutdown_events s.parts.events;
    registry = (clear s.parts.registry).0;
    binds = if w.binder then shutdown_binds s.parts.binds else s.parts.binds;
  };
  up = false;
}

-- `installGcHook`, once per process.
unfoldable pub install_gc_hook : World → Session → Session
install_gc_hook w s =
    if s.hook_tried
    then s
    else record s { hook_tried = true; hooks = if w.finalizers then suc s.hooks else s.hooks }

-- The session with the host of a build on attaching.
abbrev pub tried : World → Session → Session
tried w s = record s {
  parts = with_host (build_generation w.attaching w.machinery s.parts.host).0 s.parts;
}

abbrev pub brought_up : Session → Session
brought_up s = record s { up = true; watchdog = start_watchdog s.watchdog }

unfoldable pub attach_interp : World → Session → Session × Bool
unfolding install_gc_hook
attach_interp w s =
    if (build_generation w.attaching w.machinery s.parts.host).1
    then (brought_up (install_gc_hook w (tried w s)), true)
    else (tried w s, false)

-- Without the loop or the socket the command waits for the ready event, which calls this again.
unfoldable pub register_ipc : World → Session → Session
register_ipc w s =
    if s.ipc
    then s
    else if w.loop && w.socket
    then record s { ipc = true }
    else record s { ipc_waits = true }

-- The plumbing that follows a successful attaching.
unfoldable pub plumb : World → Session → Session
unfolding register_ipc
plumb w s =
    let t = register_ipc w s in
    record t {
      listens = true;
      parts = record (t.parts) { events = register_start_dispatch t.parts.events };
    }

-- The path of the configuration is determined on the first loading.
abbrev pub with_path : World → Session → Session
with_path w s = record s { config_path = user_config_path w.env w.exists }

abbrev pub with_signals : Session → Session
with_signals s = record s { signals = true }

abbrev pub as_initialised : Session → Session
as_initialised s = record s { initialised = true }

-- With no file at the path there is nothing to load.
unfoldable pub load_first : (Text → Parts → Parts × Bool) → World → Session → Session
unfolding reload_scheme
load_first run w s =
    if is_empty s.config_path || not (w.exists s.config_path) then s else reload_scheme run w s

unfoldable pub first_init : (Text → Parts → Parts × Bool) → World → Session → Session
unfolding attach_interp plumb load_first
first_init run w s =
    let (t, attached) = attach_interp w (as_initialised s) in
    if not attached then t else load_first run w (with_path w (plumb w (with_signals t)))

-- `init` of a plugin that is loaded again: the interpreter is still there.
unfoldable pub soft_init : (Text → Parts → Parts × Bool) → World → Session → Session
unfolding attach_interp plumb reload_scheme
soft_init run w s =
    let (t, attached) = attach_interp w s in
    if not attached then t else reload_scheme run w (plumb w t)

unfoldable pub init : (Text → Parts → Parts × Bool) → World → Session → Session
unfolding first_init soft_init
init run w s = if s.initialised then soft_init run w s else first_init run w s
