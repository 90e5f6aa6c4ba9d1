-- ===== src/Host/Session/Tests.antt =====
-- The theorems on the plugin's life, from a process in which it was never loaded.
use hyprscheme.Base.{
  ◌≡◌, refl, Bool, true, false, none, some, List, [], ◌∷◌, if◌then◌else◌, Text, codes, arith, find,
}
use hyprscheme.Base.Int.{pos}
use hyprscheme.Interp.{eol, object}
use hyprscheme.Timer.{scheme_timer}
use hyprscheme.Timer.Histories.{Reach, no_timers, here, next_step, create}
use hyprscheme.Layout.Names.{IsWellFormed}
use hyprscheme.Rule.Store.{empty_book}
use hyprscheme.Host.Watchdog.Overruns.{fresh_watchdog}
use hyprscheme.Host.Generation.{Answers, HostState, build_generation}
use hyprscheme.Host.Generation.Atomic.{
  IsAtomic, build_generation-IsAtomic, IsBalanced, HostStep, build, survive, host_steps,
  host_steps-IsBalanced,
}
use hyprscheme.Host.Session.{Parts, Session, World, after_config, reload_scheme, init}
use hyprscheme.Host.Session.Reload.{IsClean, reload_scheme-IsClean}
use hyprscheme.Host.Session.Life.{Life, loads, unloads, reloads, live_all, live_all-IsPlumbed}
use hyprscheme.Host.Session.Plumbing.{IsPlumbed}
use hyprscheme.Host.Session.LostPath.{init-lost_config}

abbrev good : Answers
good = record {
  adds_path = true;
  adds_compiled = true;
  kernel = some 1;
  fresh = some 2;
  clears = true;
  boots = true;
  sets = true;
}

-- init.scm does not load.
abbrev unbootable : Answers
unbootable = record good { fresh = some 3; boots = false }

abbrev first_host : HostState
first_host = record {
  generation = none;
  current = 0;
  ready = false;
  load_path = [];
  compiled_path = [];
  survives = eol;
  pins = [];
}

abbrev no_parts : Parts
no_parts = record {
  timers = record { index = []; next = 0; calls = [] };
  events = record {
    connections = [];
    start_seen = false;
    pending = [];
    dispatches = 0;
    later = [];
    started = [];
  };
  registry = record { layouts = []; listeners = 0; requests = [] };
  rules = record {
    windows = empty_book;
    layers = empty_book;
    workspace = none;
    index = [];
    store = [];
    next = 0;
    engine = [];
    workspace_rules = [];
    refreshes = [];
    error = [];
  };
  binds = record { registry = []; next = 0; error = [] };
  host = first_host;
}

abbrev new_process : Session
new_process = record {
  parts = no_parts;
  up = false;
  config_path = [];
  initialised = false;
  ipc = false;
  ipc_waits = false;
  listens = false;
  hook_tried = false;
  hooks = 0;
  signals = false;
  watchdog = fresh_watchdog;
  flushes = 0;
  configs = [];
  banners_cleared = 0;
}

abbrev at_home : World
at_home = record {
  attaching = good;
  reloading = unbootable;
  machinery = codes "/m";
  loop = true;
  socket = true;
  binder = true;
  finalizers = true;
  env = λ v. some (codes "/c");
  exists = λ p. true;
}

abbrev broken : World
broken = record at_home { attaching = unbootable }

-- A configuration that loads and changes nothing.
abbrev idle_config : Text → Parts → Parts × Bool
idle_config path p = (p, true)

-- A session that runs with one timer and a listener.
abbrev busy : Session
unfolding scheme_timer no_timers
busy = record new_process {
  up = true;
  config_path = codes "/c";
  parts = record no_parts {
    timers = (scheme_timer true true 7 (pos 50) true no_timers).0;
    events = record (no_parts.events) { pending = 4 ∷ [] };
  };
}

busy-Reach : Reach no_timers busy.parts.timers
unfolding no_timers find scheme_timer busy
busy-Reach = next_step here (create true 7 (pos 50) true refl)

no_parts-IsWellFormed : IsWellFormed no_parts.registry
no_parts-IsWellFormed = record { distinct = tt; prefixed = tt; all_active = tt; paired = refl }

reload_scheme-IsClean_example :
    (c : Session) × (built : Bool) × IsClean c.parts
    × IsAtomic unbootable (codes "/m") busy.parts.host (c.parts.host, built)
    × (c.parts.binds ≡ busy.parts.binds)
    × (c.config_path ≡ busy.config_path)
    × (reload_scheme idle_config at_home busy
        ≡ (if built then after_config c (idle_config c.config_path c.parts) else c))
unfolding busy
reload_scheme-IsClean_example =
    reload_scheme-IsClean idle_config at_home busy refl refl refl busy-Reach no_parts-IsWellFormed

build_generation-IsAtomic_example :
    IsAtomic unbootable
      (codes "/m")
      first_host
      (build_generation unbootable (codes "/m") first_host)
build_generation-IsAtomic_example = build_generation-IsAtomic unbootable (codes "/m") first_host

abbrev rebuilds : List HostStep
rebuilds =
    build good (codes "/m")
    ∷ survive (object 9)
    ∷ build unbootable (codes "/m")
    ∷ build (record good { fresh = some 5 }) (codes "/m")
    ∷ []

host_steps-IsBalanced_example : IsBalanced 5 (host_steps rebuilds first_host)
host_steps-IsBalanced_example = host_steps-IsBalanced 5 rebuilds first_host refl

abbrev whole_life : List Life
whole_life = loads at_home ∷ reloads at_home ∷ unloads at_home ∷ loads at_home ∷ []

live_all-IsPlumbed_example : IsPlumbed (live_all idle_config whole_life new_process)
live_all-IsPlumbed_example =
    live_all-IsPlumbed idle_config (λ path p. refl) whole_life new_process
      (record {
        listening = refl;
        answering = refl;
        one_dispatch = refl;
        one_hook = omega arith;
        one_thread = refl;
      })

init-lost_config_example :
    (live_all idle_config
      (unloads at_home ∷ loads at_home ∷ reloads at_home ∷ [])
      (init idle_config broken new_process)).configs
    ≡ []
unfolding build_generation
init-lost_config_example =
    init-lost_config idle_config broken (unloads at_home ∷ loads at_home ∷ reloads at_home ∷ [])
      new_process refl refl refl refl
