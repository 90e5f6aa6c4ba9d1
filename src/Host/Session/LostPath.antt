-- ===== src/Host/Session/LostPath.antt =====
-- The path of the configuration when the first loading of cpp/Host.cpp cannot build the machinery.
use hyprscheme.Base.{
  ◌≡◌, refl, ap, Bool, true, false, not, ◌||◌, ◌&&◌, List, [], ◌∷◌, Text, is_empty, if_either,
  Bool-cases, inl, inr, arith,
}
use hyprscheme.Host.Generation.{build_generation}
use hyprscheme.Host.Session.{
  Parts, Session, World, reload_scheme, shutdown, tried, brought_up, install_gc_hook, attach_interp,
  register_ipc, plumb, soft_init, first_init, init,
}
use hyprscheme.Host.Session.Life.{Life, loads, unloads, reloads, announces, live_on, live_all}

-- `init` ran, without a path, and no configuration did.
record IsLost (s : Session) : Type 0 where
  pub initialised : s.initialised ≡ true
  pub pathless : s.config_path ≡ []
  pub unconfigured : s.configs ≡ []

register_ipc-IsLost : (w : World) (s : Session) → IsLost s → IsLost (register_ipc w s)
unfolding register_ipc
register_ipc-IsLost w s i =
    if_either IsLost s.ipc (λ e. i)
      (λ e.
        if_either IsLost (w.loop && w.socket)
          (λ r. record {
            initialised = i.initialised;
            pathless = i.pathless;
            unconfigured = i.unconfigured;
          })
          (λ r. record {
            initialised = i.initialised;
            pathless = i.pathless;
            unconfigured = i.unconfigured;
          }))

plumb-IsLost : (w : World) (s : Session) → IsLost s → IsLost (plumb w s)
unfolding plumb
plumb-IsLost w s i =
    let j = register_ipc-IsLost w s i in
    record { initialised = j.initialised; pathless = j.pathless; unconfigured = j.unconfigured }

reload-IsLost :
    (run : Text → Parts → Parts × Bool) (w : World) (s : Session)
    → IsLost s
    → IsLost (reload_scheme run w s)
unfolding reload_scheme
reload-IsLost run w s i =
    if_either IsLost (not s.up || is_empty s.config_path) (λ e. i)
      (λ e. absurd (ground (arith, ap is_empty i.pathless)))

install_gc_hook-IsLost : (w : World) (s : Session) → IsLost s → IsLost (install_gc_hook w s)
unfolding install_gc_hook
install_gc_hook-IsLost w s i =
    if_either IsLost s.hook_tried (λ e. i)
      (λ e. record {
        initialised = i.initialised;
        pathless = i.pathless;
        unconfigured = i.unconfigured;
      })

soft_init-IsLost :
    (run : Text → Parts → Parts × Bool) (w : World) (s : Session)
    → IsLost s
    → IsLost (soft_init run w s)
unfolding soft_init attach_interp
soft_init-IsLost run w s i =
    elim (Bool-cases (build_generation w.attaching w.machinery s.parts.host).1) [
      | inr b ↦ rw (b, soft_init) before
      | inl b ↦
          let j = install_gc_hook-IsLost w (tried w s) before in
          rw (b, soft_init)
            (reload-IsLost run w _ (
              plumb-IsLost w (brought_up (install_gc_hook w (tried w s))) (record {
                initialised = j.initialised;
                pathless = j.pathless;
                unconfigured = j.unconfigured;
              })))
    ]
  where
    before : IsLost (tried w s)
    before = record {
      initialised = i.initialised;
      pathless = i.pathless;
      unconfigured = i.unconfigured;
    }

init-IsLost :
    (run : Text → Parts → Parts × Bool) (w : World) (s : Session) → IsLost s → IsLost (init run w s)
unfolding init
init-IsLost run w s i =
    if_either IsLost s.initialised (λ e. soft_init-IsLost run w s i)
      (λ e. absurd (ground (arith, i.initialised)))

live_on-IsLost :
    (run : Text → Parts → Parts × Bool) (l : Life) (s : Session)
    → IsLost s
    → IsLost (live_on run l s)
unfolding live_on shutdown
live_on-IsLost run (loads w) s i = if_either IsLost s.up (λ e. i) (λ e. init-IsLost run w s i)
live_on-IsLost run (unloads w) s i = record {
  initialised = i.initialised;
  pathless = i.pathless;
  unconfigured = i.unconfigured;
}
live_on-IsLost run (reloads w) s i =
    if_either IsLost s.listens (λ e. reload-IsLost run w s i) (λ e. i)
live_on-IsLost run (announces w) s i =
    if_either IsLost s.ipc_waits (λ e. register_ipc-IsLost w s i) (λ e. i)

live_all-IsLost :
    (run : Text → Parts → Parts × Bool) (ls : List Life) (s : Session)
    → IsLost s
    → IsLost (live_all run ls s)
live_all-IsLost run [] s i = i
live_all-IsLost run (l ∷ ls) s i =
    live_all-IsLost run ls (live_on run l s) (live_on-IsLost run l s i)

first_init-IsLost :
    (run : Text → Parts → Parts × Bool) (w : World) (s : Session)
    → s.config_path ≡ []
    → s.configs ≡ []
    → (build_generation w.attaching w.machinery s.parts.host).1 ≡ false
    → IsLost (first_init run w s)
unfolding first_init attach_interp
first_init-IsLost run w s p c b =
    rw (b, first_init) (record { initialised = refl; pathless = p; unconfigured = c })

-- When the machinery cannot be built on the first loading, no configuration is ever run in this process:
-- not by a later loading that succeeds, nor by any reload after it, whatever the configuration's path
-- would be. Before that loading there is neither a path nor a configuration.
pub init-lost_config :
    (run : Text → Parts → Parts × Bool) (w : World) (ls : List Life) (s : Session)
    → s.initialised ≡ false
    → s.config_path ≡ []
    → s.configs ≡ []
    → (build_generation w.attaching w.machinery s.parts.host).1 ≡ false
    → (live_all run ls (init run w s)).configs ≡ []
unfolding init
init-lost_config run w ls s n p c b =
    (live_all-IsLost run ls (init run w s) (
      if_either IsLost s.initialised (λ e. absurd (ground (arith, n)))
        (λ e. first_init-IsLost run w s p c b))).unconfigured
