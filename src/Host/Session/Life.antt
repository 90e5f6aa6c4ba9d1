-- ===== src/Host/Session/Life.antt =====
-- The plugin of cpp/Host.cpp over its whole life: loaded, unloaded, loaded again, with reloads between.
use hyprscheme.Base.{
  ◌≡◌, refl, ap, sym, ◌∙◌, Bool, true, false, not, ◌||◌, List, [], ◌∷◌, if◌then◌else◌, Text,
  is_empty, arith, Bool-cases, if_either, inl, inr,
}
use hyprscheme.Event.{shutdown_events}
use hyprscheme.Host.{user_config_path}
use hyprscheme.Host.Watchdog.{start_watchdog}
use hyprscheme.Host.Generation.{build_generation}
use hyprscheme.Host.Session.{
  Parts, Session, World, reload_scheme, shutdown, tried, brought_up, with_path, with_signals,
  as_initialised, install_gc_hook, attach_interp, register_ipc, load_first, first_init, soft_init,
  init,
}
use hyprscheme.Host.Session.Plumbing.{
  IsPlumbed, KeepsDispatch, register_ipc-rest, install_gc_hook-rest, reload-IsPlumbed,
  tried-IsPlumbed, plumb-IsPlumbed,
}

-- What the compositor does with the plugin: it loads it when it is not up, unloads it, reloads its own
-- configuration, or announces that it is ready. The last two reach the plugin when it listens.
pub data Life : Type 0 where
  loads unloads reloads announces : World → Life

module _ (run : Text → Parts → Parts × Bool) where
  unfoldable pub live_on : Life → Session → Session
  unfolding init shutdown reload_scheme register_ipc
  live_on (loads w) s = if s.up then s else init run w s
  live_on (unloads w) s = shutdown w s
  live_on (reloads w) s = if s.listens then reload_scheme run w s else s
  live_on (announces w) s = if s.ipc_waits then register_ipc w s else s

  abbrev pub live_all : List Life → Session → Session
  live_all [] s = s
  live_all (l ∷ ls) s = live_all ls (live_on l s)

module _ (run : Text → Parts → Parts × Bool) (keeps : KeepsDispatch run) (w : World) where
  soft_init-IsPlumbed : (s : Session) → s.up ≡ false → IsPlumbed s → IsPlumbed (soft_init run w s)
  unfolding soft_init attach_interp
  soft_init-IsPlumbed s down i =
      elim (Bool-cases (build_generation w.attaching w.machinery s.parts.host).1) [
        | inr b ↦ rw (b, soft_init) (tried-IsPlumbed run keeps w s i)
        | inl b ↦
            let (parts, dog, hook) = install_gc_hook-rest w (tried w s) i.one_hook in
            rw (b, soft_init)
              (reload-IsPlumbed run keeps w _ (
                plumb-IsPlumbed run keeps w s (brought_up (install_gc_hook w (tried w s))) i down
                  refl (ap (λ (p : Parts). p.events) parts) hook (ap start_watchdog dog)))
      ]

  marked-IsPlumbed : (s : Session) → IsPlumbed s → IsPlumbed (as_initialised s)
  marked-IsPlumbed s i = record {
    listening = i.listening;
    answering = i.answering;
    one_dispatch = i.one_dispatch;
    one_hook = i.one_hook;
    one_thread = i.one_thread;
  }

  located-IsPlumbed : (s : Session) → IsPlumbed s → IsPlumbed (with_path w s)
  located-IsPlumbed s i = record {
    listening = i.listening;
    answering = i.answering;
    one_dispatch = i.one_dispatch;
    one_hook = i.one_hook;
    one_thread = i.one_thread;
  }

  load_first-IsPlumbed : (s : Session) → IsPlumbed s → IsPlumbed (load_first run w (with_path w s))
  unfolding load_first
  load_first-IsPlumbed s i =
      let path = user_config_path w.env w.exists in
      elim (Bool-cases (is_empty path || not (w.exists path))) [
        | inl e ↦ rw (e, load_first) (located-IsPlumbed s i)
        | inr e ↦
            rw (e, load_first)
              (reload-IsPlumbed run keeps w (with_path w s) (located-IsPlumbed s i))
      ]

  first_init-IsPlumbed : (s : Session) → s.up ≡ false → IsPlumbed s → IsPlumbed (first_init run w s)
  unfolding first_init attach_interp
  first_init-IsPlumbed s down i =
      elim (Bool-cases (build_generation w.attaching w.machinery s.parts.host).1) [
        | inr b ↦
            rw (b, first_init)
              (tried-IsPlumbed run keeps w (as_initialised s) (marked-IsPlumbed s i))
        | inl b ↦
            let (parts, dog, hook) =
              install_gc_hook-rest w (tried w (as_initialised s)) i.one_hook in
            rw (b, first_init)
              (load_first-IsPlumbed _ (
                plumb-IsPlumbed run keeps w s
                  (with_signals (brought_up (install_gc_hook w (tried w (as_initialised s))))) i
                  down refl (ap (λ (p : Parts). p.events) parts) hook (ap start_watchdog dog)))
      ]

  shutdown-IsPlumbed : (s : Session) → IsPlumbed s → IsPlumbed (shutdown w s)
  unfolding shutdown shutdown_events
  shutdown-IsPlumbed s i = record {
    listening = refl;
    answering = refl;
    one_dispatch = refl;
    one_hook = i.one_hook;
    one_thread = i.one_thread;
  }

  announce-IsPlumbed :
      (s : Session) → s.ipc_waits ≡ true → IsPlumbed s → IsPlumbed (register_ipc w s)
  announce-IsPlumbed s waits i =
      let (up_kept, parts, listens, hooks_kept, tried_kept, dog_kept, answers) =
        register_ipc-rest w s in
      record {
        listening = listens ∙ i.listening ∙ sym up_kept;
        answering = answers ∙ ground (arith, i.answering, up_kept);
        one_dispatch =
            ground (arith, ap (λ (p : Parts). p.events.dispatches) parts, i.one_dispatch, up_kept);
        one_hook = rw (hooks_kept, tried_kept) i.one_hook;
        one_thread = rw dog_kept i.one_thread;
      }

  init-IsPlumbed : (s : Session) → s.up ≡ false → IsPlumbed s → IsPlumbed (init run w s)
  unfolding init
  init-IsPlumbed s down i =
      if_either IsPlumbed s.initialised (λ e. soft_init-IsPlumbed s down i)
        (λ e. first_init-IsPlumbed s down i)

live_on-IsPlumbed :
    (run : Text → Parts → Parts × Bool)
    → KeepsDispatch run
    → (l : Life) (s : Session) → IsPlumbed s
    → IsPlumbed (live_on run l s)
unfolding live_on
live_on-IsPlumbed run keeps (loads w) s i =
    if_either IsPlumbed s.up (λ e. i) (λ e. init-IsPlumbed run keeps w s e i)
live_on-IsPlumbed run keeps (unloads w) s i = shutdown-IsPlumbed run keeps w s i
live_on-IsPlumbed run keeps (reloads w) s i =
    if_either IsPlumbed s.listens (λ e. reload-IsPlumbed run keeps w s i) (λ e. i)
live_on-IsPlumbed run keeps (announces w) s i =
    if_either IsPlumbed s.ipc_waits (λ e. announce-IsPlumbed run keeps w s e i) (λ e. i)

-- Over any history of loading, unloading, reloads and the ready event, whatever each build answers, the
-- plugin listens for reloads, answers or waits to answer `hyprctl scheme` and has its one start dispatch
-- exactly while the interpreter is up, and the finalizer hook and the watchdog's thread are there once
-- at most. No configuration touches the start dispatch.
pub live_all-IsPlumbed :
    (run : Text → Parts → Parts × Bool)
    → KeepsDispatch run
    → (ls : List Life) (s : Session) → IsPlumbed s
    → IsPlumbed (live_all run ls s)
live_all-IsPlumbed run keeps [] s i = i
live_all-IsPlumbed run keeps (l ∷ ls) s i =
    live_all-IsPlumbed run keeps ls (live_on run l s) (live_on-IsPlumbed run keeps l s i)
