-- ===== src/Host/Session/Plumbing.antt =====
-- What stands while the plugin of cpp/Host.cpp is up, through a reload and the plumbing of a session.
use hyprscheme.Base.{
  ◌≤◌, ◌≡◌, refl, ap, sym, subst, ◌∙◌, Bool, true, false, not, ◌||◌, ◌&&◌, if◌then◌else◌, Text,
  is_empty, arith, Bool-cases, inl, inr,
}
use hyprscheme.Event.{Events, register_start_dispatch, drop_event_handlers, forget_pending_start}
use hyprscheme.Host.Watchdog.{Watchdog, start_watchdog}
use hyprscheme.Host.Generation.{build_generation}
use hyprscheme.Host.Session.{
  Parts, Session, World, drop_generation, dropped_before_build, rebuild, reload_scheme, tried,
  install_gc_hook, register_ipc, plumb,
}

-- The plumbing stands while the interpreter is up and is gone otherwise; what must not stack does not.
pub record IsPlumbed (s : Session) : Type 0 where
  pub listening : s.listens ≡ s.up
  pub answering : s.ipc || s.ipc_waits ≡ s.up
  pub one_dispatch : s.parts.events.dispatches ≡ (if s.up then 1 else 0)
  pub one_hook : s.hooks ≤ (if s.hook_tried then 1 else 0)
  pub one_thread : s.watchdog.threads ≡ (if s.watchdog.running then 1 else 0)

-- A configuration cannot reach the start dispatch.
abbrev pub KeepsDispatch : (Text → Parts → Parts × Bool) → Type 0
KeepsDispatch run =
    (path : Text) (p : Parts) → (run path p).0.events.dispatches ≡ p.events.dispatches

-- What registering the ipc command leaves alone; afterwards it is registered or waits.
pub register_ipc-rest :
    (w : World) (s : Session)
    → let t = register_ipc w s in
      (t.up ≡ s.up)
      × (t.parts ≡ s.parts)
      × (t.listens ≡ s.listens)
      × (t.hooks ≡ s.hooks)
      × (t.hook_tried ≡ s.hook_tried)
      × (t.watchdog ≡ s.watchdog)
      × (t.ipc || t.ipc_waits ≡ true)
unfolding register_ipc
register_ipc-rest w s = elim (Bool-cases s.ipc) [
  | inl e ↦ rw (e, register_ipc) (refl, refl, refl, refl, refl, refl, ground arith)
  | inr e ↦ elim (Bool-cases (w.loop && w.socket)) [
    | inl r ↦ rw (e, r, register_ipc) (refl, refl, refl, refl, refl, refl, refl)
    | inr r ↦ rw (e, r, register_ipc) (refl, refl, refl, refl, refl, refl, ground arith)
  ]
]

pub install_gc_hook-rest :
    (w : World) (s : Session)
    → s.hooks ≤ (if s.hook_tried then 1 else 0)
    → let t = install_gc_hook w s in
      (t.parts ≡ s.parts) × (t.watchdog ≡ s.watchdog) × (t.hooks ≤ (if t.hook_tried then 1 else 0))
unfolding install_gc_hook
install_gc_hook-rest w s h = elim (Bool-cases s.hook_tried) [
  | inl e ↦ rw (e, install_gc_hook) (refl, refl, ground arith)
  | inr e ↦ rw (e, install_gc_hook) (refl, refl, ground arith)
]

module _ (run : Text → Parts → Parts × Bool) (keeps : KeepsDispatch run) (w : World) where
  rebuild-IsPlumbed : (s : Session) → IsPlumbed s → IsPlumbed (rebuild run w s)
  unfolding rebuild dropped_before_build drop_generation drop_event_handlers forget_pending_start
  rebuild-IsPlumbed s i =
      elim (Bool-cases (build_generation w.reloading w.machinery s.parts.host).1) [
        | inl b ↦
            rw (b, rebuild)
              (record {
                listening = i.listening;
                answering = i.answering;
                one_dispatch =
                    keeps s.config_path (dropped_before_build w s).parts ∙ i.one_dispatch;
                one_hook = i.one_hook;
                one_thread = i.one_thread;
              })
        | inr b ↦
            rw (b, rebuild)
              (record {
                listening = i.listening;
                answering = i.answering;
                one_dispatch = i.one_dispatch;
                one_hook = i.one_hook;
                one_thread = i.one_thread;
              })
      ]

  pub reload-IsPlumbed : (s : Session) → IsPlumbed s → IsPlumbed (reload_scheme run w s)
  unfolding reload_scheme
  reload-IsPlumbed s i = elim (Bool-cases (not s.up || is_empty s.config_path)) [
    | inl e ↦ rw (e, reload_scheme) i
    | inr e ↦ rw (e, reload_scheme) (rebuild-IsPlumbed s i)
  ]

  pub tried-IsPlumbed : (s : Session) → IsPlumbed s → IsPlumbed (tried w s)
  tried-IsPlumbed s i = record {
    listening = i.listening;
    answering = i.answering;
    one_dispatch = i.one_dispatch;
    one_hook = i.one_hook;
    one_thread = i.one_thread;
  }

  started-one_thread :
      (s : Session) {d e : Watchdog}
      → IsPlumbed s
      → d ≡ start_watchdog s.watchdog
      → e ≡ d
      → e.threads ≡ (if e.running then 1 else 0)
  unfolding start_watchdog
  started-one_thread s i p q =
      subst (λ (x : Watchdog). x.threads ≡ (if x.running then 1 else 0)) (sym (q ∙ p))
        (ground (arith, i.one_thread))

  -- A session that was down and is brought up: `t` is the session with its hook.
  pub plumb-IsPlumbed :
      (s t : Session)
      → IsPlumbed s
      → s.up ≡ false
      → t.up ≡ true
      → t.parts.events ≡ s.parts.events
      → t.hooks ≤ (if t.hook_tried then 1 else 0)
      → t.watchdog ≡ start_watchdog s.watchdog
      → IsPlumbed (plumb w t)
  unfolding plumb start_watchdog register_start_dispatch
  plumb-IsPlumbed s t i down up events hooks dog =
      let (up_kept, parts, listens, hooks_kept, tried_kept, dog_kept, answers) =
        register_ipc-rest w t in
      record {
        listening = sym up ∙ sym up_kept;
        answering = answers ∙ sym up ∙ sym up_kept;
        one_dispatch = ground (
          arith,
          ap (λ (p : Parts). p.events.dispatches) parts,
          ap (λ (e : Events). e.dispatches) events,
          i.one_dispatch,
          down,
          up_kept,
          up,
        );
        one_hook = rw (hooks_kept, tried_kept) hooks;
        one_thread = started-one_thread s i dog dog_kept;
      }
