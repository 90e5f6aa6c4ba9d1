-- ===== src/Host/Session/Reload.antt =====
-- What a reload of cpp/Host.cpp leaves of the generation before it, in all the components at once.
use hyprscheme.Base.{◌≡◌, refl, Bool, true, false, none, [], if◌then◌else◌, Text, is_empty}
use hyprscheme.Timer.Lifetime.{live}
use hyprscheme.Timer.Histories.{Reach, no_timers, reload_cancels_all}
use hyprscheme.Event.{drop_event_handlers, forget_pending_start}
use hyprscheme.Layout.Names.{IsWellFormed, clear_empties}
use hyprscheme.Rule.Store.{empty_book}
use hyprscheme.Rule.Builder.{clear_scheme_rules}
use hyprscheme.Host.Generation.{HostState, build_generation}
use hyprscheme.Host.Generation.Atomic.{IsAtomic, build_generation-IsAtomic}
use hyprscheme.Host.Session.{
  Parts, Session, World, drop_generation, after_config, with_host, dropped_before_build, rebuild,
  reload_scheme,
}

-- Nothing that an earlier generation registered.
pub record IsClean (p : Parts) : Type 0 where
  pub no_timer : live p.timers.calls ≡ []
  pub no_entry : p.timers.index ≡ []
  pub no_listener : p.events.connections ≡ []
  pub no_start_handler : p.events.pending ≡ []
  pub no_layout : p.registry.layouts ≡ []
  pub no_layout_listener : p.registry.listeners ≡ 0
  pub no_rule_handle : p.rules.index ≡ []
  pub no_window_rule : p.rules.windows ≡ empty_book
  pub no_layer_rule : p.rules.layers ≡ empty_book
  pub no_workspace_rule : p.rules.workspace ≡ none

drop_generation-IsClean :
    (p : Parts) (h : HostState)
    → Reach no_timers p.timers
    → IsWellFormed p.registry
    → IsClean (with_host h (drop_generation true p))
unfolding drop_generation drop_event_handlers forget_pending_start clear_scheme_rules
drop_generation-IsClean p h r v = record {
  no_timer = (reload_cancels_all p.timers r).0;
  no_entry = (reload_cancels_all p.timers r).1;
  no_listener = refl;
  no_start_handler = refl;
  no_layout = (clear_empties p.registry v).0;
  no_layout_listener = (clear_empties p.registry v).1;
  no_rule_handle = refl;
  no_window_rule = refl;
  no_layer_rule = refl;
  no_workspace_rule = refl;
}

reload_scheme-rebuild :
    (run : Text → Parts → Parts × Bool) (w : World) (s : Session)
    → s.up ≡ true
    → is_empty s.config_path ≡ false
    → reload_scheme run w s ≡ rebuild run w s
unfolding reload_scheme
reload_scheme-rebuild run w s up path = rw (up, path) refl

-- A reload with the interpreter up, a configuration to load and the event loop there runs the
-- configuration in a session that holds no timer, listener, waiting start handler, layout or rule of
-- the generation before, with the fresh module as the generation. When the machinery cannot be built
-- the configuration is not run: the generation before stays current, and its timers, listeners,
-- layouts and rules are gone. The timers come from a history of the timers' entry points and the
-- layouts' registry is well-formed.
pub reload_scheme-IsClean :
    (run : Text → Parts → Parts × Bool) (w : World) (s : Session)
    → s.up ≡ true
    → is_empty s.config_path ≡ false
    → w.loop ≡ true
    → Reach no_timers s.parts.timers
    → IsWellFormed s.parts.registry
    → (c : Session) × (built : Bool) × IsClean c.parts
      × IsAtomic w.reloading w.machinery s.parts.host (c.parts.host, built)
      × (c.parts.binds ≡ s.parts.binds)
      × (c.config_path ≡ s.config_path)
      × (reload_scheme run w s ≡ (if built then after_config c (run c.config_path c.parts) else c))
unfolding reload_scheme rebuild dropped_before_build drop_generation
reload_scheme-IsClean run w s up path loop r v = (
  dropped_before_build w s,
  (build_generation w.reloading w.machinery s.parts.host).1,
  rw (loop, dropped_before_build) (drop_generation-IsClean s.parts _ r v),
  build_generation-IsAtomic w.reloading w.machinery s.parts.host,
  refl,
  refl,
  reload_scheme-rebuild run w s up path,
)
