-- ===== src/Event/Tests.antt =====
-- The theorems on events at concrete handlers.
use hyprscheme.Base.{◌+◌, ◌≡◌, false, [], ◌∷◌, find}
use hyprscheme.Event.{Events, window_active, window_close}
use hyprscheme.Event.Subscription.{subscribe, cancel, serve_all, asked_all, serve_all-asked_all}
use hyprscheme.Event.Start.{
  subscribe_start, first_frame, happen_all, subscriptions, owed, happen_all-owed,
}

abbrev quiet : Events
quiet = record {
  connections = [];
  start_seen = false;
  pending = 4 ∷ [];
  dispatches = 1;
  later = [];
  started = [];
}

serve_all-asked_all_example :
    find 7
      (serve_all
        (subscribe 7 window_close ∷ cancel 7 ∷ subscribe 7 window_active ∷ [])
        quiet).connections
    ≡ asked_all 7
        (subscribe 7 window_close ∷ cancel 7 ∷ subscribe 7 window_active ∷ [])
        (find 7 quiet.connections)
serve_all-asked_all_example =
    serve_all-asked_all 7 (subscribe 7 window_close ∷ cancel 7 ∷ subscribe 7 window_active ∷ [])
      quiet

happen_all-owed_example :
    owed 4 (happen_all (subscribe_start 4 ∷ first_frame ∷ first_frame ∷ []) quiet)
    ≡ owed 4 quiet + subscriptions 4 (subscribe_start 4 ∷ first_frame ∷ first_frame ∷ [])
happen_all-owed_example =
    happen_all-owed 4 (subscribe_start 4 ∷ first_frame ∷ first_frame ∷ []) quiet
