-- ===== src/Event/Subscription.antt =====
-- Subscriptions of cpp/Event.cpp against what was asked for.
use hyprscheme.Base.{
  ℕ, ◌≡◌, refl, ap, ◌∙◌, true, false, Option, none, some, List, [], ◌∷◌, if◌then◌else◌, ◌==◌, find,
  is_some, find-emplace, find-erase, arith, ==_refl,
}
use hyprscheme.Base.Int.{pos}
use hyprscheme.Event.{
  Signal, Events, connect, listen, event_cancel, event_active, drop_event_handlers, done, refused,
}

-- What is asked of the event family in the course of a session, once it is up.
pub data Request : Type 0 where
  subscribe : ℕ → Signal → Request
  cancel : ℕ → Request
  reload : Request

abbrev pub serve : Request → Events → Events
serve (subscribe r g) s = (listen true r (some g) s).0
serve (cancel r) s = (event_cancel true r s).0
serve reload s = drop_event_handlers s

abbrev pub serve_all : List Request → Events → Events
serve_all [] s = s
serve_all (q ∷ qs) s = serve_all qs (serve q s)

-- The signal a record is subscribed to, on paper.
abbrev pub asked : ℕ → Request → Option Signal → Option Signal
asked r (subscribe j g) now = if j == r then (if is_some now then now else some g) else now
asked r (cancel j) now = if j == r then none else now
asked r reload now = none

abbrev pub asked_all : ℕ → List Request → Option Signal → Option Signal
asked_all r [] now = now
asked_all r (q ∷ qs) now = asked_all r qs (asked r q now)

find-listen :
    (r j : ℕ) (g : Signal) (s : Events)
    → find r (listen true j (some g) s).0.connections ≡ (
        if j == r
        then (if is_some (find r s.connections) then find r s.connections else some g)
        else find r s.connections)
unfolding listen connect
find-listen r j g s = ground (arith, find-emplace j r g s.connections)

find-cancel :
    (r j : ℕ) (s : Events)
    → find r (event_cancel true j s).0.connections ≡ (if j == r then none else find r s.connections)
unfolding event_cancel
find-cancel r j s = ground (arith, find-erase j r s.connections)

find-drop : (r : ℕ) (s : Events) → find r (drop_event_handlers s).connections ≡ none
unfolding drop_event_handlers find
find-drop r s = refl

find-serve :
    (r : ℕ) (q : Request) (s : Events)
    → find r (serve q s).connections ≡ asked r q (find r s.connections)
find-serve r (subscribe j g) s = find-listen r j g s
find-serve r (cancel j) s = find-cancel r j s
find-serve r reload s = find-drop r s

-- Over any sequence of subscriptions, cancellations and reloads, each record is connected to exactly
-- the signal that it was asked to be on: the first since it was last cancelled or dropped, and to none
-- if there is no such signal.
pub serve_all-asked_all :
    (r : ℕ) (qs : List Request) (s : Events)
    → find r (serve_all qs s).connections ≡ asked_all r qs (find r s.connections)
serve_all-asked_all r [] s = refl
serve_all-asked_all r (q ∷ qs) s =
    serve_all-asked_all r qs (serve q s) ∙ ap (asked_all r qs) (find-serve r q s)

cancel_there :
    (r : ℕ) (s : Events) → is_some (find r s.connections) ≡ true → (event_cancel true r s).1 ≡ done
unfolding event_cancel
cancel_there r s h = rw h refl

cancel_gone :
    (r : ℕ) (s : Events) → find r s.connections ≡ none → event_cancel true r s ≡ (s, refused)
unfolding event_cancel
cancel_gone r s h = rw h refl

subscribed : (g : Signal) (o : Option Signal) → is_some (if is_some o then o else some g) ≡ true
subscribed g none = refl
subscribed g (some h) = refl

-- A record that has subscribed is reported active, and once cancelled it is reported inactive, a
-- second cancellation is refused and changes nothing, and every other record's subscription is what
-- it was before.
pub listen-cancel :
    (r j : ℕ) (g : Signal) (s : Events)
    → let on = (listen true r (some g) s).0 in
      let off = (event_cancel true r on).0 in
      (event_active true r on ≡ pos 1)
      × ((event_cancel true r on).1 ≡ done)
      × (event_active true r off ≡ pos 0)
      × (event_cancel true r off ≡ (off, refused))
      × ((j == r) ≡ false → find j off.connections ≡ find j s.connections)
unfolding event_active
listen-cancel r j g s =
    let on = (listen true r (some g) s).0 in
    let off = (event_cancel true r on).0 in
    let there : is_some (find r on.connections) ≡ true =
      rw (find-listen r r g s, ==_refl r) (subscribed g (find r s.connections)) in
    let gone : find r off.connections ≡ none = rw (find-cancel r r on, ==_refl r) refl in
    (
      rw there refl,
      cancel_there r on there,
      rw gone refl,
      cancel_gone r off gone,
      λ n. ground (arith, find-cancel j r on, find-listen j r g s),
    )
