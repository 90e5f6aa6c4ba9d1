-- ===== src/Timer/Histories.antt =====
-- The timers of cpp/Timer.cpp over every history of its entry points.
use hyprscheme.Base.{
  ℕ, ◌≡◌, refl, ap, sym, ◌∙◌, ◌⊎◌, inl, inr, Bool, true, false, not, ◌||◌, ◌&&◌, none, some, List,
  [], ◌∷◌, find, emplace, erase, assign, member, IsDistinct, arith, Option-cases, Bool-cases,
  member-keys, keys-assign, is_some,
}
use hyprscheme.Base.Int.{ℤ, is_negative}
use hyprscheme.Timer.{
  LoopCall, Entry, Timers, remove_timer, cancel_timer, update_timeout, scheme_timer, after_fire,
  timer_set_enabled, timer_set_timeout, timer_cancel, cancel_each, cancel_all_timers,
}
use hyprscheme.Timer.Lifetime.{
  without, live, timers_of, IsIndexed, without-absent, member-below, below-suc, erase-absent,
  timers_of-assign, drop-IsIndexed,
}

create-IsIndexed :
    (up loop : Bool) (r : ℕ) (ms : ℤ) (repeats : Bool) (s : Timers)
    → find r s.index ≡ none
    → IsIndexed s
    → IsIndexed (scheme_timer up loop r ms repeats s).0
unfolding scheme_timer emplace
create-IsIndexed up loop r ms repeats s f v =
    elim (Bool-cases (not up || not loop || is_negative ms)) [
      | inl e ↦ rw (e, scheme_timer) v
      | inr e ↦
          rw (e, f, scheme_timer, emplace)
            (record {
              held = ap (◌∷◌ s.next) v.held;
              records = (member-keys r s.index ∙ ap is_some f, v.records);
              timers = (member-below s.next (timers_of s.index) v.fresh, v.timers);
              fresh = (omega arith, below-suc s.next (timers_of s.index) v.fresh);
            })
    ]

-- A closure runs for the timer of its record's entry, or after the entry and the timer are gone.
abbrev pub RunsFor : ℕ → ℕ → Timers → Type 0
RunsFor r t s =
    ((e : Entry) × (find r s.index ≡ some e) × (e.timer ≡ t))
    ⊎ ((find r s.index ≡ none) × (member t (timers_of s.index) ≡ false))

after_fire-IsIndexed :
    (r t ms : ℕ) (repeats success : Bool) (s : Timers)
    → RunsFor r t s
    → IsIndexed s
    → IsIndexed (after_fire true r t ms repeats success s)
unfolding after_fire
after_fire-IsIndexed r t ms repeats success s runs v = elim (Bool-cases (repeats && success)) [
  | inl again ↦
      rw (again, after_fire)
        (record { held = v.held; records = v.records; timers = v.timers; fresh = v.fresh })
  | inr over ↦ rw (over, after_fire) (ended runs)
]
  where
    ended :
        RunsFor r t s
        → IsIndexed (record s {
          index = erase r s.index;
          calls = remove_timer t ∷ cancel_timer t ∷ s.calls;
        })
    ended (inl (e, f, q)) =
        drop-IsIndexed r s (remove_timer t ∷ cancel_timer t ∷ s.calls) {e = e} f (rw q) v
    ended (inr (f, q)) = rw (erase-absent r s.index f) (record {
      held = ap (without t) v.held ∙ without-absent t (timers_of s.index) q;
      records = v.records;
      timers = v.timers;
      fresh = v.fresh;
    })

set_enabled-IsIndexed :
    (up : Bool) (r : ℕ) (enabled : Bool) (s : Timers)
    → IsIndexed s
    → IsIndexed (timer_set_enabled up r enabled s).0
unfolding timer_set_enabled
set_enabled-IsIndexed up r enabled s v = elim (Bool-cases up) [
  | inr down ↦ rw (down, timer_set_enabled) v
  | inl ready ↦ elim (Option-cases (find r s.index)) [
    | inl f ↦ rw (ready, f, timer_set_enabled) v
    | inr (e, f) ↦
        rw (ready, f, timer_set_enabled)
          (record { held = v.held; records = v.records; timers = v.timers; fresh = v.fresh })
  ]
]

set_timeout-IsIndexed :
    (below_one : ℕ → Bool) (whole : ℕ → ℕ) (up : Bool) (r ms : ℕ) (s : Timers)
    → IsIndexed s
    → IsIndexed (timer_set_timeout below_one whole up r ms s).0
unfolding timer_set_timeout
set_timeout-IsIndexed below_one whole up r ms s v = elim (Bool-cases up) [
  | inr down ↦ rw (down, timer_set_timeout) v
  | inl ready ↦ elim (Option-cases (find r s.index)) [
    | inl f ↦ rw (ready, f, timer_set_timeout) v
    | inr (e, f) ↦ elim (Bool-cases (below_one ms)) [
      | inl low ↦ rw (ready, f, low, timer_set_timeout) v
      | inr ok ↦ rw (ready, f, ok, timer_set_timeout) (retuned e f)
    ]
  ]
]
  where
    retuned :
        (e : Entry)
        → find r s.index ≡ some e
        → IsIndexed (record s {
          index = assign r (record e { ms = whole ms }) s.index;
          calls = update_timeout e.timer (some (whole ms)) ∷ s.calls;
        })
    retuned e f =
        let same =
          timers_of-assign r s.index (record e { ms = whole ms }) {e = e} f refl v.records in
        record {
          held = v.held ∙ sym same;
          records = rw (keys-assign r (record e { ms = whole ms }) s.index) v.records;
          timers = rw same v.timers;
          fresh = rw same v.fresh;
        }

cancel-IsIndexed :
    (up loop : Bool) (r : ℕ) (s : Timers) → IsIndexed s → IsIndexed (timer_cancel up loop r s).0
unfolding timer_cancel
cancel-IsIndexed up loop r s v = elim (Bool-cases (not up || not loop)) [
  | inl e ↦ rw (e, timer_cancel) v
  | inr e ↦ elim (Option-cases (find r s.index)) [
    | inl f ↦ rw (e, f, timer_cancel) v
    | inr (w, f) ↦
        rw (e, f, timer_cancel)
          (drop-IsIndexed r s (remove_timer w.timer ∷ cancel_timer w.timer ∷ s.calls) {e = w} f refl
            v)
  ]
]

live-cancel_each :
    (m : List (ℕ × Entry)) (cs : List LoopCall)
    → live cs ≡ timers_of m
    → IsDistinct (timers_of m)
    → live (cancel_each m cs) ≡ []
unfolding cancel_each
live-cancel_each [] cs h d = h
live-cancel_each ((r, e) ∷ m) cs h d =
    live-cancel_each m (remove_timer e.timer ∷ cancel_timer e.timer ∷ cs)
      (ap (without e.timer) h ∙ ground (arith, without-absent e.timer (timers_of m))) d.1

cancel_all-empty :
    (s : Timers)
    → IsIndexed s
    → (live (cancel_all_timers true s).calls ≡ []) × ((cancel_all_timers true s).index ≡ [])
unfolding cancel_all_timers
cancel_all-empty s v = (live-cancel_each s.index s.calls v.held v.timers, refl)

-- One call of an entry point, or the end of a callback. A record is made for its timer, so it has none
-- when the timer is created; `loop` is there throughout.
pub data Step (s : Timers) : Timers → Type 0 where
  create :
      (up : Bool) (r : ℕ) (ms : ℤ) (repeats : Bool)
      → find r s.index ≡ none
      → Step s (scheme_timer up true r ms repeats s).0
  returned :
      (r t ms : ℕ) (repeats success : Bool)
      → RunsFor r t s
      → Step s (after_fire true r t ms repeats success s)
  set_enabled : (up : Bool) (r : ℕ) (on : Bool) → Step s (timer_set_enabled up r on s).0
  set_timeout :
      (below_one : ℕ → Bool) (whole : ℕ → ℕ) (up : Bool) (r ms : ℕ)
      → Step s (timer_set_timeout below_one whole up r ms s).0
  cancel : (up : Bool) (r : ℕ) → Step s (timer_cancel up true r s).0
  reload : Step s (cancel_all_timers true s)

pub data Reach (s : Timers) : Timers → Type 0 where
  here : Reach s s
  next_step : {t u : Timers} → Reach s t → Step t u → Reach s u

unfoldable pub no_timers : Timers
no_timers = record { index = []; next = 0; calls = [] }

reload-IsIndexed : (s : Timers) → IsIndexed s → IsIndexed (cancel_all_timers true s)
unfolding cancel_all_timers
reload-IsIndexed s v = record {
  held = (live-cancel_each s.index s.calls v.held v.timers);
  records = tt;
  timers = tt;
  fresh = tt;
}

Step-IsIndexed : {s t : Timers} → Step s t → IsIndexed s → IsIndexed t
Step-IsIndexed {s} (create up r ms repeats f) v = create-IsIndexed up true r ms repeats s f v
Step-IsIndexed {s} (returned r t ms repeats success f) v =
    after_fire-IsIndexed r t ms repeats success s f v
Step-IsIndexed {s} (set_enabled up r on) v = set_enabled-IsIndexed up r on s v
Step-IsIndexed {s} (set_timeout below_one whole up r ms) v =
    set_timeout-IsIndexed below_one whole up r ms s v
Step-IsIndexed {s} (cancel up r) v = cancel-IsIndexed up true r s v
Step-IsIndexed {s} reload v = reload-IsIndexed s v

-- After any history the event loop holds exactly the timers of the index: each of them once, under
-- one record. The loop is there throughout, a timer is created for a record that has none, and a
-- callback returns for the timer of its record, or after the record and the timer are gone.
pub Reach-IsIndexed : (s : Timers) → Reach no_timers s → IsIndexed s
unfolding no_timers
Reach-IsIndexed s here = record { held = refl; records = tt; timers = tt; fresh = tt }
Reach-IsIndexed s (next_step r st) = Step-IsIndexed st (Reach-IsIndexed _ r)

-- After any such history, a reload leaves the event loop without a timer of the old generation, and
-- the index empty. The loop is there throughout, a timer is created for a record that has none, and
-- a callback returns for the timer of its record, or after the record and the timer are gone.
pub reload_cancels_all :
    (s : Timers)
    → Reach no_timers s
    → (live (cancel_all_timers true s).calls ≡ []) × ((cancel_all_timers true s).index ≡ [])
reload_cancels_all s r = cancel_all-empty s (Reach-IsIndexed s r)
