-- ===== src/Host/Watchdog/Overruns.antt =====
-- What the watchdog of cpp/Host.cpp reports, over every interleaving of the two threads.
use hyprscheme.Base.{
  ℕ, zero, suc, ◌+◌, ◌-◌, ◌<◌, ◌≤◌, ◌≡◌, refl, ap, ◌∙◌, Bool, true, false, not, ◌&&◌, List, [], ◌∷◌,
  ◌++◌, if◌then◌else◌, Text, ltb, All, arith, Bool-cases, inl, inr,
}
use hyprscheme.Host.Watchdog.{
  Detector, asleep, loaded, overrun, Report, Watchdog, limit, name_callback, stamp, watchdog_enter,
  watchdog_exit, start_watchdog, wake_at, wake, judge_at, judge, log_at, log_overrun, turn,
}

-- One atomic step of either thread.
pub data Step : Type 0 where
  names : Text → Step
  stamps : ℕ → Step
  exits starts wakes logs : Step
  judges : ℕ → Step

abbrev pub step : Step → Watchdog → Watchdog
step (names w) s = name_callback w s
step (stamps now) s = stamp now s
step exits s = watchdog_exit s
step starts s = start_watchdog s
step wakes s = wake s
step logs s = log_overrun s
step (judges now) s = judge now s

abbrev pub interleave : List Step → Watchdog → Watchdog
interleave [] s = s
interleave (p ∷ ps) s = interleave ps (step p s)

-- The detector at rest, no callback running.
abbrev pub fresh_watchdog : Watchdog
fresh_watchdog = record {
  running = false;
  threads = 0;
  start = 0;
  what = [];
  place = asleep;
  reported = false;
  reports = [];
}

-- A report that is about to be made has run over the limit.
abbrev IsOver : Detector → Type 0
IsOver asleep = Unit
IsOver (loaded t) = Unit
IsOver (overrun e) = limit < e

pub record IsSound (s : Watchdog) : Type 0 where
  pub over : All (λ (r : Report). limit < r.elapsed) s.reports
  pub coming : IsOver s.place
  pub one_thread : s.threads ≡ (if s.running then 1 else 0)

wake_at-IsSound : (d : Detector) (s : Watchdog) → IsSound s → IsSound (wake_at d s)
wake_at-IsSound asleep s i = record { over = i.over; coming = tt; one_thread = i.one_thread }
wake_at-IsSound (loaded t) s i = i
wake_at-IsSound (overrun e) s i = i

judge_at-IsSound : (d : Detector) (now : ℕ) (s : Watchdog) → IsSound s → IsSound (judge_at d now s)
judge_at-IsSound asleep now s i = i
judge_at-IsSound (overrun e) now s i = i
judge_at-IsSound (loaded zero) now s i = record {
  over = i.over;
  coming = tt;
  one_thread = i.one_thread;
}
judge_at-IsSound (loaded (suc t)) now s i =
    elim (Bool-cases (ltb limit (now - suc t) && not s.reported)) [
      | inl o ↦ rw o (record { over = i.over; coming = ground arith; one_thread = i.one_thread })
      | inr o ↦ rw o (record { over = i.over; coming = tt; one_thread = i.one_thread })
    ]

log_at-IsSound : (d : Detector) (s : Watchdog) → IsOver d → IsSound s → IsSound (log_at d s)
log_at-IsSound asleep s o i = i
log_at-IsSound (loaded t) s o i = i
log_at-IsSound (overrun e) s o i = record {
  over = (o, i.over);
  coming = tt;
  one_thread = i.one_thread;
}

step-IsSound : (p : Step) (s : Watchdog) → IsSound s → IsSound (step p s)
unfolding watchdog_exit start_watchdog wake judge log_overrun
step-IsSound (names w) s i = record { over = i.over; coming = i.coming; one_thread = i.one_thread }
step-IsSound (stamps now) s i = record {
  over = i.over;
  coming = i.coming;
  one_thread = i.one_thread;
}
step-IsSound exits s i = record { over = i.over; coming = i.coming; one_thread = i.one_thread }
step-IsSound starts s i = record {
  over = i.over;
  coming = i.coming;
  one_thread = ground (arith, i.one_thread);
}
step-IsSound wakes s i = wake_at-IsSound s.place s i
step-IsSound logs s i = log_at-IsSound s.place s i.coming i
step-IsSound (judges now) s i = judge_at-IsSound s.place now s i

-- However the two threads interleave, each line that is logged reports more than the limit, and the
-- detector was started once at most.
pub interleave-IsSound : (ps : List Step) → IsSound (interleave ps fresh_watchdog)
interleave-IsSound ps = go ps fresh_watchdog (record { over = tt; coming = tt; one_thread = refl })
  where
    go : (ps : List Step) (s : Watchdog) → IsSound s → IsSound (interleave ps s)
    go [] s i = i
    go (p ∷ qs) s i = go qs (step p s) (step-IsSound p s i)

-- Whole turns at these times.
abbrev pub turns : List ℕ → Watchdog → Watchdog
turns [] s = s
turns (now ∷ ts) s = turns ts (turn now s)

abbrev at_rest : Bool → ℕ → Watchdog → Watchdog
at_rest b t s = record s { place = asleep; reported = b; start = t }

turn-idle : (now : ℕ) (b : Bool) (s : Watchdog) → turn now (at_rest b 0 s) ≡ at_rest false 0 s
unfolding turn wake judge log_overrun
turn-idle now b s = refl

turn-quiet : (now t : ℕ) (s : Watchdog) → turn now (at_rest true (suc t) s) ≡ at_rest true (suc t) s
unfolding turn wake judge log_overrun
turn-quiet now t s = elim (Bool-cases (ltb limit (now - suc t))) [
  | inl e ↦ rw (e, turn) refl
  | inr e ↦ rw (e, turn) refl
]

turn-early :
    (now t : ℕ) (s : Watchdog)
    → ltb limit (now - suc t) ≡ false
    → turn now (at_rest false (suc t) s) ≡ at_rest false (suc t) s
unfolding turn wake judge log_overrun
turn-early now t s e = rw (e, turn) refl

turn-late :
    (now t : ℕ) (s : Watchdog)
    → ltb limit (now - suc t) ≡ true
    → turn now (at_rest false (suc t) s)
      ≡ at_rest true
          (suc t)
          (record s { reports = record { what = s.what; elapsed = now - suc t } ∷ s.reports })
unfolding turn wake judge log_overrun
turn-late now t s e = rw (e, turn) refl

turns-idle :
    (ts : List ℕ) (b : Bool) (s : Watchdog) → (turns ts (at_rest b 0 s)).reports ≡ s.reports
turns-idle [] b s = refl
turns-idle (now ∷ ts) b s =
    ap (λ x. (turns ts x).reports) (turn-idle now b s) ∙ turns-idle ts false s

turns-quiet :
    (ts : List ℕ) (t : ℕ) (s : Watchdog) → (turns ts (at_rest true (suc t) s)).reports ≡ s.reports
turns-quiet [] t s = refl
turns-quiet (now ∷ ts) t s =
    ap (λ x. (turns ts x).reports) (turn-quiet now t s) ∙ turns-quiet ts t s

turns-late :
    (before after : List ℕ) (now t : ℕ) (s : Watchdog)
    → All (λ u. u ≤ limit + suc t) before
    → limit + suc t < now
    → (turns (before ++ now ∷ after) (at_rest false (suc t) s)).reports
      ≡ record { what = s.what; elapsed = now - suc t } ∷ s.reports
turns-late [] after now t s h late =
    ap (λ x. (turns after x).reports) (turn-late now t s (ground arith))
    ∙ turns-quiet after t
        (record s { reports = record { what = s.what; elapsed = now - suc t } ∷ s.reports })
turns-late (u ∷ us) after now t s h late =
    ap (λ x. (turns (us ++ now ∷ after) x).reports) (turn-early u t s (ground (arith, h.0)))
    ∙ turns-late us after now t s h.1 late

enter-at_rest :
    (w : Text) (t : ℕ) (s : Watchdog) {b : Bool}
    → s.place ≡ asleep
    → s.reported ≡ b
    → watchdog_enter w t s ≡ at_rest b t (record s { what = w })
unfolding watchdog_enter
enter-at_rest w t s p r = rw (p, r) refl

nested-at_rest :
    (outer inner : Text) (t u : ℕ) (s : Watchdog)
    → s.place ≡ asleep
    → watchdog_exit (watchdog_enter inner u (watchdog_enter outer t s))
      ≡ at_rest s.reported 0 (record s { what = inner })
unfolding watchdog_enter watchdog_exit
nested-at_rest outer inner t u s p = rw p refl

-- A callback that is entered when the detector is asleep and has reported nothing since it last found
-- no callback running, and that still runs when the detector first wakes past the limit, is logged at
-- that turn, under its name and with the time it has run, and is not logged again however long it goes
-- on.
pub turns-overrun :
    (w : Text) (t now : ℕ) (before after : List ℕ) (s : Watchdog)
    → s.place ≡ asleep
    → s.reported ≡ false
    → 0 < t
    → All (λ u. u ≤ limit + t) before
    → limit + t < now
    → (turns (before ++ now ∷ after) (watchdog_enter w t s)).reports
      ≡ record { what = w; elapsed = now - t } ∷ s.reports
turns-overrun w zero now before after s p r z h late = absurd (omega arith)
turns-overrun w (suc t) now before after s p r z h late =
    ap (λ x. (turns (before ++ now ∷ after) x).reports) (enter-at_rest w (suc t) s p r)
    ∙ turns-late before after now t (record s { what = w }) h late

-- Two overruns that the detector does not log, however long they go on: that of a callback that is
-- entered after a logged one has ended and before the detector has woken in between, and that of a
-- callback in which another one was entered and has returned. The detector is asleep at the start.
pub turns-missed :
    (outer inner : Text) (t u : ℕ) (ts : List ℕ) (s : Watchdog)
    → s.place ≡ asleep
    → 0 < t
    → (s.reported ≡ true
        → (turns ts (watchdog_enter outer t (watchdog_exit s))).reports ≡ s.reports)
      × ((turns ts (watchdog_exit (watchdog_enter inner u (watchdog_enter outer t s)))).reports
          ≡ s.reports)
unfolding watchdog_exit
turns-missed outer inner zero u ts s p z = absurd (omega arith)
turns-missed outer inner (suc t) u ts s p z = (
  λ r.
      ap (λ x. (turns ts x).reports) (enter-at_rest outer (suc t) (watchdog_exit s) p r)
      ∙ turns-quiet ts t (record s { what = outer }),
  ap (λ x. (turns ts x).reports) (nested-at_rest outer inner (suc t) u s p)
      ∙ turns-idle ts s.reported (record s { what = inner }),
)
