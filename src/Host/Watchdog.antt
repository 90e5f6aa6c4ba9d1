-- ===== src/Host/Watchdog.antt =====
-- The callback watchdog of cpp/Host.cpp: the main thread's writes, one atomic at a time, and the
-- detector thread's loop, one read at a time. Times are milliseconds of the steady clock, which is not
-- 0 once the session runs.
pub mod Overruns
use hyprscheme.Base.{
  ℕ, zero, suc, ◌-◌, Bool, true, false, not, ◌&&◌, List, [], ◌∷◌, if◌then◌else◌, Text, ltb,
}

-- Where the detector thread is in its loop: asleep, with `g_callbackStartMs` loaded, or about to report
-- a time of which it has yet to load the callback's name.
pub data Detector : Type 0 where
  asleep : Detector
  loaded : ℕ → Detector
  overrun : ℕ → Detector

-- The line that is logged.
pub record Report : Type 0 where
  pub what : Text
  pub elapsed : ℕ

-- `g_watchdogRun`, how many threads were detached, `g_callbackStartMs`, `g_callbackWhat`, the thread's
-- place and its `reported`, and the lines logged, the newest first.
pub record Watchdog : Type 0 where
  pub running : Bool
  pub threads : ℕ
  pub start : ℕ
  pub what : Text
  pub place : Detector
  pub reported : Bool
  pub reports : List Report

abbrev pub limit : ℕ
limit = 5000

-- The two stores of `watchdogEnter`.
abbrev pub name_callback : Text → Watchdog → Watchdog
name_callback w s = record s { what = w }

abbrev pub stamp : ℕ → Watchdog → Watchdog
stamp now s = record s { start = now }

unfoldable pub watchdog_enter : Text → ℕ → Watchdog → Watchdog
watchdog_enter w now s = stamp now (name_callback w s)

unfoldable pub watchdog_exit : Watchdog → Watchdog
watchdog_exit s = record s { start = 0 }

-- `g_watchdogRun.exchange(true)` lets one thread start.
unfoldable pub start_watchdog : Watchdog → Watchdog
start_watchdog s = record s {
  running = true;
  threads = if s.running then s.threads else suc s.threads;
}

-- The thread wakes and loads the start.
abbrev pub wake_at : Detector → Watchdog → Watchdog
wake_at asleep s = record s { place = loaded s.start }
wake_at (loaded t) s = s
wake_at (overrun e) s = s

unfoldable pub wake : Watchdog → Watchdog
wake s = wake_at s.place s

-- What it does with the start that it loaded.
abbrev pub judge_at : Detector → ℕ → Watchdog → Watchdog
judge_at asleep now s = s
judge_at (loaded zero) now s = record s { reported = false; place = asleep }
judge_at (loaded (suc t)) now s =
    if ltb limit (now - suc t) && not s.reported
    then record s { reported = true; place = overrun (now - suc t) }
    else record s { place = asleep }
judge_at (overrun e) now s = s

unfoldable pub judge : ℕ → Watchdog → Watchdog
judge now s = judge_at s.place now s

-- It logs the line, with the name as it is now.
abbrev pub log_at : Detector → Watchdog → Watchdog
log_at asleep s = s
log_at (loaded t) s = s
log_at (overrun e) s = record s {
  place = asleep;
  reports = record { what = s.what; elapsed = e } ∷ s.reports;
}

unfoldable pub log_overrun : Watchdog → Watchdog
log_overrun s = log_at s.place s

-- One turn of the loop that nothing interrupts.
unfoldable pub turn : ℕ → Watchdog → Watchdog
unfolding wake judge log_overrun
turn now s = log_overrun (judge now (wake s))
