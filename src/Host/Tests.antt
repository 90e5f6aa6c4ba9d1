-- ===== src/Host/Tests.antt =====
-- The theorems on the host in concrete environments and histories.
use hyprscheme.Base.{
  ◌≡◌, refl, Bool, true, Option, none, some, Text, codes, [], ◌∷◌, ◌++◌, arith, if◌then◌else◌,
  text_eq,
}
use hyprscheme.Host.Watchdog.{watchdog_enter, watchdog_exit}
use hyprscheme.Host.Watchdog.Overruns.{
  fresh_watchdog, interleave, IsSound, names, stamps, starts, wakes, judges, logs, turns,
  interleave-IsSound, turns-overrun, turns-missed,
}

abbrev etc_only : Text → Bool
etc_only p = text_eq p (codes "/etc/xdg/hypr/hyprland.scm")

interleave-IsSound_example : IsSound (
    interleave
      (starts ∷ names (codes "eval") ∷ stamps 10 ∷ wakes ∷ judges 6000 ∷ logs ∷ [])
      fresh_watchdog)
interleave-IsSound_example =
    interleave-IsSound (starts ∷ names (codes "eval") ∷ stamps 10 ∷ wakes ∷ judges 6000 ∷ logs ∷ [])

turns-overrun_example :
    (turns
      ((400 ∷ 5000 ∷ []) ++ 5500 ∷ 6000 ∷ 6500 ∷ [])
      (watchdog_enter (codes "eval") 100 fresh_watchdog)).reports
    ≡ record { what = codes "eval"; elapsed = 5400 } ∷ []
turns-overrun_example =
    turns-overrun (codes "eval") 100 5500 (400 ∷ 5000 ∷ []) (6000 ∷ 6500 ∷ []) fresh_watchdog refl
      refl (omega arith) (omega arith, (omega arith, tt)) (omega arith)

turns-missed_example :
    let s = record fresh_watchdog { reported = true; start = 100 } in
    (s.reported ≡ true
      → (turns (9000 ∷ 20000 ∷ []) (watchdog_enter (codes "eval") 7000 (watchdog_exit s))).reports
        ≡ s.reports)
    × ((turns (9000 ∷ 20000 ∷ []) (
          watchdog_exit
            (watchdog_enter (codes "handler") 7100 (watchdog_enter (codes "eval") 7000 s)))).reports
        ≡ s.reports)
turns-missed_example =
    turns-missed (codes "eval") (codes "handler") 7000 7100 (9000 ∷ 20000 ∷ [])
      (record fresh_watchdog { reported = true; start = 100 }) refl (omega arith)

abbrev tree_only : Text → Option Text
tree_only v = if text_eq v (codes "HOME") then some (codes "/home/u") else none

abbrev installed : Text → Bool
installed p = text_eq p (codes "/home/u/.local/share/hyprscheme/scm/init.scm")
