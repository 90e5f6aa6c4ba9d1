-- ===== src/Desktop/Monitors/Named.antt =====
-- A monitor's name and the search for it in cpp/Monitor.cpp.
use hyprscheme.Base.{
  ℕ, ◌==◌, ◌≡◌, refl, ap, Bool, true, false, not, ◌||◌, ◌&&◌, some, List, [], ◌∷◌, text_eq,
  text_eq_refl, is_empty, find, arith,
}
use hyprscheme.Scm.{Scm, family_eq, is_handle}
use hyprscheme.Desktop.{
  answers, Monitor, Desktop, false_value, monitor_handle, alive, lock_handle, getter,
}
use hyprscheme.Desktop.Monitors.{named, monitor_from_name}
use hyprscheme.Desktop.MonitorGetters.{mon_get, monitor_name}

-- No monitor but one has its name.
abbrev pub only_named : ℕ → Monitor → List (ℕ × Monitor) → Bool
only_named a m [] = true
only_named a m ((b, n) ∷ ms) =
    let rest = only_named a m ms in (not (text_eq n.name m.name) || (b == a)) && rest

named-only :
    (a : ℕ) (m : Monitor) (ms : List (ℕ × Monitor))
    → find a ms ≡ some m
    → only_named a m ms ≡ true
    → named m.name ms ≡ some a
unfolding find named
named-only a m [] f o = ground arith
named-only a m ((b, n) ∷ ms) f o = ground (arith, named-only a m ms, text_eq_refl m.name)

alive-found :
    (a : ℕ) (m : Monitor) (ms : List (ℕ × Monitor)) → find a ms ≡ some m → alive a ms ≡ some (a, m)
unfolding alive
alive-found a m ms f = rw (f, alive) refl

-- What a handle's getter reads as a monitor's name finds the monitor again, when the name is not empty
-- and no other monitor has it.
pub monitor_name-monitor_from_name :
    (a : ℕ) (m : Monitor) (d : Desktop)
    → find a d.monitors ≡ some m
    → only_named a m d.monitors ≡ true
    → is_empty m.name ≡ false
    → (monitor_name true (monitor_handle a) d ≡ answers (Scm.string m.name))
      × (monitor_from_name (some m.name) d ≡ some a)
unfolding monitor_name monitor_from_name mon_get lock_handle alive getter is_handle family_eq
monitor_name-monitor_from_name a m d f o e = (
  ap (λ o. getter true false_value (λ b (n : Monitor). Scm.string n.name) (answers o))
      (alive-found a m d.monitors f),
  rw (e, monitor_from_name) (named-only a m d.monitors f o),
)
