-- ===== src/Timer/Tests.antt =====
-- The theorems on timers at concrete timers.
use hyprscheme.Base.{refl, find, emplace, true, false}
use hyprscheme.Base.Int.{pos}
use hyprscheme.Timer.{Timers, scheme_timer}
use hyprscheme.Timer.Lifetime.{IsIndexed}
use hyprscheme.Timer.Histories.{Reach, here, next_step, create, no_timers, Reach-IsIndexed}

abbrev first : Timers
unfolding scheme_timer no_timers
first = (scheme_timer true true 7 (pos 50) true no_timers).0

abbrev second : Timers
unfolding scheme_timer
second = (scheme_timer true true 9 (pos 20) false first).0

first-Reach : Reach no_timers (scheme_timer true true 7 (pos 50) true no_timers).0
unfolding no_timers find
first-Reach = next_step here (create true 7 (pos 50) true refl)

second-Reach :
    Reach no_timers
      (scheme_timer true true 9
        (pos 20)
        false
        (scheme_timer true true 7 (pos 50) true no_timers).0).0
unfolding no_timers scheme_timer find emplace
second-Reach = next_step first-Reach (create true 9 (pos 20) false refl)

Reach-IsIndexed_example : IsIndexed second
unfolding scheme_timer no_timers
Reach-IsIndexed_example = Reach-IsIndexed second second-Reach
