-- ===== src/Interp/Tests.antt =====
-- The theorems on carriers and on the boundary at a concrete history and a concrete call.
use hyprscheme.Base.{◌≡◌, ◌⊎◌, false, [], ◌∷◌, List, ◌+◌, codes}
use hyprscheme.Base.Int.{pos}
use hyprscheme.Scm.{Scm, list_of, elements}
use hyprscheme.Scm.Reads.{Reals}
use hyprscheme.Desktop.{Outcome, raised, answers, then_with}
use hyprscheme.Interp.Boundary.{ArgType, name_arg, int_arg, int_ret, RetOf, Args, box, trampoline}
use hyprscheme.Interp.Boundary.Typed.{ArePassed, trampoline-ArePassed}
use hyprscheme.Interp.{object, bool_f}
use hyprscheme.Interp.Pins.{
  PinStep, make, copy_of, drop, put, run_all, no_carriers, protects, unprotects, holders,
  run_all-holders,
}

abbrev handler_history : List PinStep
handler_history = make (object 7) ∷ copy_of 0 ∷ put 1 (object 9) ∷ make bool_f ∷ drop 0 ∷ []

run_all-holders_example :
    protects 9 (run_all handler_history no_carriers).calls
    ≡ unprotects 9 (run_all handler_history no_carriers).calls
      + holders 9 (run_all handler_history no_carriers).live
run_all-holders_example = run_all-holders 9 handler_history

abbrev reals : Reals
reals = record { to_double = λ n. 0; of_ratio = λ n k. 0; is_whole = λ d. false }

abbrev name_and_number : List ArgType
name_and_number = name_arg ∷ int_arg ∷ []

abbrev answer_number : Args name_and_number → Outcome (RetOf int_ret)
answer_number xs = answers xs.1.0

abbrev key_press : Scm
key_press = list_of (Scm.symbol (codes "Return") ∷ Scm.int (pos 1) ∷ [])

trampoline-ArePassed_example :
    ((xs : Args name_and_number) × ArePassed reals name_and_number (elements key_press) xs
      × (trampoline reals Scm.nil name_and_number int_ret answer_number key_press
          ≡ then_with (answer_number xs) (λ y. answers (box reals Scm.nil int_ret y))))
    ⊎ (((xs : Args name_and_number) → ¬ ArePassed reals name_and_number (elements key_press) xs)
        × (trampoline reals Scm.nil name_and_number int_ret answer_number key_press ≡ raised))
trampoline-ArePassed_example =
    trampoline-ArePassed reals Scm.nil name_and_number int_ret answer_number key_press
