-- ===== src/Exec/Command.antt =====
-- Running a command: `hlSchemeExec` of cpp/Exec.cpp, and the plist of effects that it reads.
use hyprscheme.Base.{
  ℕ, Bool, not, ◌||◌, Option, none, some, List, [], ◌∷◌, ◌++◌, if◌then◌else◌, Text, codes, is_empty,
}
use hyprscheme.Base.Int.{ℤ, negsuc}
use hyprscheme.Scm.{Scm, datum_to_str}
use hyprscheme.Rule.Store.{hyprland_name}
use hyprscheme.Desktop.{Outcome, raised, answers}
use hyprscheme.Exec.Dispatch.{or_empty}

-- The effects of a rule for the window that a command opens: read so far, refused with a text, or a
-- Scheme error.
pub data Effects : Type 0 where
  rule_of : List (ℕ × Text) → Effects
  bad_effect : Text → Effects
  effect_raised : Effects

-- One effect and its value.
pub data OneEffect : Type 0 where
  effect_is : ℕ → Text → OneEffect
  refused_effect : Text → OneEffect
  no_text : OneEffect

-- `effect_of` is the compositor's registry of effects and `refusal` the error with which a rule refuses
-- a value.
unfoldable pub checked_effect : (ℕ → Text → Option Text) → Text → Option ℕ → Option Text → OneEffect
checked_effect refusal effect none value =
    refused_effect (codes "hl-exec!: unknown rule effect '" ++ (effect ++ codes "'"))
checked_effect refusal effect (some e) none = no_text
checked_effect refusal effect (some e) (some value) = elim (refusal e value) [
  | some why ↦ refused_effect (codes "hl-exec!: effect '" ++ (effect ++ (codes "': " ++ why)))
  | none ↦ effect_is e value
]

unfoldable pub read_one : (Text → Option ℕ) → (ℕ → Text → Option Text) → Scm → Scm → OneEffect
unfolding checked_effect datum_to_str hyprland_name
read_one effect_of refusal k v = elim (datum_to_str k) [
  | none ↦ no_text
  | some effect ↦ checked_effect refusal effect (effect_of (hyprland_name effect)) (datum_to_str v)
]

-- The loop over the plist.
unfoldable pub read_effects :
    (Text → Option ℕ) → (ℕ → Text → Option Text) → Scm → List (ℕ × Text) → Effects
unfolding read_one
read_effects effect_of refusal (Scm.pair k (Scm.pair v rest)) effects =
    let next = λ (more : List (ℕ × Text)). read_effects effect_of refusal rest more in
    elim (read_one effect_of refusal k v) [
      | no_text ↦ effect_raised
      | refused_effect why ↦ bad_effect why
      | effect_is e value ↦ next (effects ++ (e, value) ∷ [])
    ]
read_effects effect_of refusal (Scm.pair k v) effects =
    bad_effect (codes "hl-exec!: odd plist of rule effects")
read_effects effect_of refusal _ effects = rule_of effects

-- What was spawned, the newest first, with the effects of its rule, if it has any.
pub record Spawner : Type 0 where
  pub spawned : List (Text × List (ℕ × Text))
  pub error : Text

abbrev pub pid_or_error : Option ℤ → ℤ
pid_or_error none = negsuc 0
pid_or_error (some p) = p

-- Spawns with the effects that were read.
abbrev pub spawn_with :
    (Text → List (ℕ × Text) → Option ℤ) → Text → Spawner → Effects → Outcome (Spawner × ℤ)
spawn_with spawn cmd s effect_raised = raised
spawn_with spawn cmd s (bad_effect why) = answers (record s { error = why }, negsuc 0)
spawn_with spawn cmd s (rule_of es) =
    answers (record s { spawned = (cmd, es) ∷ s.spawned }, pid_or_error (spawn cmd es))

-- `hlSchemeExec`: `spawn` is the executor's answer, the process number if there is one.
unfoldable pub exec_command :
    (Text → Option ℕ)
    → (ℕ → Text → Option Text)
    → (Text → List (ℕ × Text) → Option ℤ)
    → Bool
    → Option Text
    → Scm
    → Spawner
    → Outcome (Spawner × ℤ)
unfolding read_effects
exec_command effect_of refusal spawn up cmd effects s =
    if not up || is_empty (or_empty cmd)
    then answers (s, negsuc 0)
    else spawn_with spawn (or_empty cmd) s (read_effects effect_of refusal effects [])
