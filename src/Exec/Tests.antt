-- ===== src/Exec/Tests.antt =====
-- The theorems on commands at a concrete effect.
use hyprscheme.Base.{◌≡◌, refl, true, none, some, List, [], ◌∷◌, Text, codes}
use hyprscheme.Base.Int.{ℤ, pos}
use hyprscheme.Desktop.{answers}
use hyprscheme.Exec.Command.{Spawner, exec_command}
use hyprscheme.Exec.Dispatch.Spawning.{plist_of, resolved_all, IsSpawned, exec_command-resolved}

abbrev no_spawner : Spawner
no_spawner = record { spawned = []; error = [] }

abbrev floats : List (Text × Text)
floats = (codes "float", codes "on") ∷ []

exec_command-resolved_example :
    (t : Spawner) × (n : ℤ) × (exec_command
        (λ k. some 4)
        (λ e v. none)
        (λ c es. some (pos 77))
        true
        (some (codes "foot"))
        (plist_of floats)
        no_spawner
      ≡ answers (t, n))
    × IsSpawned
        (λ c es. some (pos 77))
        (codes "foot")
        (resolved_all (λ k. some 4) (λ e v. none) floats)
        no_spawner
        t
        n
exec_command-resolved_example =
    exec_command-resolved (λ k. some 4) (λ e v. none) (λ c es. some (pos 77)) (codes "foot") floats
      no_spawner refl
