-- ===== src/Host.antt =====
-- The host of the interpreter: where the user's configuration is, `userConfigPath` of cpp/Host.cpp.
-- The environment and the file system are parameters.
pub mod ConfigPath
pub mod Generation
pub mod Watchdog
pub mod Machinery
pub mod Session
mod Tests
use hyprscheme.Base.{
  ◌==◌, Bool, true, false, not, ◌&&◌, Option, none, some, List, [], ◌∷◌, ◌++◌, if◌then◌else◌, Text,
  codes, is_empty, has_prefix, keep,
}

-- The pieces of a text between colons, as `std::getline` gives them; an empty last one may be added.
unfoldable pub split_colons : Text → Text → List Text
split_colons piece [] = piece ∷ []
split_colons piece (c ∷ s) = elim (c == b':') [
  | true ↦ piece ∷ split_colons [] s
  | false ↦ split_colons (piece ++ c ∷ []) s
]

abbrev pub is_absolute : Text → Bool
is_absolute p = has_prefix (codes "/") p

-- A variable that is set and not empty.
abbrev pub set_to : Option Text → Option Text
set_to none = none
set_to (some []) = none
set_to (some (c ∷ s)) = some (c ∷ s)

abbrev pub or_home : Option Text → List Text
or_home none = []
or_home (some home) = (home ++ codes "/.config") ∷ []

unfoldable pub home_bases : Option Text → Option Text → List Text
home_bases none home = or_home home
home_bases (some xdg) home = if is_absolute xdg then xdg ∷ [] else or_home home

unfoldable pub dirs_bases : Option Text → List Text
unfolding split_colons
dirs_bases none = []
dirs_bases (some dirs) = keep is_absolute (split_colons [] dirs)

abbrev pub or_etc : List Text → List Text
or_etc [] = codes "/etc/xdg" ∷ []
or_etc (d ∷ ds) = d ∷ ds

unfoldable pub config_bases : (Text → Option Text) → List Text
unfolding home_bases dirs_bases
config_bases env =
    home_bases (set_to (env (codes "XDG_CONFIG_HOME"))) (set_to (env (codes "HOME")))
    ++ or_etc (dirs_bases (set_to (env (codes "XDG_CONFIG_DIRS"))))

abbrev pub file_of : Text → Text
file_of base = base ++ codes "/hypr/hyprland.scm"

unfoldable pub first_existing : (Text → Bool) → List Text → Option Text
first_existing exists [] = none
first_existing exists (b ∷ bs) =
    if exists (file_of b) then some (file_of b) else first_existing exists bs

-- The first base that has the file, or the first base; with no base there is no path.
unfoldable pub search_bases : (Text → Bool) → List Text → Text
unfolding first_existing
search_bases exists [] = []
search_bases exists (b ∷ bs) = elim (first_existing exists (b ∷ bs)) [
  | some p ↦ p
  | none ↦ file_of b
]

unfoldable pub user_config_path : (Text → Option Text) → (Text → Bool) → Text
unfolding config_bases search_bases
user_config_path env exists = elim (set_to (env (codes "HYPRSCHEME_CONFIG"))) [
  | some path ↦ path
  | none ↦ search_bases exists (config_bases env)
]
