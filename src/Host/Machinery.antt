-- ===== src/Host/Machinery.antt =====
-- Where the machinery is, and the entry points of cpp/Host.cpp that stand by themselves: `userScmDir`,
-- `schemeDir`, `schemePath`, the ipc handler, `hlSchemeOnReadable` and `hlSchemeErrorOverlay`. The
-- environment, the file system and the Scheme evaluator are parameters.
pub mod Directory
use hyprscheme.Base.{
  ℕ, suc, ◌==◌, Bool, true, false, not, ◌||◌, ◌&&◌, Option, none, some, List, [], ◌∷◌, ◌++◌,
  if◌then◌else◌, Text, codes, is_empty,
}
use hyprscheme.Base.Int.{ℤ, pos, negsuc, is_negative}
use hyprscheme.Scm.{Scm}
use hyprscheme.Host.{is_absolute, set_to}

abbrev pub share : Text
share = codes "/hyprscheme/scm"

abbrev pub home_share : Option Text → Text
home_share none = []
home_share (some home) = home ++ (codes "/.local/share" ++ share)

-- A data home that is relative is passed over.
unfoldable pub user_scm_dir : (Text → Option Text) → Text
user_scm_dir env = elim (set_to (env (codes "XDG_DATA_HOME"))) [
  | none ↦ home_share (set_to (env (codes "HOME")))
  | some data_home ↦
      if is_absolute data_home then data_home ++ share else home_share (set_to (env (codes "HOME")))
]

abbrev pub init_file : Text → Text
init_file dir = dir ++ codes "/init.scm"

-- `schemeDir` for a plugin that stands in the directory `beside`.
unfoldable pub scheme_dir : (Text → Option Text) → (Text → Bool) → Text → Text
unfolding user_scm_dir
scheme_dir env exists beside = elim (set_to (env (codes "HYPRSCHEME_SCM_DIR"))) [
  | some named ↦ if not (exists named) then [] else named
  | none ↦
      let user_level = user_scm_dir env in
      if not (is_empty beside) && exists (init_file beside)
      then beside
      else if not (is_empty user_level) && exists (init_file user_level)
      then user_level
      else beside
]

unfoldable pub scheme_path : Text → Text → Text
scheme_path dir name = if is_empty dir then [] else dir ++ b'/' ∷ name

-- What follows the first space, or `none` without a space.
unfoldable pub after_space : Text → Option Text
after_space [] = none
after_space (c ∷ s) = if c == b' ' then some s else after_space s

abbrev pub is_blank : Text → Bool
is_blank [] = true
is_blank (c ∷ s) = ((c == b' ') || (c == 9)) && is_blank s

abbrev pub usage : Text
usage = codes "usage: hyprctl scheme <expression>"

abbrev pub reply_of : Scm → Text
reply_of (Scm.string t) = t
reply_of _ = []

-- The handler of the ipc command: `eval` is `hl--eval`.
unfoldable pub ipc_handler : (Text → Scm) → Text → Text
unfolding after_space
ipc_handler eval command = elim (after_space command) [
  | none ↦ usage
  | some code ↦ if is_blank code then usage else reply_of (eval code)
]

-- What the event loop waits for: a thunk is called each time its descriptor is readable.
pub record Waiters : Type 0 where
  pub armed : List (ℕ × ℕ)
  pub locked : List ℕ

-- `armReader` of a descriptor.
abbrev pub arm_reader : ℕ → ℕ → Waiters → Waiters
arm_reader fd thunk s = record s { armed = (fd, thunk) ∷ s.armed }

unfoldable pub on_readable : Bool → (ℕ → Bool) → ℤ → ℕ → Waiters → Waiters × ℤ
on_readable loop is_procedure (negsuc n) thunk s = (s, negsuc 0)
on_readable loop is_procedure (pos fd) thunk s =
    if not loop || not (is_procedure thunk)
    then (s, negsuc 0)
    else (arm_reader fd thunk (record s { locked = thunk ∷ s.locked }), pos 0)

-- The banner: what is shown, and what the compositor's overlay throws is refused.
unfoldable pub error_overlay : Bool → (Text → Bool) → Option Text → Option Text → Option Text × ℤ
error_overlay up throws message banner =
    if not up then (banner, negsuc 0) else elim (set_to message) [
      | some m ↦ if throws m then (banner, negsuc 0) else (some m, pos 0)
      | none ↦ if throws [] then (banner, negsuc 0) else (none, pos 0)
    ]
