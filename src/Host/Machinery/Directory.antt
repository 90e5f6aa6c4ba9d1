-- ===== src/Host/Machinery/Directory.antt =====
-- Which directory of the machinery cpp/Host.cpp chooses, and what the ipc command evaluates.
use hyprscheme.Base.{
  ◌==◌, ◌≡◌, refl, ap, ◌∙◌, inl, inr, Bool, true, false, not, ◌||◌, ◌&&◌, Option, none, some, [],
  ◌∷◌, ◌++◌, if◌then◌else◌, Text, codes, is_empty, All, Bool-cases, arith,
}
use hyprscheme.Scm.{Scm}
use hyprscheme.Host.{set_to}
use hyprscheme.Host.Machinery.{
  user_scm_dir, init_file, scheme_dir, after_space, is_blank, usage, reply_of, ipc_handler,
}

-- Whether the user's directory has the machinery.
abbrev pub user_has : (Text → Option Text) → (Text → Bool) → Bool
user_has env exists = not (is_empty (user_scm_dir env)) && exists (init_file (user_scm_dir env))

named_dir :
    (env : Text → Option Text) (exists : Text → Bool) (beside named : Text)
    → set_to (env (codes "HYPRSCHEME_SCM_DIR")) ≡ some named
    → scheme_dir env exists beside ≡ (if not (exists named) then [] else named)
unfolding scheme_dir
named_dir env exists beside named e = rw (e, scheme_dir) refl

unnamed_dir :
    (env : Text → Option Text) (exists : Text → Bool) (beside : Text)
    → set_to (env (codes "HYPRSCHEME_SCM_DIR")) ≡ none
    → scheme_dir env exists beside ≡ (
        if not (is_empty beside) && exists (init_file beside)
        then beside
        else (if user_has env exists then user_scm_dir env else beside))
unfolding scheme_dir
unnamed_dir env exists beside e = rw (e, scheme_dir) refl

pick_found :
    (has : Text → Bool) (b u : Text) (b_empty u_empty : Bool)
    → b_empty ≡ false
    → has (if not b_empty && has b then b else (if not u_empty && has u then u else b))
      ≡ (has b || (not u_empty && has u))
pick_found has b u true u_empty e = absurd (ground arith)
pick_found has b u false true e = elim (Bool-cases (has b)) [ inl h ↦ rw h (h) | inr h ↦ rw h (h) ]
pick_found has b u false false e = elim (Bool-cases (has b)) [
  | inl h ↦ rw h h
  | inr h ↦ elim (Bool-cases (has u)) [ inl k ↦ rw (h, k) k | inr k ↦ rw (h, k) h ]
]

-- A directory that is named is the one that is taken, or none when it is not there, wherever else the
-- machinery is installed. Without a named one, the directory that is taken has the machinery exactly
-- when the plugin's own directory or the user's has it. The plugin's own directory is known.
pub scheme_dir-found :
    (env : Text → Option Text) (exists : Text → Bool) (beside : Text)
    → is_empty beside ≡ false
    → ((named : Text)
        → set_to (env (codes "HYPRSCHEME_SCM_DIR")) ≡ some named
        → scheme_dir env exists beside ≡ (if exists named then named else []))
      × (set_to (env (codes "HYPRSCHEME_SCM_DIR")) ≡ none
          → exists (init_file (scheme_dir env exists beside))
            ≡ (exists (init_file beside) || user_has env exists))
scheme_dir-found env exists beside known = (
  λ named e. named_dir env exists beside named e ∙ ground arith,
  λ e.
      ap (λ d. exists (init_file d)) (unnamed_dir env exists beside e)
      ∙ pick_found (λ d. exists (init_file d)) beside (user_scm_dir env) (is_empty beside)
          (is_empty (user_scm_dir env)) known,
)

after_space-word :
    (w code : Text)
    → All (λ c. (c == b' ') ≡ false) w
    → (after_space w ≡ none) × (after_space (w ++ b' ' ∷ code) ≡ some code)
unfolding after_space
after_space-word [] code h = (refl, refl)
after_space-word (c ∷ w) code h = rw (h.0, after_space) (after_space-word w code h.1)

-- `hyprctl scheme` alone, or with nothing but blanks, is answered with the usage and evaluates nothing;
-- any other text after the first space is evaluated whole, and the reply is the string that comes back.
-- The command's own name has no space.
pub ipc_handler-code :
    (eval : Text → Scm) (w code : Text)
    → All (λ c. (c == b' ') ≡ false) w
    → (ipc_handler eval w ≡ usage)
      × (ipc_handler eval (w ++ b' ' ∷ code)
          ≡ (if is_blank code then usage else reply_of (eval code)))
unfolding ipc_handler
ipc_handler-code eval w code h =
    rw ((after_space-word w code h).0, (after_space-word w code h).1, ipc_handler) (refl, refl)
