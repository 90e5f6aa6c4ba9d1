-- ===== src/Host/ConfigPath.antt =====
-- Where cpp/Host.cpp looks for the configuration.
use hyprscheme.Base.{
  ◌≡◌, refl, ap, Bool, true, false, Option, none, some, List, [], ◌∷◌, ◌++◌, Text, codes,
  has_prefix, keep, keep-All, All, All-append, Bool-cases, Option-cases, inl, inr, ◌⊎◌, arith,
}
use hyprscheme.Host.{
  is_absolute, split_colons, set_to, or_home, home_bases, dirs_bases, or_etc, config_bases, file_of,
  first_existing, search_bases, user_config_path,
}

-- The file of a base that has it, no base before it having it; or the file of the first base, when none
-- has it.
abbrev pub IsConfigPath : (Text → Bool) → List Text → Text → Type 0
IsConfigPath exists bases path =
    ((before : List Text) × (b : Text) × (after : List Text) × (bases ≡ before ++ b ∷ after)
      × All (λ c. exists (file_of c) ≡ false) before
      × (exists (file_of b) ≡ true)
      × (path ≡ file_of b))
    ⊎ (All (λ c. exists (file_of c) ≡ false) bases
        × ((b : Text) × (after : List Text) × (bases ≡ b ∷ after) × (path ≡ file_of b)))

module _ (exists : Text → Bool) where
  first_existing-some :
      (bases : List Text) {p : Text}
      → first_existing exists bases ≡ some p
      → (before : List Text) × (b : Text) × (after : List Text) × (bases ≡ before ++ b ∷ after)
        × All (λ c. exists (file_of c) ≡ false) before
        × (exists (file_of b) ≡ true)
        × (p ≡ file_of b)
  unfolding first_existing
  first_existing-some [] h = absurd (ground arith)
  first_existing-some (b ∷ bs) {p} h = elim (Bool-cases (exists (file_of b))) [
    | inl e ↦ ([], b, bs, refl, tt, e, ground arith)
    | inr e ↦
        let rest : first_existing exists bs ≡ some p = ground arith in
        let (before, c, after, split, none_before, here, same) =
          first_existing-some bs {p = p} rest in
        (b ∷ before, c, after, ap (◌∷◌ b) split, (e, none_before), here, same)
  ]

  first_existing-none :
      (bases : List Text)
      → first_existing exists bases ≡ none
      → All (λ c. exists (file_of c) ≡ false) bases
  unfolding first_existing
  first_existing-none [] h = tt
  first_existing-none (b ∷ bs) h = elim (Bool-cases (exists (file_of b))) [
    | inl e ↦ absurd (ground arith)
    | inr e ↦ (e, first_existing-none bs (ground arith))
  ]

  search_bases-IsConfigPath :
      (b : Text) (bs : List Text) → IsConfigPath exists (b ∷ bs) (search_bases exists (b ∷ bs))
  unfolding search_bases
  search_bases-IsConfigPath b bs = elim (Option-cases (first_existing exists (b ∷ bs))) [
    | inl e ↦ rw (e, search_bases) (inr (first_existing-none (b ∷ bs) e, (b, bs, refl, refl)))
    | inr (p, e) ↦ rw (e, search_bases) (inl (first_existing-some (b ∷ bs) {p = p} e))
  ]

not_empty : (xs ds : List Text) → (b : Text) × (bs : List Text) × (xs ++ or_etc ds ≡ b ∷ bs)
not_empty [] [] = (codes "/etc/xdg", [], refl)
not_empty [] (d ∷ ds) = (d, ds, refl)
not_empty (x ∷ xs) ds = (x, xs ++ or_etc ds, refl)

-- Without an override the path is the file of the first base that has it, or of the first base when
-- none has it; there is always a base.
pub user_config_path-IsConfigPath :
    (env : Text → Option Text) (exists : Text → Bool)
    → set_to (env (codes "HYPRSCHEME_CONFIG")) ≡ none
    → IsConfigPath exists (config_bases env) (user_config_path env exists)
unfolding user_config_path config_bases
user_config_path-IsConfigPath env exists h =
    let (b, bs, e) =
      not_empty (home_bases (set_to (env (codes "XDG_CONFIG_HOME"))) (set_to (env (codes "HOME"))))
        (dirs_bases (set_to (env (codes "XDG_CONFIG_DIRS")))) in
    rw (h, user_config_path, e) (search_bases-IsConfigPath exists b bs)

home_bases-absolute :
    (xdg home : Option Text)
    → All (λ h. is_absolute h ≡ true) (or_home home)
    → All (λ b. is_absolute b ≡ true) (home_bases xdg home)
unfolding home_bases
home_bases-absolute none home h = h
home_bases-absolute (some xdg) home h = elim (Bool-cases (is_absolute xdg)) [
  | inl e ↦ rw (e, home_bases) (e, tt)
  | inr e ↦ rw (e, home_bases) h
]

etc-absolute : is_absolute (codes "/etc/xdg") ≡ true
unfolding has_prefix
etc-absolute = refl

dirs_bases-absolute :
    (dirs : Option Text) → All (λ b. is_absolute b ≡ true) (or_etc (dirs_bases dirs))
unfolding dirs_bases
dirs_bases-absolute none = (etc-absolute, tt)
dirs_bases-absolute (some dirs) =
    absolute (keep is_absolute (split_colons [] dirs)) (keep-All is_absolute (split_colons [] dirs))
  where
    absolute :
        (ds : List Text)
        → All (λ b. is_absolute b ≡ true) ds
        → All (λ b. is_absolute b ≡ true) (or_etc ds)
    absolute [] h = (etc-absolute, tt)
    absolute (d ∷ ds) h = h

-- Every base of the search is an absolute path, whatever XDG_CONFIG_HOME and XDG_CONFIG_DIRS hold; the
-- home directory is absolute, if it is set.
pub config_bases-absolute :
    (env : Text → Option Text)
    → All (λ h. is_absolute h ≡ true) (or_home (set_to (env (codes "HOME"))))
    → All (λ b. is_absolute b ≡ true) (config_bases env)
unfolding config_bases
config_bases-absolute env h =
    All-append _ (home_bases (set_to (env (codes "XDG_CONFIG_HOME"))) (set_to (env (codes "HOME"))))
      (or_etc (dirs_bases (set_to (env (codes "XDG_CONFIG_DIRS")))))
      (home_bases-absolute (set_to (env (codes "XDG_CONFIG_HOME"))) (set_to (env (codes "HOME"))) h)
      (dirs_bases-absolute (set_to (env (codes "XDG_CONFIG_DIRS"))))
