-- ===== src/Exec/Dispatch/Spawning.antt =====
-- What `hlSchemeExec` of cpp/Exec.cpp spawns for a plist of effects.
use hyprscheme.Base.{
  ℕ, ◌≡◌, refl, ap, sym, subst, ◌∙◌, true, false, Option, none, some, List, [], ◌∷◌, ◌++◌,
  append_assoc, append-nil, Text, codes, is_empty, Option-cases, ◌⊎◌, inl, inr,
}
use hyprscheme.Base.Int.{ℤ, negsuc}
use hyprscheme.Scm.{Scm, datum_to_str}
use hyprscheme.Rule.Store.{hyprland_name}
use hyprscheme.Desktop.{answers}
use hyprscheme.Exec.Command.{
  Effects, rule_of, bad_effect, OneEffect, effect_is, refused_effect, checked_effect, read_one,
  read_effects, Spawner, pid_or_error, spawn_with, exec_command,
}

-- A plist with symbols for keys and strings for values.
abbrev pub plist_of : List (Text × Text) → Scm
plist_of [] = Scm.nil
plist_of ((k, v) ∷ kvs) = Scm.pair (Scm.symbol k) (Scm.pair (Scm.string v) (plist_of kvs))

module _ (effect_of : Text → Option ℕ) (refusal : ℕ → Text → Option Text) where
  -- One effect that is known and accepted.
  abbrev pub resolved_one : Text → Text → Option (ℕ × Text)
  resolved_one k v = elim (effect_of (hyprland_name k)) [
    | none ↦ none
    | some e ↦ elim (refusal e v) [ some why ↦ none | none ↦ some (e, v) ]
  ]

  -- All effects in order, if each of them is known and accepted.
  abbrev pub resolved_all : List (Text × Text) → Option (List (ℕ × Text))
  resolved_all [] = some []
  resolved_all ((k, v) ∷ kvs) =
      let rest = resolved_all kvs in
      elim (resolved_one k v) [
        | none ↦ none
        | some e ↦ elim rest [ none ↦ none | some es ↦ some (e ∷ es) ]
      ]

  -- The effects read agree with the resolved ones, or there is an error with neither.
  abbrev Agrees : Option (List (ℕ × Text)) → List (ℕ × Text) → Effects → Type 0
  Agrees none before r = (why : Text) × (r ≡ bad_effect why)
  Agrees (some es) before r = r ≡ rule_of (before ++ es)

  -- One effect read, and the same one resolved.
  Reads : Text → Text → OneEffect → Type 0
  Reads k v r =
      ((e : ℕ) × (w : Text) × (r ≡ effect_is e w) × (resolved_one k v ≡ some (e, w)))
      ⊎ ((why : Text) × (r ≡ refused_effect why) × (resolved_one k v ≡ none))

  checked_effect-Reads :
      (k v : Text) → Reads k v (checked_effect refusal k (effect_of (hyprland_name k)) (some v))
  unfolding Reads checked_effect
  checked_effect-Reads k v = elim (Option-cases (effect_of (hyprland_name k))) [
    | inl u ↦ inr (
      codes "hl-exec!: unknown rule effect '" ++ (k ++ codes "'"),
      rw (u, checked_effect) refl,
      rw (u, resolved_one) refl,
    )
    | inr (e, u) ↦ elim (Option-cases (refusal e v)) [
      | inr (why, q) ↦ inr (
        codes "hl-exec!: effect '" ++ (k ++ (codes "': " ++ why)),
        rw (u, checked_effect) (rw q refl),
        rw (u, resolved_one) (rw q refl),
      )
      | inl q ↦ inl (e, v, rw (u, checked_effect) (rw q refl), rw (u, resolved_one) (rw q refl))
    ]
  ]

  resolved_bad :
      (k v : Text) (kvs : List (Text × Text))
      → resolved_one k v ≡ none
      → resolved_all ((k, v) ∷ kvs) ≡ none
  resolved_bad k v kvs e = rw (e, resolved_all) refl

  resolved_good :
      (k v : Text) (kvs : List (Text × Text)) {p : ℕ × Text}
      → resolved_one k v ≡ some p
      → resolved_all ((k, v) ∷ kvs)
        ≡ (elim (resolved_all kvs) [ none ↦ none | some es ↦ some (p ∷ es) ])
  resolved_good k v kvs e = rw (e, resolved_all) refl

  agree_further :
      (p : ℕ × Text) (o : Option (List (ℕ × Text))) (before : List (ℕ × Text)) (r : Effects)
      → Agrees o (before ++ p ∷ []) r
      → Agrees (elim o [ none ↦ none | some es ↦ some (p ∷ es) ]) before r
  agree_further p none before r h = h
  agree_further p (some es) before r h = h ∙ ap rule_of (append_assoc before (p ∷ []) es)

  read_effects-bad :
      (k v : Text) (kvs : List (Text × Text)) (before : List (ℕ × Text)) (why : Text)
      → checked_effect refusal k (effect_of (hyprland_name k)) (some v) ≡ refused_effect why
      → read_effects effect_of refusal (plist_of ((k, v) ∷ kvs)) before ≡ bad_effect why
  unfolding read_effects read_one datum_to_str
  read_effects-bad k v kvs before why r = rw (r, read_effects) refl

  read_effects-good :
      (k v : Text) (kvs : List (Text × Text)) (before : List (ℕ × Text)) (e : ℕ) (w : Text)
      → checked_effect refusal k (effect_of (hyprland_name k)) (some v) ≡ effect_is e w
      → read_effects effect_of refusal (plist_of ((k, v) ∷ kvs)) before
        ≡ read_effects effect_of refusal (plist_of kvs) (before ++ (e, w) ∷ [])
  unfolding read_effects read_one datum_to_str
  read_effects-good k v kvs before e w r = rw (r, read_effects) refl

  read_effects-Agrees :
      (kvs : List (Text × Text)) (before : List (ℕ × Text))
      → Agrees (resolved_all kvs) before (read_effects effect_of refusal (plist_of kvs) before)
  unfolding Reads read_effects
  read_effects-Agrees [] before = ap rule_of (sym (append-nil before))
  read_effects-Agrees ((k, v) ∷ kvs) before = elim (checked_effect-Reads k v) [
    | inr (why, r, e) ↦
        subst
          (λ o. Agrees o before (read_effects effect_of refusal (plist_of ((k, v) ∷ kvs)) before))
          (sym (resolved_bad k v kvs e)) (why, read_effects-bad k v kvs before why r)
    | inl (e, w, r, q) ↦
        subst
          (λ o. Agrees o before (read_effects effect_of refusal (plist_of ((k, v) ∷ kvs)) before))
          (sym (resolved_good k v kvs {p = (e, w)} q))
          (subst
            (Agrees (elim (resolved_all kvs) [ none ↦ none | some es ↦ some ((e, w) ∷ es) ]) before)
            (sym (read_effects-good k v kvs before e w r))
            (agree_further (e, w) (resolved_all kvs) before
              (read_effects effect_of refusal (plist_of kvs) (before ++ (e, w) ∷ []))
              (read_effects-Agrees kvs (before ++ (e, w) ∷ []))))
  ]

-- The command was spawned with these effects and its process number answered, or nothing was.
abbrev pub IsSpawned :
    (Text → List (ℕ × Text) → Option ℤ)
    → Text
    → Option (List (ℕ × Text))
    → Spawner
    → Spawner
    → ℤ
    → Type 0
IsSpawned spawn cmd (some es) s t n =
    (t.spawned ≡ (cmd, es) ∷ s.spawned) × (n ≡ pid_or_error (spawn cmd es))
IsSpawned spawn cmd none s t n = (t.spawned ≡ s.spawned) × (n ≡ negsuc 0)

exec_command-spawn_with :
    (effect_of : Text → Option ℕ) (refusal : ℕ → Text → Option Text)
    (spawn : Text → List (ℕ × Text) → Option ℤ) (cmd : Text) (effects : Scm) (s : Spawner)
    → is_empty cmd ≡ false
    → exec_command effect_of refusal spawn true (some cmd) effects s
      ≡ spawn_with spawn cmd s (read_effects effect_of refusal effects [])
unfolding exec_command
exec_command-spawn_with effect_of refusal spawn cmd effects s c = rw (c, exec_command) refl

-- A command with a plist of effects, the interpreter up: when each effect is known and accepted the
-- command is spawned once, with all the effects in their order, and the answer is its process number;
-- when one of them is not, nothing is spawned and the answer is -1.
pub exec_command-resolved :
    (effect_of : Text → Option ℕ) (refusal : ℕ → Text → Option Text)
    (spawn : Text → List (ℕ × Text) → Option ℤ) (cmd : Text) (kvs : List (Text × Text))
    (s : Spawner)
    → is_empty cmd ≡ false
    → (t : Spawner) × (n : ℤ) × (exec_command effect_of refusal spawn true
          (some cmd)
          (plist_of kvs)
          s
        ≡ answers (t, n))
      × IsSpawned spawn cmd (resolved_all effect_of refusal kvs) s t n
exec_command-resolved effect_of refusal spawn cmd kvs s c =
    by_effects (resolved_all effect_of refusal kvs) (read_effects-Agrees effect_of refusal kvs [])
  where
    by_effects :
        (o : Option (List (ℕ × Text)))
        → Agrees effect_of refusal o [] (read_effects effect_of refusal (plist_of kvs) [])
        → (t : Spawner) × (n : ℤ) × (exec_command effect_of refusal spawn true
              (some cmd)
              (plist_of kvs)
              s
            ≡ answers (t, n))
          × IsSpawned spawn cmd o s t n
    by_effects (some es) r = (
      record s { spawned = (cmd, es) ∷ s.spawned },
      pid_or_error (spawn cmd es),
      exec_command-spawn_with effect_of refusal spawn cmd (plist_of kvs) s c
          ∙ ap (spawn_with spawn cmd s) r,
      (refl, refl),
    )
    by_effects none (why, r) = (
      record s { error = why },
      negsuc 0,
      exec_command-spawn_with effect_of refusal spawn cmd (plist_of kvs) s c
          ∙ ap (spawn_with spawn cmd s) r,
      (refl, refl),
    )
