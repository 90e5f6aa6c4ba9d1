-- ===== src/Host/Generation/Atomic.antt =====
-- A build of cpp/Host.cpp swaps the generation in whole, or leaves the one that is there.
use hyprscheme.Base.{
  ℕ, ◌+◌, ◌≡◌, refl, sym, subst, ◌⊎◌, inl, inr, Bool, true, false, Option, none, some, List, [],
  ◌∷◌, if◌then◌else◌, Text, is_empty, arith, Bool-cases, Option-cases,
}
use hyprscheme.Interp.{Word, object, PinCall, lock, unlock}
use hyprscheme.Interp.Pins.{
  protects, unprotects, weight, protects-lock, protects-unlock, unprotects-lock, unprotects-unlock,
}
use hyprscheme.Host.Generation.{
  HostState, Answers, add_paths, set_current, set_ready, release, swap_in, boot_generation,
  build_generation, scheme_state_set,
}

-- One use of the pinned values: a build with its answers, or a value for the next generation.
pub data HostStep : Type 0 where
  build : Answers → Text → HostStep
  survive : Word → HostStep

abbrev pub host_step : HostStep → HostState → HostState
host_step (build g dir) h = (build_generation g dir h).0
host_step (survive v) h = (scheme_state_set v h).0

abbrev pub host_steps : List HostStep → HostState → HostState
host_steps [] h = h
host_steps (p ∷ ps) h = host_steps ps (host_step p h)

-- Whether the object at `a` is the generation.
abbrev pub generation_weight : ℕ → Option ℕ → ℕ
generation_weight a none = 0
generation_weight a (some m) = weight a (object m)

-- The build failed and left generation, module and pins, or it swapped in the fresh module that Guile
-- gave, now current, with the flag set.
abbrev pub IsAtomic : Answers → Text → HostState → HostState × Bool → Type 0
IsAtomic g dir h (after, ok) =
    ((ok ≡ false)
      × (after.generation ≡ h.generation)
      × (after.current ≡ h.current)
      × (after.pins ≡ h.pins)
      × (after.survives ≡ h.survives))
    ⊎ ((gen : ℕ) × (ok ≡ true)
        × (g.fresh ≡ some gen)
        × (g.boots ≡ true)
        × (is_empty dir ≡ false)
        × (after.generation ≡ some gen)
        × (after.current ≡ gen)
        × (after.ready ≡ true)
        × (after.pins ≡ release h.generation (lock (object gen) h.pins))
        × (after.survives ≡ h.survives))

-- The flag that is read back.
abbrev told_ready : Answers → HostState → Bool
told_ready g h = if g.sets then true else (if g.clears then false else h.ready)

boot_generation-IsAtomic :
    (g : Answers) (dir : Text) (gen kernel : ℕ) (h : HostState)
    → is_empty dir ≡ false
    → g.fresh ≡ some gen
    → IsAtomic g dir h (boot_generation g h.current gen (set_current kernel (add_paths g dir h)))
unfolding boot_generation
boot_generation-IsAtomic g dir gen kernel h d f = elim (Bool-cases g.boots) [
  | inr e ↦ subst (IsAtomic g dir h) (sym (failed e)) (inl (refl, refl, refl, refl, refl))
  | inl e ↦ elim (Bool-cases (told_ready g h)) [
    | inr r ↦ subst (IsAtomic g dir h) (sym (unready e r)) (inl (refl, refl, refl, refl, refl))
    | inl r ↦
        subst (IsAtomic g dir h) (sym (swapped e r))
          (inr (gen, refl, f, e, d, refl, refl, r, refl, refl))
  ]
]
  where
    start : HostState
    start = set_current kernel (add_paths g dir h)

    cleared : HostState
    cleared = set_ready g.clears false (set_current gen start)

    failed :
        g.boots ≡ false
        → boot_generation g h.current gen start ≡ (set_current h.current cleared, false)
    failed e = rw (e, boot_generation) refl

    unready :
        g.boots ≡ true
        → told_ready g h ≡ false
        → boot_generation g h.current gen start
          ≡ (set_current h.current (set_ready g.sets true cleared), false)
    unready e r = rw (e, r, boot_generation) refl

    swapped :
        g.boots ≡ true
        → told_ready g h ≡ true
        → boot_generation g h.current gen start
          ≡ (swap_in gen (set_ready g.sets true cleared), true)
    swapped e r = rw (e, r, boot_generation) refl

-- Whatever fails in a build, the directory, a module, init.scm or the flag, the generation, the current
-- module, the pins and the surviving value are what they were; a build that succeeds makes the fresh
-- module the generation and the current module, with the flag set, pins it and releases the previous
-- one.
pub build_generation-IsAtomic :
    (g : Answers) (dir : Text) (h : HostState) → IsAtomic g dir h (build_generation g dir h)
unfolding build_generation
build_generation-IsAtomic g dir h = elim (Bool-cases (is_empty dir)) [
  | inl e ↦ subst (IsAtomic g dir h) (sym (homeless e)) (inl (refl, refl, refl, refl, refl))
  | inr e ↦ elim (Option-cases g.kernel) [
    | inl k ↦ subst (IsAtomic g dir h) (sym (coreless e k)) (inl (refl, refl, refl, refl, refl))
    | inr (kernel, k) ↦ elim (Option-cases g.fresh) [
      | inl f ↦
          subst (IsAtomic g dir h) (sym (stale e kernel k f)) (inl (refl, refl, refl, refl, refl))
      | inr (gen, f) ↦
          subst (IsAtomic g dir h) (sym (booted e kernel k gen f))
            (boot_generation-IsAtomic g dir gen kernel h e f)
    ]
  ]
]
  where
    homeless : is_empty dir ≡ true → build_generation g dir h ≡ (h, false)
    homeless e = rw (e, build_generation) refl

    coreless :
        is_empty dir ≡ false
        → g.kernel ≡ none
        → build_generation g dir h ≡ (add_paths g dir h, false)
    coreless e k = rw (e, k, build_generation) refl

    stale :
        is_empty dir ≡ false
        → (kernel : ℕ) → g.kernel ≡ some kernel
        → g.fresh ≡ none
        → build_generation g dir h ≡ (add_paths g dir h, false)
    stale e kernel k f = rw (e, k, f, build_generation) refl

    booted :
        is_empty dir ≡ false
        → (kernel : ℕ) → g.kernel ≡ some kernel
        → (gen : ℕ) → g.fresh ≡ some gen
        → build_generation g dir h
          ≡ boot_generation g h.current gen (set_current kernel (add_paths g dir h))
    booted e kernel k gen f = rw (e, k, f, build_generation) refl

-- The pins are those of the generation and of the surviving value.
abbrev pub IsBalanced : ℕ → HostState → Type 0
IsBalanced a h =
    protects a h.pins
    ≡ unprotects a h.pins + (generation_weight a h.generation + weight a h.survives)

release-balance :
    (a gen : ℕ) (old : Option ℕ) (cs : List PinCall)
    → (protects a (release old (lock (object gen) cs)) ≡ weight a (object gen) + protects a cs)
      × (unprotects a (release old (lock (object gen) cs))
          ≡ generation_weight a old + unprotects a cs)
unfolding lock unlock
release-balance a gen none cs = (ground arith, omega arith)
release-balance a gen (some m) cs = (ground arith, ground arith)

host_step-IsBalanced :
    (a : ℕ) (p : HostStep) (h : HostState) → IsBalanced a h → IsBalanced a (host_step p h)
unfolding scheme_state_set
host_step-IsBalanced a (survive v) h b = omega (
  arith,
  b,
  protects-lock a v (unlock h.survives h.pins),
  unprotects-lock a v (unlock h.survives h.pins),
  protects-unlock a h.survives h.pins,
  unprotects-unlock a h.survives h.pins,
)
host_step-IsBalanced a (build g dir) h b = elim (build_generation-IsAtomic g dir h) [
  | inl (ok, same, current, pins, survives) ↦ rw (same, pins, survives) b
  | inr (gen, ok, f, boots, d, is_new, current, ready, pins, survives) ↦
      rw (is_new, pins, survives)
        (omega (
          arith,
          b,
          (release-balance a gen h.generation h.pins).0,
          (release-balance a gen h.generation h.pins).1,
        ))
]

-- After any builds, whether they succeed or fail, and any surviving values, the collector protects
-- exactly the current generation and the surviving value: each object as often as it is one of them.
pub host_steps-IsBalanced :
    (a : ℕ) (ps : List HostStep) (h : HostState) → IsBalanced a h → IsBalanced a (host_steps ps h)
host_steps-IsBalanced a [] h b = b
host_steps-IsBalanced a (p ∷ ps) h b =
    host_steps-IsBalanced a ps (host_step p h) (host_step-IsBalanced a p h b)
