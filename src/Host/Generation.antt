-- ===== src/Host/Generation.antt =====
-- The generation of the interpreter that a configuration runs in: `buildGeneration` of cpp/Host.cpp, with
-- the path lists of cpp/Guile.cpp, and the value that outlives every generation. What Guile answers to
-- the calls of one build is a parameter.
pub mod Atomic
use hyprscheme.Base.{
  ℕ, Bool, true, false, not, Option, none, some, List, ◌∷◌, if◌then◌else◌, Text, is_empty,
}
use hyprscheme.Base.Int.{ℤ, pos}
use hyprscheme.Interp.{Word, object, PinCall, lock, unlock}

-- `g_generation`, the current module, the kernel's `hl--ready`, `%load-path`, `%load-compiled-path`,
-- `g_schemeState`, and what was pinned. A module is its address.
pub record HostState : Type 0 where
  pub generation : Option ℕ
  pub current : ℕ
  pub ready : Bool
  pub load_path : List Text
  pub compiled_path : List Text
  pub survives : Word
  pub pins : List PinCall

-- What Guile answers: whether each path variable could be set, the kernel and the fresh module, whether
-- `hl--ready` could be cleared and set, and whether init.scm loaded. `none` is `#f`.
pub record Answers : Type 0 where
  pub adds_path : Bool
  pub adds_compiled : Bool
  pub kernel : Option ℕ
  pub fresh : Option ℕ
  pub clears : Bool
  pub boots : Bool
  pub sets : Bool

-- `addLoadPath` and `addLoadCompiledPath`, which cons the directory in front.
abbrev pub add_paths : Answers → Text → HostState → HostState
add_paths g dir h = record h {
  load_path = if g.adds_path then dir ∷ h.load_path else h.load_path;
  compiled_path = if g.adds_compiled then dir ∷ h.compiled_path else h.compiled_path;
}

abbrev pub set_current : ℕ → HostState → HostState
set_current m h = record h { current = m }

-- `setModuleVariable` of `hl--ready`: nothing changes when it fails.
abbrev pub set_ready : Bool → Bool → HostState → HostState
set_ready works on h = record h { ready = if works then on else h.ready }

-- `hl::unlock(prevGen)` unless it is `#f`.
abbrev pub release : Option ℕ → List PinCall → List PinCall
release none cs = cs
release (some m) cs = unlock (object m) cs

-- The swap: the new generation is pinned and the previous one released.
abbrev pub swap_in : ℕ → HostState → HostState
swap_in gen h = record h {
  generation = some gen;
  pins = release h.generation (lock (object gen) h.pins);
}

-- From the fresh module on: it is current, init.scm is loaded, and the flag is read back.
unfoldable pub boot_generation : Answers → ℕ → ℕ → HostState → HostState × Bool
boot_generation g previous gen h =
    let cleared = set_ready g.clears false (set_current gen h) in
    if not g.boots
    then (set_current previous cleared, false)
    else let told = set_ready g.sets true cleared in
      if not told.ready then (set_current previous told, false) else (swap_in gen told, true)

-- `buildGeneration` in the directory `dir` of the machinery, which is empty when there is none.
unfoldable pub build_generation : Answers → Text → HostState → HostState × Bool
unfolding boot_generation
build_generation g dir h =
    if is_empty dir
    then (h, false)
    else let pathed = add_paths g dir h in
      elim g.kernel [
        | none ↦ (pathed, false)
        | some kernel ↦ elim g.fresh [
          | none ↦ (set_current h.current (set_current kernel pathed), false)
          | some gen ↦ boot_generation g h.current gen (set_current kernel pathed)
        ]
      ]

-- `hlSchemeStateSet`.
unfoldable pub scheme_state_set : Word → HostState → HostState × ℤ
unfolding lock unlock
scheme_state_set v h = (record h { survives = v; pins = lock v (unlock h.survives h.pins) }, pos 0)
