-- ===== src/Interp.antt =====
-- The values that C++ keeps from the collector: `lock` and `unlock` of cpp/Guile.cpp and the carriers of
-- cpp/SThunkRef.hpp. What is done to the collector is a log, the newest call first.
pub mod Boundary
pub mod Pins
mod Tests
use hyprscheme.Base.{
  ℕ, suc, ◌==◌, Option, none, some, List, [], ◌∷◌, if◌then◌else◌, find, erase, assign,
}

-- A Scheme value: the three immediates that are told apart here, or any other, by its word.
pub data Word : Type 0 where
  eol bool_f bool_t : Word
  object : ℕ → Word

-- The calls of `scm_gc_protect_object` and `scm_gc_unprotect_object`.
pub data PinCall : Type 0 where
  protect unprotect : ℕ → PinCall

unfoldable pub lock : Word → List PinCall → List PinCall
lock (object a) cs = protect a ∷ cs
lock _ cs = cs

unfoldable pub unlock : Word → List PinCall → List PinCall
unlock (object a) cs = unprotect a ∷ cs
unlock _ cs = cs

-- The live `SThunkRef` objects with their values, the number of the next one, and the log.
pub record Carriers : Type 0 where
  pub live : List (ℕ × Word)
  pub next : ℕ
  pub calls : List PinCall

-- The constructor from a value; the one without an argument takes `SCM_EOL`.
unfoldable pub carry : Word → Carriers → Carriers
unfolding lock
carry v s = record { live = (s.next, v) ∷ s.live; next = suc s.next; calls = lock v s.calls }

unfoldable pub carry_nil : Carriers → Carriers
unfolding carry
carry_nil s = carry eol s

-- The copy constructor, of a carrier that is live.
unfoldable pub copy : ℕ → Carriers → Carriers
unfolding carry
copy c s = elim (find c s.live) [ none ↦ s | some v ↦ carry v s ]

-- The destructor.
unfoldable pub destroy : ℕ → Carriers → Carriers
unfolding unlock
destroy c s = elim (find c s.live) [
  | none ↦ s
  | some v ↦ record s { live = erase c s.live; calls = unlock v s.calls }
]

-- `SThunkRef::set`.
unfoldable pub set : ℕ → Word → Carriers → Carriers
unfolding lock unlock
set c v s = elim (find c s.live) [
  | none ↦ s
  | some old ↦ record s { live = assign c v s.live; calls = unlock old (lock v s.calls) }
]
