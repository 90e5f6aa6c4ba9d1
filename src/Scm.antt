-- ===== src/Scm.antt =====
-- Scheme values as the C++ side sees them (cpp/Bindings.hpp, cpp/Handles.hpp, cpp/Host.cpp): what
-- the predicates of libguile tell apart, and the helpers that walk a list. A double is its bit
-- pattern. A handle names the compositor object behind its weak reference, a record or a procedure
-- is its address.
pub mod Reads
use hyprscheme.Base.{ℕ, ◌≡◌, refl, Bool, true, false, Option, none, some, List, [], ◌∷◌, Text, ap}
use hyprscheme.Base.Int.{ℤ}

-- The six handle families of `hl::Family`.
pub data Family : Type 0 where
  group layer monitor notification window workspace : Family

unfoldable pub family_eq : Family → Family → Bool
family_eq group group = true
family_eq layer layer = true
family_eq monitor monitor = true
family_eq notification notification = true
family_eq window window = true
family_eq workspace workspace = true
family_eq _ _ = false

pub data Scm : Type 0 where
  bool : Bool → Scm
  nil : Scm
  int : ℤ → Scm
  ratio : ℤ → ℕ → Scm
  flonum : ℕ → Scm
  string : Text → Scm
  symbol : Text → Scm
  pair : Scm → Scm → Scm
  handle : Family → ℕ → Scm
  struct_of : ℕ → Scm → Scm → Scm → Scm → Scm
  object : ℕ → Scm

abbrev pub is_pair : Scm → Bool
is_pair (pair a d) = true
is_pair _ = false

abbrev pub is_string : Scm → Bool
is_string (string s) = true
is_string _ = false

abbrev pub is_symbol : Scm → Bool
is_symbol (symbol s) = true
is_symbol _ = false

abbrev pub is_integer : Scm → Bool
is_integer (int n) = true
is_integer _ = false

abbrev pub is_false : Scm → Bool
is_false (bool false) = true
is_false _ = false

abbrev pub is_true_value : Scm → Bool
is_true_value (bool true) = true
is_true_value _ = false

abbrev pub is_nil : Scm → Bool
is_nil nil = true
is_nil _ = false

-- `hl::isHandle`: the type is the family's own.
unfoldable pub is_handle : Family → Scm → Bool
unfolding family_eq
is_handle f (handle g o) = family_eq f g
is_handle f _ = false

-- A symbol's name or a string's bytes. `none` is the Scheme error that libguile raises on any other
-- value.
unfoldable pub datum_to_str : Scm → Option Text
datum_to_str (symbol s) = some s
datum_to_str (string s) = some s
datum_to_str _ = none

-- `hl::listOf`.
unfoldable pub list_of : List Scm → Scm
list_of [] = nil
list_of (v ∷ vs) = pair v (list_of vs)

-- The elements that a `for (p = v; scm_is_pair(p); p = scm_cdr(p))` loop visits.
unfoldable pub elements : Scm → List Scm
elements (pair a d) = a ∷ elements d
elements _ = []

pub elements-list_of : (vs : List Scm) → elements (list_of vs) ≡ vs
unfolding elements list_of
elements-list_of [] = refl
elements-list_of (v ∷ vs) = ap (◌∷◌ v) (elements-list_of vs)
