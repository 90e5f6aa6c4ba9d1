-- ===== src/Scm/Reads.antt =====
-- Numbers out of Scheme values, as libguile reads them. A double is its bit pattern.
use hyprscheme.Base.{ℕ, ◌^◌, ltb, Bool, not, if◌then◌else◌, Text}
use hyprscheme.Base.Int.{ℤ, pos, negsuc, fits_int64}
use hyprscheme.Scm.{Scm}

-- A value that was read, refused with a text, or a Scheme error.
pub data Read {ℓ} (A : Type ℓ) : Type ℓ where
  read : A → Read A
  refused : Text → Read A
  read_raised : Read A

abbrev pub then_read {ℓ ℓ₂} : {A : Type ℓ} {B : Type ℓ₂} → Read A → (A → Read B) → Read B
then_read (read x) f = f x
then_read (refused why) f = refused why
then_read read_raised f = read_raised

-- The double of an integer and of a ratio, and which doubles are whole numbers.
pub record Reals : Type 0 where
  pub to_double : ℤ → ℕ
  pub of_ratio : ℤ → ℕ → ℕ
  pub is_whole : ℕ → Bool

-- `scm_is_integer(v) ? scm_to_int64(v) : hl::isInexact(v) ? scm_to_double(v) : …`: a whole inexact number
-- passes for an integer and is then refused as one with an error.
unfoldable pub number_of : Reals → Text → Scm → Read ℕ
number_of n why (Scm.int i) = if not (fits_int64 i) then read_raised else read (n.to_double i)
number_of n why (Scm.flonum bits) = if n.is_whole bits then read_raised else read bits
number_of n why (Scm.ratio i k) = read (n.of_ratio i k)
number_of n why _ = refused why

-- `scm_to_uint64` of what passes for an integer.
unfoldable pub unsigned_of : Reals → Text → Scm → Read ℕ
unsigned_of n why (Scm.int (pos i)) = if ltb i (2 ^ 64) then read i else read_raised
unsigned_of n why (Scm.int (negsuc i)) = read_raised
unsigned_of n why (Scm.flonum bits) = if n.is_whole bits then read_raised else refused why
unsigned_of n why _ = refused why
