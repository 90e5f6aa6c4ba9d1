-- ===== src/Interp/Boundary.antt =====
-- The boundary of cpp/Bindings.hpp: how a list of Scheme values becomes the arguments of a C++ function,
-- and its result a Scheme value. A double is its bit pattern.
pub mod Typed
use hyprscheme.Base.{
  ℕ, zero, suc, ◌-◌, ◌^◌, ◌==◌, leb, ltb, Bool, true, false, not, ◌&&◌, List, [], ◌∷◌,
  if◌then◌else◌, Text, length,
}
use hyprscheme.Base.Int.{ℤ, pos, negsuc, fits_int64}
use hyprscheme.Scm.{Scm, is_false, elements}
use hyprscheme.Scm.Reads.{Reals}
use hyprscheme.Desktop.{Outcome, raised, answers, then_with}

-- The types of parameters, and of results.
pub data ArgType : Type 0 where
  scm_arg long_arg int_arg bool_arg unsigned_arg double_arg name_arg : ArgType

pub data RetType : Type 0 where
  scm_ret int_ret long_ret double_ret bool_ret void_ret : RetType

-- What the C++ function gets: a `const char*` is the text up to its first NUL.
abbrev pub ArgOf : ArgType → Type 0
ArgOf scm_arg = Scm
ArgOf long_arg = ℤ
ArgOf int_arg = ℤ
ArgOf bool_arg = Bool
ArgOf unsigned_arg = ℕ
ArgOf double_arg = ℕ
ArgOf name_arg = Text

abbrev pub RetOf : RetType → Type 0
RetOf scm_ret = Scm
RetOf int_ret = ℤ
RetOf long_ret = ℤ
RetOf double_ret = ℕ
RetOf bool_ret = Bool
RetOf void_ret = Unit

abbrev pub Args : List ArgType → Type 0
Args [] = Unit
Args (t ∷ ts) = ArgOf t × Args ts

abbrev pub fits_int : ℤ → Bool
fits_int (pos n) = leb n (2 ^ 31 - 1)
fits_int (negsuc n) = leb n (2 ^ 31 - 1)

unfoldable pub until_nul : Text → Text
until_nul [] = []
until_nul (b ∷ t) = let rest = until_nul t in if b == 0 then [] else b ∷ rest

-- `Arg<T>::from` and `pass`. A number that passes `scm_is_integer` without being an exact integer, or is out
-- of the type's range, is refused by the conversion itself, with a Scheme error as well.
module _ (reals : Reals) where
  unfoldable pub arg_from : (t : ArgType) → Scm → Outcome (ArgOf t)
  unfolding until_nul
  arg_from scm_arg v = answers v
  arg_from long_arg (Scm.int n) = if fits_int64 n then answers n else raised
  arg_from long_arg v = raised
  arg_from int_arg (Scm.int n) = if fits_int n then answers n else raised
  arg_from int_arg v = raised
  arg_from bool_arg v = answers (not (is_false v))
  arg_from unsigned_arg (Scm.int (pos n)) = if ltb n (2 ^ 64) then answers n else raised
  arg_from unsigned_arg v = raised
  arg_from double_arg (Scm.int n) = answers (reals.to_double n)
  arg_from double_arg (Scm.ratio n k) = answers (reals.of_ratio n k)
  arg_from double_arg (Scm.flonum bits) = answers bits
  arg_from double_arg v = raised
  arg_from name_arg (Scm.symbol t) = answers (until_nul t)
  arg_from name_arg (Scm.string t) = answers (until_nul t)
  arg_from name_arg v = raised

  -- `Tramp::unbox`, of as many values as there are types.
  unfoldable pub unbox : (ts : List ArgType) → List Scm → Outcome (Args ts)
  unfolding arg_from
  unbox [] vs = answers tt
  unbox (t ∷ ts) [] = raised
  unbox (t ∷ ts) (v ∷ vs) =
      let further = unbox ts vs in
      then_with (arg_from t v) (λ x. then_with further (λ xs. answers (x, xs)))

  -- `Box<R>::out`.
  unfoldable pub box : Scm → (r : RetType) → RetOf r → Scm
  box unspecified scm_ret v = v
  box unspecified int_ret n = Scm.int n
  box unspecified long_ret n = Scm.int n
  box unspecified double_ret bits = Scm.flonum bits
  box unspecified bool_ret b = Scm.bool b
  box unspecified void_ret u = unspecified

  -- `Tramp::call` of a function of these types.
  unfoldable pub trampoline :
      Scm → (ts : List ArgType) (r : RetType) → (Args ts → Outcome (RetOf r)) → Scm → Outcome Scm
  unfolding unbox box elements
  trampoline unspecified ts r fn arguments =
      if not (length (elements arguments) == length ts)
      then raised
      else then_with (unbox ts (elements arguments))
          (λ xs. then_with (fn xs) (λ y. answers (box unspecified r y)))
