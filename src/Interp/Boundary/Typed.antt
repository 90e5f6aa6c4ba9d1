-- ===== src/Interp/Boundary/Typed.antt =====
-- What reaches a C++ function through cpp/Bindings.hpp.
use hyprscheme.Base.{
  suc, ◌^◌, ◌<◌, ◌==◌, ◌≡◌, refl, ap, ◌∙◌, true, false, not, List, [], ◌∷◌, ◌++◌, ltb, Text, length,
  member, ◌⊎◌, inl, inr, Bool-cases, arith,
}
use hyprscheme.Base.Int.{pos, fits_int64}
use hyprscheme.Scm.{Scm, is_false, elements}
use hyprscheme.Scm.Reads.{Reals}
use hyprscheme.Desktop.{Outcome, raised, answers, then_with}
use hyprscheme.Interp.Boundary.{
  ArgType, scm_arg, long_arg, int_arg, bool_arg, unsigned_arg, double_arg, name_arg, RetType, ArgOf,
  RetOf, Args, fits_int, until_nul, arg_from, unbox, box, trampoline,
}

abbrev pub StartsNul : Text → Type 0
StartsNul [] = Unit
StartsNul (b ∷ t) = b ≡ 0

-- The text up to its first NUL.
abbrev pub IsCut : Text → Text → Type 0
IsCut t x = (rest : Text) × (t ≡ x ++ rest) × (member 0 x ≡ false) × StartsNul rest

until_nul-IsCut : (t : Text) → IsCut t (until_nul t)
unfolding until_nul
until_nul-IsCut [] = ([], refl, refl, tt)
until_nul-IsCut (b ∷ t) =
    let further = until_nul-IsCut t in
    elim (Bool-cases (b == 0)) [
      | inl e ↦ rw (e, until_nul) (b ∷ t, refl, refl, ground (arith, e))
      | inr e ↦
          rw (e, until_nul)
            (further.0, ap (◌∷◌ b) further.1, ground (arith, e, further.2), further.3)
    ]

module _ (reals : Reals) where
  -- The value that a C++ function of this type gets for a Scheme value.
  abbrev pub IsPassed : (t : ArgType) → Scm → ArgOf t → Type 0
  IsPassed scm_arg v x = x ≡ v
  IsPassed long_arg (Scm.int n) x = (x ≡ n) × (fits_int64 n ≡ true)
  IsPassed long_arg v x = ⊥
  IsPassed int_arg (Scm.int n) x = (x ≡ n) × (fits_int n ≡ true)
  IsPassed int_arg v x = ⊥
  IsPassed bool_arg v x = x ≡ not (is_false v)
  IsPassed unsigned_arg (Scm.int (pos n)) x = (x ≡ n) × (n < 2 ^ 64)
  IsPassed unsigned_arg v x = ⊥
  IsPassed double_arg (Scm.int n) x = x ≡ reals.to_double n
  IsPassed double_arg (Scm.ratio n k) x = x ≡ reals.of_ratio n k
  IsPassed double_arg (Scm.flonum bits) x = x ≡ bits
  IsPassed double_arg v x = ⊥
  IsPassed name_arg (Scm.symbol t) x = IsCut t x
  IsPassed name_arg (Scm.string t) x = IsCut t x
  IsPassed name_arg v x = ⊥

  -- As many values as types, each passed.
  abbrev pub ArePassed : (ts : List ArgType) → List Scm → Args ts → Type 0
  ArePassed [] [] xs = Unit
  ArePassed [] (v ∷ vs) xs = ⊥
  ArePassed (t ∷ ts) [] xs = ⊥
  ArePassed (t ∷ ts) (v ∷ vs) (x, xs) = IsPassed t v x × ArePassed ts vs xs

  -- A conversion gives what is passed, or raises when nothing can be.
  abbrev Converted {ℓ} : {A : Type ℓ} → (A → Type 0) → Outcome A → Type ℓ
  Converted {A = A} P o = ((x : A) × P x × (o ≡ answers x)) ⊎ (((x : A) → ¬ P x) × (o ≡ raised))

  arg_from-Converted : (t : ArgType) (v : Scm) → Converted (IsPassed t v) (arg_from reals t v)
  unfolding arg_from
  arg_from-Converted scm_arg v = inl (v, refl, refl)
  arg_from-Converted long_arg (Scm.int n) = elim (Bool-cases (fits_int64 n)) [
    | inl e ↦ inl (n, (refl, e), rw (e, arg_from) refl)
    | inr e ↦ inr (λ x p. ground (arith, p.1), rw (e, arg_from) refl)
  ]
  arg_from-Converted long_arg _ = inr (λ x p. p, refl)
  arg_from-Converted int_arg (Scm.int n) = elim (Bool-cases (fits_int n)) [
    | inl e ↦ inl (n, (refl, e), rw (e, arg_from) refl)
    | inr e ↦ inr (λ x p. ground (arith, p.1), rw (e, arg_from) refl)
  ]
  arg_from-Converted int_arg _ = inr (λ x p. p, refl)
  arg_from-Converted bool_arg v = inl (not (is_false v), refl, refl)
  arg_from-Converted unsigned_arg (Scm.int (pos n)) = elim (Bool-cases (ltb n (2 ^ 64))) [
    | inl e ↦ inl (n, (refl, ground (arith, e)), rw (e, arg_from) refl)
    | inr e ↦ inr (λ x p. ground (arith, p.1), rw (e, arg_from) refl)
  ]
  arg_from-Converted unsigned_arg _ = inr (λ x p. p, refl)
  arg_from-Converted double_arg (Scm.int n) = inl (reals.to_double n, refl, refl)
  arg_from-Converted double_arg (Scm.ratio n k) = inl (reals.of_ratio n k, refl, refl)
  arg_from-Converted double_arg (Scm.flonum bits) = inl (bits, refl, refl)
  arg_from-Converted double_arg _ = inr (λ x p. p, refl)
  arg_from-Converted name_arg (Scm.symbol t) = inl (until_nul t, until_nul-IsCut t, refl)
  arg_from-Converted name_arg (Scm.string t) = inl (until_nul t, until_nul-IsCut t, refl)
  arg_from-Converted name_arg _ = inr (λ x p. p, refl)

  ArePassed-length :
      (ts : List ArgType) (vs : List Scm) (xs : Args ts)
      → ArePassed ts vs xs
      → length vs ≡ length ts
  ArePassed-length [] [] xs p = refl
  ArePassed-length [] (v ∷ vs) xs p = absurd p
  ArePassed-length (t ∷ ts) [] xs p = absurd p
  ArePassed-length (t ∷ ts) (v ∷ vs) (x, xs) p = ap suc (ArePassed-length ts vs xs p.1)

  unbox-Converted :
      (ts : List ArgType) (vs : List Scm)
      → length vs ≡ length ts
      → Converted (ArePassed ts vs) (unbox reals ts vs)
  unfolding unbox
  unbox-Converted [] [] e = inl (tt, tt, refl)
  unbox-Converted [] (v ∷ vs) e = absurd (omega arith)
  unbox-Converted (t ∷ ts) [] e = absurd (omega arith)
  unbox-Converted (t ∷ ts) (v ∷ vs) e = elim (arg_from-Converted t v) [
    | inr (unfit, q) ↦ inr (
      λ (x, xs) p. unfit x p.0,
      ap (λ o. then_with o (λ x. then_with (unbox reals ts vs) (λ xs. answers (x, xs)))) q,
    )
    | inl (x, here, q) ↦ elim (unbox-Converted ts vs (omega arith)) [
      | inr (unfit, r) ↦ inr (
        λ (y, ys) p. unfit ys p.1,
        ap (λ o. then_with o (λ y. then_with (unbox reals ts vs) (λ ys. answers (y, ys)))) q
            ∙ ap (λ o. then_with o (λ ys. answers (x, ys))) r,
      )
      | inl (xs, there, r) ↦ inl (
        (x, xs),
        (here, there),
        ap (λ o. then_with o (λ y. then_with (unbox reals ts vs) (λ ys. answers (y, ys)))) q
            ∙ ap (λ o. then_with o (λ ys. answers (x, ys))) r,
      )
    ]
  ]

  -- A call of a bound function: either the list has exactly as many values as the function has parameters
  -- and each is one that its parameter's type takes, and then the function is called with what they stand
  -- for and its result is what the call answers; or no arguments fit the list, the function is not called
  -- and the call ends in a Scheme error.
  pub trampoline-ArePassed :
      (unspecified : Scm) (ts : List ArgType) (r : RetType) (fn : Args ts → Outcome (RetOf r))
      (arguments : Scm)
      → ((xs : Args ts) × ArePassed ts (elements arguments) xs
          × (trampoline reals unspecified ts r fn arguments
              ≡ then_with (fn xs) (λ y. answers (box reals unspecified r y))))
        ⊎ (((xs : Args ts) → ¬ ArePassed ts (elements arguments) xs)
            × (trampoline reals unspecified ts r fn arguments ≡ raised))
  unfolding trampoline
  trampoline-ArePassed unspecified ts r fn arguments =
      elim (Bool-cases (length (elements arguments) == length ts)) [
        | inr e ↦ inr (
          λ xs p.
              let same = ArePassed-length ts (elements arguments) xs p in
              absurd (ground (arith, e, same)),
          rw (e, trampoline) refl,
        )
        | inl e ↦ elim (unbox-Converted ts (elements arguments) (ground (arith, e))) [
          | inr (unfit, q) ↦ inr (unfit, rw (e, trampoline) (rw q refl))
          | inl (xs, all, q) ↦ inl (xs, all, rw (e, trampoline) (rw q refl))
        ]
      ]
