-- ===== src/Base/Digits.antt =====
-- Numbers as text: `std::to_string` and the `{:x}` of `std::format`.
use Prim.Native.Nat.{ℕ, zero, suc, ◌+◌, ◌-◌, ◌*◌, ◌/◌, ◌%◌, ◌<◌, ◌≤◌}
use mathlib.Core.Path.{◌≡◌, sym, ap, ◌∙◌}
use mathlib.Core.Logic.{inl, inr}
use mathlib.Core.Bool.{true, false}
use mathlib.Core.List.{[], ◌∷◌}
use native.Mathlib.Omega.{arith}
use native.Mathlib.Nat.{div-add-mod, mod-lt, div-lt_self, div-le_self}
use hyprscheme.Base.Tests.{◌==◌, ltb, if◌then◌else◌, Bool-cases}
use hyprscheme.Base.Bytes.{Text}
use hyprscheme.Base.Int.{ℤ, pos, negsuc}

-- A digit below sixteen, and its value.
abbrev digit : ℕ → ℕ
digit d = if ltb d 10 then b'0' + d else 87 + d

abbrev undigit : ℕ → ℕ
undigit c = if ltb c 58 then c - b'0' else c - 87

-- The digits of `n` before `acc`, with fuel for as many as there are.
unfoldable digits_from : ℕ → ℕ → ℕ → Text → Text
digits_from zero b n acc = acc
digits_from (suc fuel) b n acc =
    let rest = digits_from fuel b (n / b) (digit (n % b) ∷ acc) in
    if n / b == 0 then digit (n % b) ∷ acc else rest

unfoldable pub digits : ℕ → ℕ → Text
unfolding digits_from
digits b n = digits_from (suc n) b n []

unfoldable pub decimal : ℤ → Text
unfolding digits
decimal (pos n) = digits 10 n
decimal (negsuc n) = b'-' ∷ digits 10 (suc n)

unfoldable pub address_text : ℕ → Text
unfolding digits
address_text a = b'0' ∷ b'x' ∷ digits 16 a

-- The number that digits write, read from the left.
abbrev value : ℕ → ℕ → Text → ℕ
value b a [] = a
value b a (c ∷ s) = value b (b * a + undigit c) s

undigit-digit : (d : ℕ) → d < 16 → undigit (digit d) ≡ d
undigit-digit d h = ground arith

value-digits_from :
    (fuel b n : ℕ) (acc : Text)
    → 1 < b
    → b ≤ 16
    → n < fuel
    → value b 0 (digits_from fuel b n acc) ≡ value b n acc
unfolding digits_from
value-digits_from zero b n acc lo hi h = absurd (omega arith)
value-digits_from (suc fuel) b n acc lo hi h = elim (Bool-cases (n / b == 0)) [
  | inl e ↦
      rw (e, digits_from)
        (ap (λ x. value b x acc)
          (ap (λ x. b * 0 + x) last
            ∙ (ap (λ q. b * q + n % b) (sym (none_left e)) ∙ div-add-mod n b)))
  | inr e ↦
      rw (e, digits_from)
        (value-digits_from fuel b (n / b) (digit (n % b) ∷ acc) lo hi (smaller e)
          ∙ ap (λ x. value b x acc) (ap (λ x. b * (n / b) + x) last ∙ div-add-mod n b))
]
  where
    last : undigit (digit (n % b)) ≡ n % b
    last = undigit-digit (n % b) (omega (arith, mod-lt n {m = b} (omega arith)))

    none_left : (n / b == 0) ≡ true → n / b ≡ 0
    none_left e = ground arith

    smaller : (n / b == 0) ≡ false → n / b < fuel
    smaller e =
        let left : 0 < n / b = ground arith in
        let below : n / b < n = div-lt_self (omega (arith, div-le_self n b)) lo in omega arith

value-digits : (b n : ℕ) → 1 < b → b ≤ 16 → value b 0 (digits b n) ≡ n
unfolding digits
value-digits b n lo hi = value-digits_from (suc n) b n [] lo hi (omega arith)

-- Different numbers have different digits.
pub digits-injective : (b m n : ℕ) → 1 < b → b ≤ 16 → digits b m ≡ digits b n → m ≡ n
digits-injective b m n lo hi e =
    sym (value-digits b m lo hi) ∙ ap (value b 0) e ∙ value-digits b n lo hi
