-- ===== src/Base/Lists.antt =====
-- Lists measured and indexed by native numbers, association lists keyed by an address, and the
-- predicate that holds of every element.
use Prim.Native.Nat.{ℕ, zero, suc, ◌+◌}
use mathlib.Core.Path.{◌≡◌, refl}
use mathlib.Core.Bool.{Bool, true, false, ◌||◌}
use mathlib.Core.List.{List, [], ◌∷◌, ◌++◌}
use mathlib.Core.Option.{Option, none, some}
use native.Mathlib.Omega.{arith}
use hyprscheme.Base.Tests.{◌==◌, if◌then◌else◌, is_some}

module _ {ℓ} {A : Type ℓ} where
  abbrev pub length : List A → ℕ
  length [] = 0
  length (x ∷ xs) = suc (length xs)

  abbrev pub get_elem? : List A → ℕ → Option A
  get_elem? [] i = none
  get_elem? (x ∷ xs) zero = some x
  get_elem? (x ∷ xs) (suc i) = get_elem? xs i

  pub length-append : (xs ys : List A) → length (xs ++ ys) ≡ length xs + length ys
  length-append [] ys = omega arith
  length-append (x ∷ xs) ys = omega (arith, length-append xs ys)

  abbrev pub is_empty : List A → Bool
  is_empty [] = true
  is_empty (x ∷ xs) = false

  -- The elements that pass a test, in order.
  abbrev pub keep : (A → Bool) → List A → List A
  keep p [] = []
  keep p (x ∷ xs) = if p x then x ∷ keep p xs else keep p xs

  abbrev pub any : (A → Bool) → List A → Bool
  any p [] = false
  any p (x ∷ xs) = p x || any p xs

  abbrev pub All {κ} : (A → Type κ) → List A → Type κ
  All P [] = Unit
  All P (x ∷ xs) = P x × All P xs

  pub All-append {κ} : (P : A → Type κ) (xs ys : List A) → All P xs → All P ys → All P (xs ++ ys)
  All-append P [] ys hx hy = hy
  All-append P (x ∷ xs) ys hx hy = (hx.0, All-append P xs ys hx.1 hy)

  pub All-keep {κ} : (P : A → Type κ) (p : A → Bool) (xs : List A) → All P xs → All P (keep p xs)
  All-keep P p [] h = tt
  All-keep P p (x ∷ xs) h = ground (arith, All-keep P p xs h.1)

  -- Every element that is kept passes the test.
  pub keep-All : (p : A → Bool) (xs : List A) → All (λ x. p x ≡ true) (keep p xs)
  keep-All p [] = tt
  keep-All p (x ∷ xs) = ground (arith, keep-All p xs)

  pub keep-keep : (p : A → Bool) (xs : List A) → keep p (keep p xs) ≡ keep p xs
  keep-keep p [] = refl
  keep-keep p (x ∷ xs) = ground (arith, keep-keep p xs)

-- Whether a number stands in a list, and how often.
abbrev pub member : ℕ → List ℕ → Bool
member a [] = false
member a (x ∷ xs) = (x == a) || member a xs

abbrev pub count : ℕ → List ℕ → ℕ
count a [] = 0
count a (x ∷ xs) = let rest = count a xs in if x == a then suc rest else rest

abbrev pub IsDistinct : List ℕ → Type 0
IsDistinct [] = Unit
IsDistinct (x ∷ xs) = (member x xs ≡ false) × IsDistinct xs

pub member-keep-false :
    (p : ℕ → Bool) (a : ℕ) (xs : List ℕ) → member a xs ≡ false → member a (keep p xs) ≡ false
member-keep-false p a [] h = refl
member-keep-false p a (x ∷ xs) h = ground (arith, member-keep-false p a xs)

pub keep-IsDistinct : (p : ℕ → Bool) (xs : List ℕ) → IsDistinct xs → IsDistinct (keep p xs)
keep-IsDistinct p [] h = tt
keep-IsDistinct p (x ∷ xs) h =
    ground (arith, keep-IsDistinct p xs h.1, member-keep-false p x xs h.0)

-- `std::unordered_map` keyed by a record's address.
module _ {ℓ} {V : Type ℓ} where
  unfoldable pub find : ℕ → List (ℕ × V) → Option V
  find k [] = none
  find k ((j, v) ∷ m) = if j == k then some v else find k m

  -- `emplace` keeps the entry that is there.
  unfoldable pub emplace : ℕ → V → List (ℕ × V) → List (ℕ × V)
  unfolding find
  emplace k v m = if is_some (find k m) then m else (k, v) ∷ m

  unfoldable pub erase : ℕ → List (ℕ × V) → List (ℕ × V)
  erase k [] = []
  erase k ((j, v) ∷ m) = if j == k then erase k m else (j, v) ∷ erase k m

  -- Overwrites the value at a key that is there.
  unfoldable pub assign : ℕ → V → List (ℕ × V) → List (ℕ × V)
  assign k v [] = []
  assign k v ((j, w) ∷ m) = if j == k then (j, v) ∷ assign k v m else (j, w) ∷ assign k v m

  pub find-emplace :
      (k j : ℕ) (v : V) (m : List (ℕ × V))
      → find j (emplace k v m)
        ≡ (if is_some (find k m) then find j m else (if k == j then some v else find j m))
  unfolding find emplace
  find-emplace k j v m = ground arith

  pub find-erase :
      (k j : ℕ) (m : List (ℕ × V)) → find j (erase k m) ≡ (if k == j then none else find j m)
  unfolding find erase
  find-erase k j [] = ground arith
  find-erase k j ((i, w) ∷ m) = ground (arith, find-erase k j m)

  pub find-assign :
      (k j : ℕ) (v : V) (m : List (ℕ × V))
      → find j (assign k v m)
        ≡ (if k == j then (if is_some (find j m) then some v else none) else find j m)
  unfolding find assign
  find-assign k j v [] = ground arith
  find-assign k j v ((i, w) ∷ m) = ground (arith, find-assign k j v m)

  abbrev pub keys : List (ℕ × V) → List ℕ
  keys [] = []
  keys ((k, v) ∷ m) = k ∷ keys m

  pub member-keys : (k : ℕ) (m : List (ℕ × V)) → member k (keys m) ≡ is_some (find k m)
  unfolding find
  member-keys k [] = refl
  member-keys k ((j, v) ∷ m) = ground (arith, member-keys k m)

  pub emplace-IsDistinct :
      (k : ℕ) (v : V) (m : List (ℕ × V)) → IsDistinct (keys m) → IsDistinct (keys (emplace k v m))
  unfolding emplace
  emplace-IsDistinct k v m h = ground (arith, member-keys k m)

  member-erase-false :
      (k j : ℕ) (m : List (ℕ × V)) → member j (keys m) ≡ false → member j (keys (erase k m)) ≡ false
  unfolding erase
  member-erase-false k j [] h = refl
  member-erase-false k j ((i, w) ∷ m) h = ground (arith, member-erase-false k j m)

  pub erase-IsDistinct :
      (k : ℕ) (m : List (ℕ × V)) → IsDistinct (keys m) → IsDistinct (keys (erase k m))
  unfolding erase
  erase-IsDistinct k [] h = tt
  erase-IsDistinct k ((i, w) ∷ m) h =
      ground (arith, erase-IsDistinct k m h.1, member-erase-false k i m h.0)

  pub keys-assign : (k : ℕ) (v : V) (m : List (ℕ × V)) → keys (assign k v m) ≡ keys m
  unfolding assign
  keys-assign k v [] = refl
  keys-assign k v ((i, w) ∷ m) = ground (arith, keys-assign k v m)
