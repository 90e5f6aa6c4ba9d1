-- ===== src/Layout/Order.antt =====
-- The order of a layout's targets: `swapTargets`, `moveTargetInDirection`, `removeTarget`,
-- `newTarget`, `liveTargets` and `getNextCandidate` of `CSchemeTiledAlgorithm`. A weak reference is
-- the number of its target, and `alive` says whether it can be locked. The target that a caller
-- passes is not null.
use hyprscheme.Base.{
  ℕ, zero, suc, ◌+◌, ◌-◌, Bool, true, false, not, ◌||◌, ◌&&◌, Option, none, some, List, [], ◌∷◌,
  ◌++◌, ◌==◌, ltb, if◌then◌else◌, length, get_elem?, keep, is_empty,
}

-- `Math::eDirection`.
pub data Direction : Type 0 where
  left right up down default_direction : Direction

abbrev pub is_backward : Direction → Bool
is_backward left = true
is_backward up = true
is_backward _ = false

abbrev pub is_forward : Direction → Bool
is_forward right = true
is_forward down = true
is_forward _ = false

-- `t.lock() == a`.
unfoldable pub locks_to : (ℕ → Bool) → ℕ → ℕ → Bool
locks_to alive a t = alive t && t == a

-- `std::ranges::find_if`, as the place of the first hit.
unfoldable pub place_of : (ℕ → Bool) → ℕ → List ℕ → Option ℕ
unfolding locks_to
place_of alive a [] = none
place_of alive a (t ∷ ts) =
    if locks_to alive a t
    then some 0
    else elim (place_of alive a ts) [ none ↦ none | some i ↦ some (suc i) ]

-- `*it = v`.
unfoldable pub put_at : ℕ → ℕ → List ℕ → List ℕ
put_at i v [] = []
put_at zero v (t ∷ ts) = v ∷ ts
put_at (suc i) v (t ∷ ts) = t ∷ put_at i v ts

-- `std::iter_swap`.
unfoldable pub iter_swap : ℕ → ℕ → List ℕ → List ℕ
unfolding put_at
iter_swap i j ts = elim (get_elem? ts i) [
  | none ↦ ts
  | some x ↦ elim (get_elem? ts j) [ none ↦ ts | some y ↦ put_at j x (put_at i y ts) ]
]

unfoldable pub put_if : Option ℕ → ℕ → List ℕ → List ℕ
unfolding put_at
put_if none v ts = ts
put_if (some i) v ts = put_at i v ts

unfoldable pub swap_found : Option ℕ → Option ℕ → ℕ → ℕ → List ℕ → List ℕ
unfolding iter_swap put_if
swap_found (some i) (some j) a b ts = iter_swap i j ts
swap_found (some i) none a b ts = put_if none a (put_if (some i) b ts)
swap_found none j a b ts = put_if j a ts

unfoldable pub swap_targets : (ℕ → Bool) → ℕ → ℕ → List ℕ → List ℕ
unfolding place_of swap_found
swap_targets alive a b ts = swap_found (place_of alive a ts) (place_of alive b ts) a b ts

-- The order after a move of the target at a place; `none` where the source returns without a
-- recalculation.
unfoldable pub move_place : Option ℕ → Direction → List ℕ → Option (List ℕ)
unfolding iter_swap
move_place none d ts = none
move_place (some i) d ts =
    if is_backward d && not (i == 0)
    then some (iter_swap i (i - 1) ts)
    else if is_forward d && ltb (i + 1) (length ts)
    then some (iter_swap i (i + 1) ts)
    else none

unfoldable pub move_target_in_direction : (ℕ → Bool) → ℕ → Direction → List ℕ → Option (List ℕ)
unfolding place_of move_place
move_target_in_direction alive t d ts = move_place (place_of alive t ts) d ts

unfoldable pub new_target : ℕ → List ℕ → List ℕ
new_target t ts = ts ++ t ∷ []

unfoldable pub remove_target : (ℕ → Bool) → ℕ → List ℕ → List ℕ
unfolding locks_to
remove_target alive a ts = keep (λ t. not (not (alive t) || locks_to alive a t)) ts

unfoldable pub live_targets : (ℕ → Bool) → List ℕ → List ℕ
live_targets alive ts = keep alive ts

-- `targets.back()`.
unfoldable pub last_of : List ℕ → Option ℕ
last_of [] = none
last_of (t ∷ ts) = if is_empty ts then some t else last_of ts

abbrev pub head? : List ℕ → Option ℕ
head? [] = none
head? (t ∷ ts) = some t

-- The candidate among live targets, given where the old one stands in them.
unfoldable pub candidate_at : Option ℕ → List ℕ → Option ℕ
unfolding last_of
candidate_at none ts = last_of ts
candidate_at (some i) ts =
    if length ts == 1 then none else if i + 1 == length ts then head? ts else get_elem? ts (i + 1)

unfoldable pub get_next_candidate : (ℕ → Bool) → ℕ → List ℕ → Option ℕ
unfolding live_targets place_of candidate_at
get_next_candidate alive old ts =
    let live = live_targets alive ts in
    if is_empty live then none else candidate_at (place_of (λ _. true) old live) live
