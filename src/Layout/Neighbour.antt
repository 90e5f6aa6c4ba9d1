-- ===== src/Layout/Neighbour.antt =====
-- What `move_target_in_direction` does to the order.
use hyprscheme.Base.{
  ℕ, zero, suc, ◌+◌, ◌≡◌, ◌<◌, refl, ap, Bool, true, Option, none, some, List, [], ◌∷◌, length,
  count, arith, ◌∙◌,
}
use hyprscheme.Layout.Order.{
  Direction, is_backward, is_forward, place_of, iter_swap, move_place, move_target_in_direction,
}

-- Two neighbours change places.
swap_next : ℕ → List ℕ → List ℕ
swap_next k [] = []
swap_next zero (x ∷ []) = x ∷ []
swap_next zero (x ∷ y ∷ ts) = y ∷ x ∷ ts
swap_next (suc k) (x ∷ ts) = x ∷ swap_next k ts

iter_swap-suc :
    (i j x : ℕ) (ts : List ℕ) → iter_swap (suc i) (suc j) (x ∷ ts) ≡ x ∷ iter_swap i j ts
unfolding iter_swap
iter_swap-suc i j x ts = ground arith

iter_swap-swap_next : (k : ℕ) (ts : List ℕ) → iter_swap k (suc k) ts ≡ swap_next k ts
unfolding swap_next iter_swap
iter_swap-swap_next zero [] = refl
iter_swap-swap_next (suc k) [] = refl
iter_swap-swap_next zero (x ∷ []) = refl
iter_swap-swap_next zero (x ∷ y ∷ ts) = refl
iter_swap-swap_next (suc k) (x ∷ ts) =
    iter_swap-suc k (suc k) x ts ∙ ap (◌∷◌ x) (iter_swap-swap_next k ts)

iter_swap-swap_next_back : (k : ℕ) (ts : List ℕ) → iter_swap (suc k) k ts ≡ swap_next k ts
unfolding swap_next iter_swap
iter_swap-swap_next_back zero [] = refl
iter_swap-swap_next_back (suc k) [] = refl
iter_swap-swap_next_back zero (x ∷ []) = refl
iter_swap-swap_next_back zero (x ∷ y ∷ ts) = refl
iter_swap-swap_next_back (suc k) (x ∷ ts) =
    iter_swap-suc (suc k) k x ts ∙ ap (◌∷◌ x) (iter_swap-swap_next_back k ts)

swap_next-swap_next : (k : ℕ) (ts : List ℕ) → swap_next k (swap_next k ts) ≡ ts
unfolding swap_next
swap_next-swap_next zero [] = refl
swap_next-swap_next (suc k) [] = refl
swap_next-swap_next zero (x ∷ []) = refl
swap_next-swap_next zero (x ∷ y ∷ ts) = refl
swap_next-swap_next (suc k) (x ∷ ts) = ap (◌∷◌ x) (swap_next-swap_next k ts)

length-swap_next : (k : ℕ) (ts : List ℕ) → length (swap_next k ts) ≡ length ts
unfolding swap_next
length-swap_next zero [] = refl
length-swap_next (suc k) [] = refl
length-swap_next zero (x ∷ []) = refl
length-swap_next zero (x ∷ y ∷ ts) = refl
length-swap_next (suc k) (x ∷ ts) = ap suc (length-swap_next k ts)

count-swap_next : (c k : ℕ) (ts : List ℕ) → count c (swap_next k ts) ≡ count c ts
unfolding swap_next
count-swap_next c zero [] = refl
count-swap_next c (suc k) [] = refl
count-swap_next c zero (x ∷ []) = refl
count-swap_next c zero (x ∷ y ∷ ts) = ground arith
count-swap_next c (suc k) (x ∷ ts) = ground (arith, count-swap_next c k ts)

place_of-lt :
    (alive : ℕ → Bool) (a : ℕ) (ts : List ℕ) (i : ℕ) → place_of alive a ts ≡ some i → i < length ts
unfolding place_of
place_of-lt alive a [] i h = cc
place_of-lt alive a (t ∷ ts) zero h = omega arith
place_of-lt alive a (t ∷ ts) (suc i) h = ground (arith, place_of-lt alive a ts i)

place_of-swap_next :
    (alive : ℕ → Bool) (a k : ℕ) (ts : List ℕ)
    → place_of alive a ts ≡ some (suc k)
    → place_of alive a (swap_next k ts) ≡ some k
unfolding place_of swap_next
place_of-swap_next alive a zero [] h = cc
place_of-swap_next alive a (suc k) [] h = cc
place_of-swap_next alive a zero (x ∷ []) h = ground arith
place_of-swap_next alive a zero (x ∷ y ∷ ts) h = ground arith
place_of-swap_next alive a (suc k) (x ∷ ts) h = ground (arith, place_of-swap_next alive a k ts)

module _ (alive : ℕ → Bool) (t : ℕ) (d : Direction) (back : is_backward d ≡ true) where
  -- A backward move found the target behind another one, and swapped the two.
  moved_back :
      (ts us : List ℕ) (p : Option ℕ)
      → move_place p d ts ≡ some us
      → (k : ℕ) × (p ≡ some (suc k)) × (us ≡ swap_next k ts)
  unfolding move_place
  moved_back ts us none h = cc
  moved_back ts us (some zero) h = ground arith
  moved_back ts us (some (suc k)) h = (k, refl, ground (arith, iter_swap-swap_next_back k ts))

  forward_from :
      (e : Direction) (k : ℕ) (us : List ℕ)
      → is_forward e ≡ true
      → k + 1 < length us
      → move_place (some k) e us ≡ some (swap_next k us)
  unfolding move_place
  forward_from e k us f below = ground (arith, iter_swap-swap_next k us)

  -- A move to the left or upwards that changes the order neither loses a target nor makes one up,
  -- and the move of the same target to the right or downwards that follows restores the order.
  pub move-backward_undone :
      (e : Direction) (ts us : List ℕ)
      → is_forward e ≡ true
      → move_target_in_direction alive t d ts ≡ some us
      → (move_target_in_direction alive t e us ≡ some ts) × ((c : ℕ) → count c us ≡ count c ts)
  unfolding move_target_in_direction
  move-backward_undone e ts us f h =
      let (k, p, q) = moved_back ts us (place_of alive t ts) h in
      let below : k + 1 < length (swap_next k ts) =
        omega (arith, length-swap_next k ts, place_of-lt alive t ts (suc k) p) in
      rw
        (
          q,
          place_of-swap_next alive t k ts p,
          forward_from e k (swap_next k ts) f below,
          swap_next-swap_next k ts,
        )
        (refl, λ c. count-swap_next c k ts)
