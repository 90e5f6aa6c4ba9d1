-- ===== src/Layout/Exchange.antt =====
-- What `swap_targets` does to the order: it exchanges the two names wherever they stand.
use hyprscheme.Base.{
  ℕ, zero, suc, ◌≡◌, refl, Bool, true, false, ◌⊎◌, inl, inr, ◌≢◌, none, some, List, [], ◌∷◌, ◌==◌,
  if◌then◌else◌, get_elem?, member, IsDistinct, arith, Option-cases, ◌∙◌, sym,
}
use hyprscheme.Layout.Order.{place_of, put_at, iter_swap, swap_found, swap_targets}

abbrev pub exchange : ℕ → ℕ → ℕ → ℕ
exchange a b t = if t == a then b else if t == b then a else t

abbrev pub exchange_all : ℕ → ℕ → List ℕ → List ℕ
exchange_all a b [] = []
exchange_all a b (t ∷ ts) = exchange a b t ∷ exchange_all a b ts

exchange_all-fresh :
    (a b : ℕ) (ts : List ℕ) → member a ts ≡ false → member b ts ≡ false → exchange_all a b ts ≡ ts
exchange_all-fresh a b [] ha hb = refl
exchange_all-fresh a b (t ∷ ts) ha hb = ground (arith, exchange_all-fresh a b ts)

exchange_all_comm : (a b : ℕ) (ts : List ℕ) → exchange_all a b ts ≡ exchange_all b a ts
exchange_all_comm a b [] = refl
exchange_all_comm a b (t ∷ ts) = ground (arith, exchange_all_comm a b ts)

module _ (alive : ℕ → Bool) (a : ℕ) (up : alive a ≡ true) where
  pub place_of-none : (ts : List ℕ) → place_of alive a ts ≡ none → member a ts ≡ false
  unfolding place_of
  place_of-none [] h = refl
  place_of-none (t ∷ ts) h = ground (arith, place_of-none ts)

  pub get_elem?-place_of :
      (ts : List ℕ) (i : ℕ) → place_of alive a ts ≡ some i → get_elem? ts i ≡ some a
  unfolding place_of
  get_elem?-place_of [] i h = cc
  get_elem?-place_of (t ∷ ts) zero h = ground arith
  get_elem?-place_of (t ∷ ts) (suc i) h = ground (arith, get_elem?-place_of ts i)

  pub place_of-tail :
      (t : ℕ) (ts : List ℕ) (i : ℕ)
      → place_of alive a (t ∷ ts) ≡ some i
      → ((t ≡ a) × (i ≡ 0)) ⊎ ((j : ℕ) × (i ≡ suc j) × (t ≢ a) × (place_of alive a ts ≡ some j))
  unfolding place_of
  place_of-tail t ts zero h = inl (ground arith)
  place_of-tail t ts (suc j) h = inr (j, refl, ground arith, ground arith)

  pub put_at-exchange_all :
      (b : ℕ) (ts : List ℕ) (i : ℕ)
      → place_of alive a ts ≡ some i
      → IsDistinct ts
      → member b ts ≡ false
      → put_at i b ts ≡ exchange_all a b ts
  unfolding put_at
  put_at-exchange_all b [] i h d f = refl
  put_at-exchange_all b (t ∷ ts) i h d f = elim (place_of-tail t ts i h) [
    | inl (e, z) ↦ rw (z, put_at) (ground (arith, exchange_all-fresh a b ts))
    | inr (j, e, n, p) ↦ rw (e, put_at) (ground (arith, put_at-exchange_all b ts j p d.1))
  ]

module _ (alive : ℕ → Bool) (a b : ℕ) (up : alive a ≡ true) (ub : alive b ≡ true) where
  put_at-put_at :
      (ts : List ℕ) (i j : ℕ)
      → place_of alive a ts ≡ some i
      → place_of alive b ts ≡ some j
      → IsDistinct ts
      → put_at j a (put_at i b ts) ≡ exchange_all a b ts
  unfolding put_at
  put_at-put_at [] i j hi hj d = refl
  put_at-put_at (t ∷ ts) i j hi hj d = elim (place_of-tail alive a up t ts i hi) [
    | inl (e, z) ↦ elim (place_of-tail alive b ub t ts j hj) [
      | inl (e', z') ↦ rw (z, z', put_at) (ground (arith, exchange_all-fresh a b ts))
      | inr (j', e', n', p') ↦
          rw (z, e', put_at)
            (ground
              (arith, put_at-exchange_all alive b ub a ts j' p' d.1, exchange_all_comm a b ts))
    ]
    | inr (i', e, n, p) ↦ elim (place_of-tail alive b ub t ts j hj) [
      | inl (e', z') ↦
          rw (e, z', put_at) (ground (arith, put_at-exchange_all alive a up b ts i' p d.1))
      | inr (j', e', n', p') ↦ rw (e, e', put_at) (ground (arith, put_at-put_at ts i' j' p p' d.1))
    ]
  ]

  iter_swap-exchange_all :
      (ts : List ℕ) (i j : ℕ)
      → place_of alive a ts ≡ some i
      → place_of alive b ts ≡ some j
      → IsDistinct ts
      → iter_swap i j ts ≡ exchange_all a b ts
  unfolding iter_swap
  iter_swap-exchange_all ts i j hi hj d =
      rw (get_elem?-place_of alive a up ts i hi, get_elem?-place_of alive b ub ts j hj, iter_swap)
        (put_at-put_at ts i j hi hj d)

  -- Swapping two live targets exchanges the two names wherever they stand in the order and leaves
  -- every other place alone, whether both, one or neither is in the layout; the order holds no
  -- target twice.
  pub swap_targets-exchange_all :
      (ts : List ℕ) → IsDistinct ts → swap_targets alive a b ts ≡ exchange_all a b ts
  unfolding swap_targets
  swap_targets-exchange_all ts d = elim (Option-cases (place_of alive a ts)) [
    | inl na ↦ elim (Option-cases (place_of alive b ts)) [
      | inl nb ↦
          rw (na, nb, swap_found)
            (sym (
              exchange_all-fresh a b ts (place_of-none alive a up ts na)
                (place_of-none alive b ub ts nb)))
      | inr (j, pb) ↦
          rw (na, pb, swap_found)
            (put_at-exchange_all alive b ub a ts j pb d (place_of-none alive a up ts na)
              ∙ exchange_all_comm b a ts)
    ]
    | inr (i, pa) ↦ elim (Option-cases (place_of alive b ts)) [
      | inl nb ↦
          rw (pa, nb, swap_found)
            (put_at-exchange_all alive a up b ts i pa d (place_of-none alive b ub ts nb))
      | inr (j, pb) ↦ rw (pa, pb, swap_found) (iter_swap-exchange_all ts i j pa pb d)
    ]
  ]
