-- ===== src/Layout/Candidate.antt =====
-- What `get_next_candidate` answers.
use hyprscheme.Base.{
  ℕ, zero, suc, ◌+◌, ◌≡◌, ◌<◌, refl, ap, Bool, true, false, inl, inr, ◌≢◌, Option, none, some, List,
  [], ◌∷◌, ◌==◌, if◌then◌else◌, length, get_elem?, member, IsDistinct, arith, Option-cases, All,
  keep, keep-IsDistinct, Bool-cases, is_empty,
}
use hyprscheme.Layout.Order.{place_of, last_of, candidate_at, get_next_candidate}
use hyprscheme.Layout.Exchange.{place_of-none, get_elem?-place_of}

-- What a next candidate for a target is, among live ones: another live target; and there is none
-- only when no other target is live.
abbrev pub IsCandidate : ℕ → List ℕ → Option ℕ → Type 0
IsCandidate old live none = All (λ t. t ≡ old) live
IsCandidate old live (some c) = (member c live ≡ true) × (c ≢ old)

member-get_elem? : (ts : List ℕ) (i : ℕ) {c : ℕ} → get_elem? ts i ≡ some c → member c ts ≡ true
member-get_elem? [] i h = cc
member-get_elem? (t ∷ ts) zero h = ground arith
member-get_elem? (t ∷ ts) (suc i) h = ground (arith, member-get_elem? ts i h)

get_elem?-ne :
    (ts : List ℕ) (i j : ℕ) {a c : ℕ}
    → IsDistinct ts
    → get_elem? ts i ≡ some a
    → get_elem? ts j ≡ some c
    → i ≢ j
    → c ≢ a
get_elem?-ne [] i j d hi hj n = cc
get_elem?-ne (t ∷ ts) zero zero d hi hj n = absurd (n refl)
get_elem?-ne (t ∷ ts) zero (suc j) {a} {c} d hi hj n = ground (arith, member-get_elem? ts j {c = c})
get_elem?-ne (t ∷ ts) (suc i) zero {a} {c} d hi hj n = ground (arith, member-get_elem? ts i {c = a})
get_elem?-ne (t ∷ ts) (suc i) (suc j) d hi hj n = get_elem?-ne ts i j d.1 hi hj (λ e. n (ap suc e))

get_elem?-some : (ts : List ℕ) (i : ℕ) → i < length ts → (c : ℕ) × (get_elem? ts i ≡ some c)
get_elem?-some [] i h = absurd (omega arith)
get_elem?-some (t ∷ ts) zero h = (t, refl)
get_elem?-some (t ∷ ts) (suc i) h = get_elem?-some ts i (omega arith)

get_elem?-lt : (ts : List ℕ) (i : ℕ) {c : ℕ} → get_elem? ts i ≡ some c → i < length ts
get_elem?-lt [] i h = cc
get_elem?-lt (t ∷ ts) zero h = omega arith
get_elem?-lt (t ∷ ts) (suc i) {c} h = omega (arith, get_elem?-lt ts i {c = c} h)

last_of-member :
    (t : ℕ) (ts : List ℕ) → (c : ℕ) × (last_of (t ∷ ts) ≡ some c) × (member c (t ∷ ts) ≡ true)
unfolding last_of
last_of-member t [] = (t, refl, ground arith)
last_of-member t (u ∷ ts) = let (c, e, m) = last_of-member u ts in (c, e, ground arith)

member-ne : (ts : List ℕ) (a c : ℕ) → member a ts ≡ false → member c ts ≡ true → c ≢ a
member-ne [] a c ha hc = cc
member-ne (t ∷ ts) a c ha hc = ground (arith, member-ne ts a c)

several : (t u : ℕ) (ts : List ℕ) → (length (t ∷ u ∷ ts) == 1) ≡ false
several t u ts = ground arith

-- The candidate when the old target stands at a place of two or more.
after_place :
    (old t u : ℕ) (ts : List ℕ) (i : ℕ)
    → IsDistinct (t ∷ u ∷ ts)
    → get_elem? (t ∷ u ∷ ts) i ≡ some old
    → IsCandidate old (t ∷ u ∷ ts) (candidate_at (some i) (t ∷ u ∷ ts))
unfolding candidate_at
after_place old t u ts i d h = elim (Bool-cases (i + 1 == length (t ∷ u ∷ ts))) [
  | inl e ↦
      let n : i ≢ 0 = λ z. ground arith in
      rw (several t u ts, e, candidate_at) (ground arith, get_elem?-ne (t ∷ u ∷ ts) i 0 d h refl n)
  | inr e ↦
      let below : i + 1 < length (t ∷ u ∷ ts) = ground (arith, get_elem?-lt (t ∷ u ∷ ts) i h) in
      let (c, g) = get_elem?-some (t ∷ u ∷ ts) (i + 1) below in
      rw (several t u ts, e, g, candidate_at)
        (
          member-get_elem? (t ∷ u ∷ ts) (i + 1) g,
          get_elem?-ne (t ∷ u ∷ ts) i (i + 1) d h g (omega arith),
        )
]

only_place :
    (old t i : ℕ)
    → get_elem? (t ∷ []) i ≡ some old
    → IsCandidate old (t ∷ []) (candidate_at (some i) (t ∷ []))
unfolding candidate_at
only_place old t zero h = ground arith
only_place old t (suc i) h = cc

candidate_at-IsCandidate :
    (old : ℕ) (live : List ℕ)
    → IsDistinct live
    → IsCandidate old live
        (if is_empty live then none else candidate_at (place_of (λ _. true) old live) live)
unfolding candidate_at
candidate_at-IsCandidate old [] d = tt
candidate_at-IsCandidate old (t ∷ ts) d = elim (Option-cases (place_of (λ _. true) old (t ∷ ts))) [
  | inl e ↦
      rw (e, candidate_at)
        (absent (last_of-member t ts) (place_of-none (λ _. true) old refl (t ∷ ts) e))
  | inr (i, e) ↦ rw e (present i ts d (get_elem?-place_of (λ _. true) old refl (t ∷ ts) i e))
]
  where
    absent :
        (c : ℕ) × (last_of (t ∷ ts) ≡ some c) × (member c (t ∷ ts) ≡ true)
        → member old (t ∷ ts) ≡ false
        → IsCandidate old (t ∷ ts) (last_of (t ∷ ts))
    absent (c, e, m) f = rw e (m, member-ne (t ∷ ts) old c f m)

    present :
        (i : ℕ) (us : List ℕ)
        → IsDistinct (t ∷ us)
        → get_elem? (t ∷ us) i ≡ some old
        → IsCandidate old (t ∷ us) (candidate_at (some i) (t ∷ us))
    present i [] d' h = only_place old t i h
    present i (u ∷ us) d' h = after_place old t u us i d' h

-- The next candidate for a target is another live target of the layout, and there is none only when
-- every live target is that one; the order holds no target twice.
pub get_next_candidate-IsCandidate :
    (alive : ℕ → Bool) (old : ℕ) (ts : List ℕ)
    → IsDistinct ts
    → IsCandidate old (keep alive ts) (get_next_candidate alive old ts)
unfolding get_next_candidate
get_next_candidate-IsCandidate alive old ts d =
    candidate_at-IsCandidate old (keep alive ts) (keep-IsDistinct alive ts d)
