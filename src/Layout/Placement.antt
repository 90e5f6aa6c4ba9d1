-- ===== src/Layout/Placement.antt =====
-- What a layout's answer sets: positions are matched by window.
use hyprscheme.Base.{
  ℕ, ◌≡◌, refl, true, Option, none, some, List, [], ◌∷◌, ◌==◌, if◌then◌else◌, arith, inl, inr,
  is_some, Option-cases, All, ◌↔◌,
}
use hyprscheme.Scm.{Scm, pair, elements}
use hyprscheme.Layout.Geometry.{Box, Doubles, World}
use hyprscheme.Layout.Boxes.{read_placement, window_named, target_showing, resolve, apply_each}
use hyprscheme.Layout.Fallback.{last_box}

module _ (fpu : Doubles) (o : World) (rtd : ℕ) where
  -- The box that a single placement asks for a window.
  pub asks : ℕ → Scm → Option Box
  asks w v = elim (read_placement fpu rtd v) [
    | none ↦ none
    | some (named, box) ↦ elim (window_named fpu o named) [
      | none ↦ none
      | some u ↦ if u == w then some box else none
    ]
  ]

  -- The last box that an answer asks for a window.
  pub requested : ℕ → List Scm → Option Box
  requested w [] = none
  requested w (v ∷ vs) = let later = requested w vs in if is_some later then later else asks w v

  target_showing-window_of :
      (w : ℕ) (ts : List ℕ) {t : ℕ} → target_showing fpu o w ts ≡ some t → o.window_of t ≡ some w
  unfolding target_showing
  target_showing-window_of w [] h = cc
  target_showing-window_of w (u ∷ ts) {t} h = ground (arith, target_showing-window_of w ts {t = t})

  -- A placement that resolves to a target asks for that target's window and for no other.
  resolve-asks :
      (ts : List ℕ) (v : Scm) {t : ℕ} {b : Box}
      → resolve fpu o rtd ts v ≡ some (t, b)
      → (w : ℕ) × (target_showing fpu o w ts ≡ some t)
        × ((u : ℕ) → asks u v ≡ (if w == u then some b else none))
  unfolding resolve asks
  resolve-asks ts v {t} {b} h = elim (Option-cases (read_placement fpu rtd v)) [
    | inl e ↦ absurd (ground arith)
    | inr ((named, box), e) ↦ elim (Option-cases (window_named fpu o named)) [
      | inl n ↦ absurd (ground arith)
      | inr (w, n) ↦ (w, ground arith, λ u. ground arith)
    ]
  ]

  -- The first target that shows a window ends an accepted answer in the last box that it asks for the window, and
  -- keeps its place if the answer does not name the window.
  pub last_box-apply_each :
      (ts : List ℕ) (result : Scm) (t w : ℕ)
      → (apply_each fpu o rtd ts result).1 ≡ true
      → target_showing fpu o w ts ≡ some t
      → last_box t (apply_each fpu o rtd ts result).0 ≡ requested w (elements result)
  unfolding apply_each last_box requested elements
  last_box-apply_each ts (pair v rest) t w ok shown = elim (Option-cases (resolve fpu o rtd ts v)) [
    | inl e ↦ absurd (ground arith)
    | inr ((u, b), e) ↦ step u b e (resolve-asks ts v e) (last_box-apply_each ts rest t w)
  ]
    where
      step :
          (u : ℕ) (b : Box)
          → resolve fpu o rtd ts v ≡ some (u, b)
          → (x : ℕ) × (target_showing fpu o x ts ≡ some u)
            × ((y : ℕ) → asks y v ≡ (if x == y then some b else none))
          → ((apply_each fpu o rtd ts rest).1 ≡ true
              → target_showing fpu o w ts ≡ some t
              → last_box t (apply_each fpu o rtd ts rest).0 ≡ requested w (elements rest))
          → last_box t (apply_each fpu o rtd ts (pair v rest)).0
            ≡ requested w (elements (pair v rest))
      step u b e (x, f, g) ih =
          ground (
            arith,
            g w,
            target_showing-window_of w ts {t = t},
            target_showing-window_of x ts {t = u},
          )
  last_box-apply_each ts _ t w ok shown = refl

  -- The loop over an answer runs to its end exactly when each entry is a pair of a live window that
  -- one of the layout's targets shows and of a box of four numbers.
  pub apply_each_accepts :
      (ts : List ℕ) (result : Scm)
      → ((apply_each fpu o rtd ts result).1 ≡ true)
        ↔ All (λ v. is_some (resolve fpu o rtd ts v) ≡ true) (elements result)
  unfolding apply_each elements
  apply_each_accepts ts (pair v rest) = elim (Option-cases (resolve fpu o rtd ts v)) [
    | inl e ↦ rw (e, apply_each) (ground arith)
    | inr (placed, e) ↦
        rw (e, apply_each)
          (let (run, back) = apply_each_accepts ts rest in (λ h. (refl, run h), λ h. back h.1))
  ]
  apply_each_accepts ts _ = (λ h. tt, λ h. refl)
