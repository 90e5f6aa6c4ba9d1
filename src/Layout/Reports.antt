-- ===== src/Layout/Reports.antt =====
-- How often a failing layout is reported, and that it is tried again.
use hyprscheme.Base.{
  ℕ, ◌+◌, ◌≡◌, ◌≤◌, refl, Bool, List, [], ◌∷◌, ◌++◌, if◌then◌else◌, Text, length, length-append,
  arith, Bool-cases, inl, inr, is_empty,
}
use hyprscheme.Layout.Order.{live_targets}
use hyprscheme.Layout.Geometry.{Doubles, World, Provider, Algorithm}
use hyprscheme.Layout.Pass.{call_layout, dispatch_recalculate, after_call, recalculate}

-- The passes of a layout one after the other, each in the world that it finds, with the notifications
-- that they post.
pub passes : Doubles → List World → Algorithm → Algorithm × List Text
passes fpu [] s = (s, [])
passes fpu (o ∷ os) s =
    let done = recalculate fpu o s in
    let rest = passes fpu os done.algorithm in (rest.0, done.notices ++ rest.1)

abbrev pub reported : Algorithm → ℕ
reported s = if s.provider.did_error then 1 else 0

length-after_call :
    (fpu : Doubles) (o : World) (p : Provider) (stands : Bool)
    → length (after_call fpu o p stands).1 + (if p.did_error then 1 else 0)
      ≡ (if (after_call fpu o p stands).0.did_error then 1 else 0)
unfolding after_call
length-after_call fpu o p stands = ground arith

length-recalculate :
    (fpu : Doubles) (o : World) (s : Algorithm)
    → length (recalculate fpu o s).notices + reported s ≡ reported (recalculate fpu o s).algorithm
unfolding recalculate
length-recalculate fpu o s = elim (Bool-cases (is_empty (live_targets o.alive s.targets))) [
  | inl e ↦ rw (e, recalculate) (omega arith)
  | inr e ↦
      rw (e, recalculate)
        (length-after_call fpu o s.provider
          (call_layout fpu o s.provider (live_targets o.alive s.targets)).1)
]

-- Over any sequence of passes a layout posts one error notification if its error flag goes up on the
-- way, and none if the flag was up before or stays down: never a second one.
pub passes-reported_once :
    (fpu : Doubles) (os : List World) (s : Algorithm)
    → (length (passes fpu os s).1 + reported s ≡ reported (passes fpu os s).0)
      × (length (passes fpu os s).1 ≤ 1)
unfolding passes
passes-reported_once fpu os s = let e = count_reports os s in (e, ground arith)
  where
    count_reports :
        (os : List World) (s : Algorithm)
        → length (passes fpu os s).1 + reported s ≡ reported (passes fpu os s).0
    count_reports [] s = omega arith
    count_reports (o ∷ os) s = omega (
      arith,
      length-append (recalculate fpu o s).notices (passes fpu os (recalculate fpu o s).algorithm).1,
      length-recalculate fpu o s,
      count_reports os (recalculate fpu o s).algorithm,
    )

active-after_call :
    (fpu : Doubles) (o : World) (p : Provider) (stands : Bool)
    → (after_call fpu o p stands).0.active ≡ p.active
unfolding after_call
active-after_call fpu o p stands = ground arith

-- A layout that has failed before is tried again like any other: what a pass sets depends neither on
-- the error flag nor, through the provider that it leaves, on earlier failures.
pub recalculate-retries :
    (fpu : Doubles) (o : World) (s : Algorithm) (b : Bool)
    → let again = record s { provider = record (s.provider) { did_error = b } } in
      ((recalculate fpu o again).placed ≡ (recalculate fpu o s).placed)
      × ((recalculate fpu o s).algorithm.provider.active ≡ s.provider.active)
unfolding recalculate call_layout dispatch_recalculate
recalculate-retries fpu o s b = elim (Bool-cases (is_empty (live_targets o.alive s.targets))) [
  | inl e ↦ rw (e, recalculate) (refl, refl)
  | inr e ↦
      rw (e, recalculate)
        (
          refl,
          active-after_call fpu o s.provider
              (call_layout fpu o s.provider (live_targets o.alive s.targets)).1,
        )
]
