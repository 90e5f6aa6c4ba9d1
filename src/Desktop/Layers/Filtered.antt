-- ===== src/Desktop/Layers/Filtered.antt =====
-- What the monitor filter of `hlLayers` in cpp/Layer.cpp lets through.
use hyprscheme.Base.{
  ℕ, ◌≡◌, refl, ap, ap₂, sym, ◌∙◌, Bool, true, false, Option, none, some, List, [], ◌∷◌, ◌++◌,
  append-nil, Text, find, keys, member, IsDistinct, text_eq, keep, Bool-cases, Option-cases, inl,
  inr, arith,
}
use hyprscheme.Scm.{Scm, Family, family_eq, is_handle}
use hyprscheme.Desktop.{
  Outcome, answers, Monitor, Layer, Desktop, monitor_handle, alive, lock_handle,
}
use hyprscheme.Desktop.Windows.{list_or_false}
use hyprscheme.Desktop.Layers.{
  filter_text, passes_filter, on_level, on_levels, on_monitors, layers_of,
}

-- The living layers of one level, of a monitor's levels, and of all monitors.
unfoldable pub living_in : List (ℕ × Layer) → List (Option ℕ) → List (ℕ × Layer)
living_in ls [] = []
living_in ls (none ∷ l) = living_in ls l
living_in ls (some a ∷ l) =
    let rest = living_in ls l in elim (find a ls) [ none ↦ rest | some x ↦ (a, x) ∷ rest ]

unfoldable pub living_on : List (ℕ × Layer) → List (List (Option ℕ)) → List (ℕ × Layer)
unfolding living_in
living_on ls [] = []
living_on ls (l ∷ levels) = living_in ls l ++ living_on ls levels

abbrev pub living_everywhere : List (ℕ × Layer) → List (ℕ × Monitor) → List (ℕ × Layer)
living_everywhere ls [] = []
living_everywhere ls ((a, m) ∷ ms) = living_on ls m.layer_levels ++ living_everywhere ls ms

-- Whether a layer is in a namespace; the empty text asks for none.
abbrev pub in_namespace : Text → Layer → Bool
in_namespace [] x = true
in_namespace (c ∷ t) x = text_eq x.namespace (c ∷ t)

abbrev pub handles_of_layers : List (ℕ × Layer) → List Scm
handles_of_layers [] = []
handles_of_layers ((a, x) ∷ ps) = Scm.handle Family.layer a ∷ handles_of_layers ps

-- The handles of those that are in a namespace.
abbrev pub picked : Text → List (ℕ × Layer) → List Scm
picked ns ps = handles_of_layers (keep (λ (p : ℕ × Layer). in_namespace ns p.1) ps)

-- What is listed for the address of a monitor.
abbrev pub one_or_all : Option Monitor → Text → Desktop → List Scm
one_or_all none ns d = picked ns (living_everywhere d.layers d.monitors)
one_or_all (some m) ns d = picked ns (living_on d.layers m.layer_levels)

filter-namespace : (ns : Text) (x : Layer) → passes_filter ns x ≡ in_namespace ns x
filter-namespace [] x = refl
filter-namespace (c ∷ t) x = refl

picked-append :
    (ns : Text) (ps qs : List (ℕ × Layer)) → picked ns (ps ++ qs) ≡ picked ns ps ++ picked ns qs
picked-append ns [] qs = refl
picked-append ns ((a, x) ∷ ps) qs = elim (Bool-cases (in_namespace ns x)) [
  | inl e ↦ rw e (ap (◌∷◌ (Scm.handle Family.layer a)) (picked-append ns ps qs))
  | inr e ↦ rw e (picked-append ns ps qs)
]

on_level-picked :
    (ns : Text) (ls : List (ℕ × Layer)) (l : List (Option ℕ))
    → on_level ns ls l ≡ picked ns (living_in ls l)
unfolding on_level alive living_in
on_level-picked ns ls [] = refl
on_level-picked ns ls (none ∷ l) = on_level-picked ns ls l
on_level-picked ns ls (some a ∷ l) = elim (Option-cases (find a ls)) [
  | inl e ↦ rw (e, on_level, living_in) (on_level-picked ns ls l)
  | inr (x, e) ↦ elim (Bool-cases (in_namespace ns x)) [
    | inl f ↦
        rw (e, filter-namespace ns x, f, on_level, living_in)
          (ap (◌∷◌ (Scm.handle Family.layer a)) (on_level-picked ns ls l))
    | inr f ↦ rw (e, filter-namespace ns x, f, on_level, living_in) (on_level-picked ns ls l)
  ]
]

on_levels-picked :
    (ns : Text) (ls : List (ℕ × Layer)) (levels : List (List (Option ℕ)))
    → on_levels ns ls levels ≡ picked ns (living_on ls levels)
unfolding on_levels living_on
on_levels-picked ns ls [] = refl
on_levels-picked ns ls (l ∷ levels) =
    ap₂ ◌++◌ (on_level-picked ns ls l) (on_levels-picked ns ls levels)
    ∙ sym (picked-append ns (living_in ls l) (living_on ls levels))

on_monitors-none :
    (ns : Text) (ls : List (ℕ × Layer)) (ms : List (ℕ × Monitor))
    → on_monitors none ns ls ms ≡ picked ns (living_everywhere ls ms)
unfolding on_monitors
on_monitors-none ns ls [] = refl
on_monitors-none ns ls ((a, m) ∷ ms) =
    ap₂ ◌++◌ (on_levels-picked ns ls m.layer_levels) (on_monitors-none ns ls ms)
    ∙ sym (picked-append ns (living_on ls m.layer_levels) (living_everywhere ls ms))

on_monitors-absent :
    (a : ℕ) (m : Monitor) (ns : Text) (ls : List (ℕ × Layer)) (ms : List (ℕ × Monitor))
    → member a (keys ms) ≡ false
    → on_monitors (some (a, m)) ns ls ms ≡ []
unfolding on_monitors member
on_monitors-absent a m ns ls [] e = refl
on_monitors-absent a m ns ls ((b, n) ∷ ms) e = ground (arith, on_monitors-absent a m ns ls ms)

on_monitors-some :
    (a : ℕ) (m : Monitor) (ns : Text) (ls : List (ℕ × Layer)) (ms : List (ℕ × Monitor))
    → find a ms ≡ some m
    → IsDistinct (keys ms)
    → on_monitors (some (a, m)) ns ls ms ≡ on_levels ns ls m.layer_levels
unfolding on_monitors find member
on_monitors-some a m ns ls [] f v = ground arith
on_monitors-some a m ns ls ((b, n) ∷ ms) f (fresh, v) = ground (
  arith,
  on_monitors-some a m ns ls ms,
  v,
  on_monitors-absent a m ns ls ms,
  append-nil (on_levels ns ls m.layer_levels),
)

alive-none : {A : Type 0} (a : ℕ) (ms : List (ℕ × A)) → find a ms ≡ none → alive a ms ≡ none
unfolding alive
alive-none a ms f = rw (f, alive) refl

alive-some :
    {A : Type 0} (a : ℕ) (m : A) (ms : List (ℕ × A)) → find a ms ≡ some m → alive a ms ≡ some (a, m)
unfolding alive
alive-some a m ms f = rw (f, alive) refl

-- The layers listed for a monitor's handle, the interpreter up: those of that monitor, or, when the
-- monitor is gone, those of every monitor; in both cases the living ones, in the order of the monitors
-- and of their levels, and, when the namespace is a text that is not empty, only those whose namespace is
-- that text; #f when there is none. No two monitors share an address.
pub layers_of-one_or_all :
    (a : ℕ) (ns : Scm) (d : Desktop)
    → IsDistinct (keys d.monitors)
    → layers_of true (monitor_handle a) ns d
      ≡ answers (list_or_false (one_or_all (find a d.monitors) (filter_text ns) d))
unfolding layers_of lock_handle alive is_handle family_eq
layers_of-one_or_all a ns d v = elim (Option-cases (find a d.monitors)) [
  | inl e ↦
      ap listed (alive-none a d.monitors e)
      ∙ ap (λ l. answers (list_or_false l)) (on_monitors-none (filter_text ns) d.layers d.monitors)
      ∙ sym (ap wanted e)
  | inr (m, e) ↦
      ap listed (alive-some a m d.monitors e)
      ∙ ap (λ l. answers (list_or_false l))
          (on_monitors-some a m (filter_text ns) d.layers d.monitors e v
            ∙ on_levels-picked (filter_text ns) d.layers m.layer_levels)
      ∙ sym (ap wanted e)
]
  where
    listed : Option (ℕ × Monitor) → Outcome Scm
    listed f = answers (list_or_false (on_monitors f (filter_text ns) d.layers d.monitors))

    wanted : Option Monitor → Outcome Scm
    wanted o = answers (list_or_false (one_or_all o (filter_text ns) d))
