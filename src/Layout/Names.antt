-- ===== src/Layout/Names.antt =====
-- The names under which layouts are registered.
use hyprscheme.Base.{
  ◌+◌, ◌*◌, ◌≡◌, refl, ap, Bool, true, false, not, ◌||◌, List, [], ◌∷◌, ◌++◌, Text, is_empty,
  has_prefix, has_prefix-append, text_eq, length, length-append, All, All-append, arith, Bool-cases,
  inl, inr, append-nil, sym, ◌∙◌,
}
use hyprscheme.Scm.{Scm}
use hyprscheme.Layout.Geometry.{Provider}
use hyprscheme.Layout.Registry.{
  Registry, Request, scheme_prefix, normalize_name, has_layout, layout_add, clear, deactivate,
  unregister_all, refresh_layouts,
}

abbrev pub HasDistinctNames : List Provider → Type 0
HasDistinctNames [] = Unit
HasDistinctNames (l ∷ ls) = (has_layout l.name ls ≡ false) × HasDistinctNames ls

-- No name twice, each with the prefix, each layout active, and two listeners for each.
pub record IsWellFormed (r : Registry) : Type 0 where
  pub distinct : HasDistinctNames r.layouts
  pub prefixed : All (λ l. has_prefix scheme_prefix l.name ≡ true) r.layouts
  pub all_active : All (λ (l : Provider). l.active ≡ true) r.layouts
  pub paired : r.listeners ≡ 2 * length r.layouts

normalize_name-prefix : (name : Text) → has_prefix scheme_prefix (normalize_name name) ≡ true
unfolding normalize_name
normalize_name-prefix name = ground (arith, has_prefix-append scheme_prefix name)

has_layout-append :
    (full : Text) (ls : List Provider) (p : Provider)
    → has_layout full (ls ++ p ∷ []) ≡ (has_layout full ls || text_eq p.name full)
unfolding has_layout
has_layout-append full [] p = ground arith
has_layout-append full (l ∷ ls) p = ground (arith, has_layout-append full ls p)

text_eq_comm : (s t : Text) → text_eq s t ≡ text_eq t s
unfolding text_eq
text_eq_comm [] [] = refl
text_eq_comm [] (b ∷ t) = refl
text_eq_comm (a ∷ s) [] = refl
text_eq_comm (a ∷ s) (b ∷ t) = ground (arith, text_eq_comm s t)

append-HasDistinctNames :
    (ls : List Provider) (p : Provider)
    → HasDistinctNames ls
    → has_layout p.name ls ≡ false
    → HasDistinctNames (ls ++ p ∷ [])
unfolding has_layout
append-HasDistinctNames [] p d h = (refl, tt)
append-HasDistinctNames (l ∷ ls) p d h =
    ground (
      arith,
      append-HasDistinctNames ls p,
      has_layout-append l.name ls p,
      text_eq_comm p.name l.name,
    )

append-IsWellFormed :
    (r : Registry) (p : Provider) (more : List Request)
    → IsWellFormed r
    → has_layout p.name r.layouts ≡ false
    → has_prefix scheme_prefix p.name ≡ true
    → p.active ≡ true
    → IsWellFormed
        (record { layouts = r.layouts ++ p ∷ []; listeners = r.listeners + 2; requests = more })
append-IsWellFormed r p more v fresh pre act = record {
  distinct = append-HasDistinctNames r.layouts p v.distinct fresh;
  prefixed = All-append _ r.layouts (p ∷ []) v.prefixed (pre, tt);
  all_active = All-append _ r.layouts (p ∷ []) v.all_active (act, tt);
  paired = omega (arith, v.paired, length-append r.layouts (p ∷ []));
}

-- Registering a layout, accepted or not, keeps the registry well-formed: no name stands twice, each
-- has the prefix, each layout is active, and each has its two listeners.
pub layout_add-IsWellFormed :
    (up : Bool) (register : Text → Bool) (name : Text) (spec : Scm) (r : Registry)
    → IsWellFormed r
    → IsWellFormed (layout_add up register name spec r).0
unfolding layout_add
layout_add-IsWellFormed up register name spec r v = elim (Bool-cases (not up || is_empty name)) [
  | inl e ↦ rw (e, layout_add) v
  | inr e ↦ elim (Bool-cases (has_layout (normalize_name name) r.layouts)) [
    | inl e₂ ↦ rw (e, e₂, layout_add) v
    | inr e₂ ↦ elim (Bool-cases (register (normalize_name name))) [
      | inl e₃ ↦
          rw (e, e₂, e₃, layout_add)
            (append-IsWellFormed r _ _ v e₂ (normalize_name-prefix name) refl)
      | inr e₃ ↦ rw (e, e₂, e₃, layout_add) v
    ]
  ]
]

-- The names that a request unregisters.
abbrev pub unregistered : List Request → List Text
unregistered [] = []
unregistered (Request.unregister_algo n ∷ rs) = n ∷ unregistered rs
unregistered (Request.refresh_layouts ∷ rs) = unregistered rs

abbrev pub names_of : List Provider → List Text
names_of [] = []
names_of (l ∷ ls) = l.name ∷ names_of ls

unregistered-append :
    (qs rs : List Request) → unregistered (qs ++ rs) ≡ unregistered qs ++ unregistered rs
unregistered-append [] rs = refl
unregistered-append (Request.unregister_algo n ∷ qs) rs = ap (◌∷◌ n) (unregistered-append qs rs)
unregistered-append (Request.refresh_layouts ∷ qs) rs = unregistered-append qs rs

unregistered-unregister_all :
    (ls : List Provider) (rs : List Request)
    → unregistered (unregister_all ls ++ rs) ≡ names_of ls ++ unregistered rs
unfolding unregister_all
unregistered-unregister_all [] rs = refl
unregistered-unregister_all (l ∷ ls) rs = ap (◌∷◌ l.name) (unregistered-unregister_all ls rs)

deactivate-All : (ls : List Provider) → All (λ (l : Provider). l.active ≡ false) (deactivate ls)
unfolding deactivate
deactivate-All [] = tt
deactivate-All (l ∷ ls) = (refl, deactivate-All ls)

names_of-deactivate : (ls : List Provider) → names_of (deactivate ls) ≡ names_of ls
unfolding deactivate
names_of-deactivate [] = refl
names_of-deactivate (l ∷ ls) = ap (◌∷◌ l.name) (names_of-deactivate ls)

unregistered-clear :
    (qs : List Request) (ls : List Provider)
    → unregistered (qs ++ (unregister_all ls ++ refresh_layouts ∷ []))
      ≡ unregistered qs ++ names_of ls
unregistered-clear qs ls =
    unregistered-append qs _
    ∙ ap (λ ns. unregistered qs ++ ns)
        (unregistered-unregister_all ls (refresh_layouts ∷ []) ∙ append-nil (names_of ls))

-- The reload boundary leaves no layout registered and none of its listeners, asks the compositor to
-- unregister exactly the names that were registered, in their order, and leaves inactive every
-- provider that a running layout still shares; the registry had its two listeners for each layout.
pub clear_empties :
    (r : Registry)
    → IsWellFormed r
    → ((clear r).0.layouts ≡ [])
      × ((clear r).0.listeners ≡ 0)
      × (unregistered (clear r).0.requests ≡ unregistered r.requests ++ names_of r.layouts)
      × (names_of (clear r).1 ≡ names_of r.layouts)
      × All (λ (l : Provider). l.active ≡ false) (clear r).1
unfolding clear
clear_empties r v = cleared r.layouts refl
  where
    cleared :
        (ls : List Provider)
        → r.layouts ≡ ls
        → ((clear r).0.layouts ≡ [])
          × ((clear r).0.listeners ≡ 0)
          × (unregistered (clear r).0.requests ≡ unregistered r.requests ++ names_of r.layouts)
          × (names_of (clear r).1 ≡ names_of r.layouts)
          × All (λ (l : Provider). l.active ≡ false) (clear r).1
    cleared [] e =
        rw (e, clear)
          (refl, ground (arith, v.paired), sym (append-nil (unregistered r.requests)), refl, tt)
    cleared (l ∷ ls) e =
        rw (e, clear)
          (
            refl,
            refl,
            unregistered-clear r.requests (l ∷ ls),
            names_of-deactivate (l ∷ ls),
            deactivate-All (l ∷ ls),
          )
