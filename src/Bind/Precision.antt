-- ===== src/Bind/Precision.antt =====
-- Unbinding through a record touches no other bind: cpp/Bind.cpp.
use hyprscheme.Base.{
  ℕ, ◌≡◌, refl, ap, Bool, true, false, not, some, List, [], ◌∷◌, Text, text_eq, keep, IsDistinct,
  member, arith, Bool-cases, Option-cases, inl, inr, ==_refl,
}
use hyprscheme.Bind.{
  Bind, Binds, bind_tag, tagged, find_scheme_bind, remove_bind, scheme_unbind_rec,
}
use hyprscheme.Bind.Ownership.{ids}

-- The binds that are not tagged as a record's.
abbrev pub others : Text → List Bind → List Bind
others tag bs = keep (λ b. not (text_eq b.argument tag)) bs

member-tagged :
    (tag : Text) (bs : List Bind) {b : Bind} → tagged tag bs ≡ some b → member b.id (ids bs) ≡ true
unfolding tagged
member-tagged tag [] h = absurd (ground arith)
member-tagged tag (c ∷ bs) {b} h = elim (Bool-cases (text_eq c.argument tag)) [
  | inl e ↦ let same : c ≡ b = ground arith in rw⁻¹ same (ground (arith, ==_refl c.id))
  | inr e ↦
      let rest : tagged tag bs ≡ some b = ground arith in
      ground (arith, member-tagged tag bs {b = b} rest)
]

remove-absent : (i : ℕ) (bs : List Bind) → member i (ids bs) ≡ false → remove_bind i bs ≡ bs
unfolding remove_bind
remove-absent i [] h = refl
remove-absent i (c ∷ bs) h = ground (arith, remove-absent i bs)

others-remove :
    (tag : Text) (bs : List Bind) {b : Bind}
    → tagged tag bs ≡ some b
    → IsDistinct (ids bs)
    → others tag (remove_bind b.id bs) ≡ others tag bs
unfolding tagged remove_bind
others-remove tag [] h d = refl
others-remove tag (c ∷ bs) {b} h d = elim (Bool-cases (text_eq c.argument tag)) [
  | inl e ↦
      let same : c ≡ b = ground arith in
      let q : c.id ≡ b.id = ap (λ (x : Bind). x.id) same in
      let absent : member b.id (ids bs) ≡ false = rw⁻¹ q d.0 in
      ground (arith, remove-absent b.id bs absent, q)
  | inr e ↦
      let rest : tagged tag bs ≡ some b = ground arith in
      let inside = member-tagged tag bs {b = b} rest in
      ground (arith, others-remove tag bs {b = b} rest d.1, d.0, inside)
]

-- Unbinding a record leaves every bind that is not tagged as the record's, in the order of the registry,
-- whether the record has a bind or not; the binds of the registry have different numbers.
pub scheme_unbind_rec-others :
    (digits : ℕ → Text) (up : Bool) (r : ℕ) (s : Binds)
    → IsDistinct (ids s.registry)
    → others (bind_tag digits r) (scheme_unbind_rec digits up r s).0.registry
      ≡ others (bind_tag digits r) s.registry
unfolding scheme_unbind_rec find_scheme_bind
scheme_unbind_rec-others digits false r s d = refl
scheme_unbind_rec-others digits true r s d =
    elim (Option-cases (tagged (bind_tag digits r) s.registry)) [
      | inl e ↦ rw (e, find_scheme_bind, scheme_unbind_rec) refl
      | inr (b, e) ↦
          rw (e, find_scheme_bind, scheme_unbind_rec)
            (others-remove (bind_tag digits r) s.registry {b = b} e d)
    ]
