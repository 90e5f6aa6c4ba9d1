-- ===== src/Bind/Ownership.antt =====
-- Which binds of the compositor's registry cpp/Bind.cpp and cpp/Host.cpp touch.
use hyprscheme.Base.{
  ℕ, suc, ◌==◌, ◌≡◌, ◌<◌, refl, ap, ◌∙◌, Bool, true, false, not, Option, none, some, List, [], ◌∷◌,
  ◌++◌, Text, text_eq, text_eq_refl, ==_refl, keep, All, IsDistinct, member, arith, Bool-cases,
  Option-cases, inl, inr,
}
use hyprscheme.Scm.{elements}
use hyprscheme.Bind.{
  Bind, Binds, Wanted, done, bind_tag, new_bind, scheme_bind, tagged, find_scheme_bind, remove_bind,
  scheme_unbind_rec, is_ours, remove_each, shutdown_binds, device_names,
}

abbrev pub ids : List Bind → List ℕ
ids [] = []
ids (b ∷ bs) = b.id ∷ ids bs

remove_last :
    (bs : List Bind) (b : Bind) → All (λ c. c.id < b.id) bs → remove_bind b.id (bs ++ b ∷ []) ≡ bs
unfolding remove_bind
remove_last [] b h = ground arith
remove_last (c ∷ bs) b h = ground (arith, remove_last bs b h.1)

tagged-append :
    (tag : Text) (b : Bind) (bs : List Bind)
    → tagged tag bs ≡ none
    → text_eq b.argument tag ≡ true
    → tagged tag (bs ++ b ∷ []) ≡ some b
unfolding tagged
tagged-append tag b [] h e = rw e refl
tagged-append tag b (c ∷ bs) h e = ground (arith, tagged-append tag b bs)

module _ (digits : ℕ → Text) (refusal : Bind → Option Text) where
  bound :
      (r : ℕ) (w : Wanted) (s : Binds)
      → (scheme_bind digits refusal true r w s).1 ≡ done
      → (names : List Text) × ((scheme_bind digits refusal true r w s).0 ≡ record s {
        registry = s.registry ++ new_bind digits s.next r w names ∷ [];
        next = suc s.next;
      })
  unfolding scheme_bind
  bound r w s h = elim (Option-cases (device_names (elements w.devices))) [
    | inl e ↦ absurd (ground arith)
    | inr (names, e) ↦ elim (Option-cases (refusal (new_bind digits s.next r w names))) [
      | inr (why, f) ↦ absurd (ground arith)
      | inl f ↦ (names, rw (e, f, scheme_bind) refl)
    ]
  ]

  unbound :
      (r : ℕ) (b : Bind) (s : Binds)
      → tagged (bind_tag digits r) s.registry ≡ none
      → b.argument ≡ bind_tag digits r
      → All (λ c. c.id < b.id) s.registry
      → scheme_unbind_rec digits true r
          (record s { registry = s.registry ++ b ∷ []; next = suc s.next })
        ≡ (record s { next = suc s.next }, done)
  unfolding scheme_unbind_rec find_scheme_bind
  unbound r b s fresh t below =
      let e : text_eq b.argument (bind_tag digits r) ≡ true =
        rw t (text_eq_refl (bind_tag digits r)) in
      rw
        (
          tagged-append (bind_tag digits r) b s.registry fresh e,
          remove_last s.registry b below,
          find_scheme_bind,
          scheme_unbind_rec,
        )
        refl

  -- A bind that is accepted for a record without a bind is found and removed again through its record,
  -- and the registry is then what it was before; the numbers of the registry's binds are below the next.
  pub scheme_bind-scheme_unbind_rec :
      (r : ℕ) (w : Wanted) (s : Binds)
      → (scheme_bind digits refusal true r w s).1 ≡ done
      → tagged (bind_tag digits r) s.registry ≡ none
      → All (λ b. b.id < s.next) s.registry
      → let after = scheme_unbind_rec digits true r (scheme_bind digits refusal true r w s).0 in
        (after.0.registry ≡ s.registry) × (after.1 ≡ done)
  scheme_bind-scheme_unbind_rec r w s ok fresh below =
      let (names, e) = bound r w s ok in
      let gone = unbound r (new_bind digits s.next r w names) s fresh refl below in
      rw (e, gone) (refl, refl)

ids-keep-false :
    (p : Bind → Bool) (id : ℕ) (bs : List Bind)
    → member id (ids bs) ≡ false
    → member id (ids (keep p bs)) ≡ false
ids-keep-false p id [] h = refl
ids-keep-false p id (b ∷ bs) h = ground (arith, ids-keep-false p id bs)

remove_each-keep :
    (ours bs : List Bind) → remove_each ours bs ≡ keep (λ b. not (member b.id (ids ours))) bs
unfolding remove_each remove_bind
remove_each-keep [] bs = kept bs
  where
    kept : (bs : List Bind) → bs ≡ keep (λ b. true) bs
    kept [] = refl
    kept (b ∷ bs) = ap (◌∷◌ b) (kept bs)
remove_each-keep (o ∷ ours) bs =
    remove_each-keep ours (keep (λ b. not (b.id == o.id)) bs) ∙ twice bs
  where
    twice :
        (bs : List Bind)
        → keep (λ b. not (member b.id (ids ours))) (keep (λ b. not (b.id == o.id)) bs)
          ≡ keep (λ b. not (member b.id (ids (o ∷ ours)))) bs
    twice [] = refl
    twice (b ∷ bs) = ground (arith, twice bs)

keep-drop :
    (i : ℕ) (us : List ℕ) (bs : List Bind)
    → member i (ids bs) ≡ false
    → keep (λ b. not (member b.id (i ∷ us))) bs ≡ keep (λ b. not (member b.id us)) bs
keep-drop i us [] h = refl
keep-drop i us (b ∷ bs) h = ground (arith, keep-drop i us bs)

keep-ids :
    (bs : List Bind)
    → IsDistinct (ids bs)
    → keep (λ b. not (member b.id (ids (keep is_ours bs)))) bs ≡ keep (λ b. not (is_ours b)) bs
keep-ids [] d = refl
keep-ids (b ∷ bs) d = elim (Bool-cases (is_ours b)) [
  | inl e ↦
      let taken : keep is_ours (b ∷ bs) ≡ b ∷ keep is_ours bs = rw (e, keep) refl in
      ap (λ us. keep (λ x. not (member x.id (ids us))) (b ∷ bs)) taken
      ∙ rw (e, ==_refl b.id) (keep-drop b.id (ids (keep is_ours bs)) bs d.0 ∙ keep-ids bs d.1)
  | inr e ↦
      let left : keep is_ours (b ∷ bs) ≡ keep is_ours bs = rw (e, keep) refl in
      ap (λ us. keep (λ x. not (member x.id (ids us))) (b ∷ bs)) left
      ∙ rw (e, ids-keep-false is_ours b.id bs d.0) (ap (◌∷◌ b) (keep-ids bs d.1))
]

-- Shutting down removes exactly the binds whose argument carries our tag and leaves every other one, in
-- the order of the registry; the binds of the registry have different numbers.
pub shutdown_binds-keep :
    (s : Binds)
    → IsDistinct (ids s.registry)
    → (shutdown_binds s).registry ≡ keep (λ b. not (is_ours b)) s.registry
unfolding shutdown_binds
shutdown_binds-keep s d =
    remove_each-keep (keep is_ours s.registry) s.registry ∙ keep-ids s.registry d
