-- ===== src/Rule/Sessions.antt =====
-- What a run of the rule builders of cpp/Rule.cpp leaves behind.
use hyprscheme.Base.{
  ℕ, suc, ◌≡◌, refl, ap, sym, ◌∙◌, Bool, true, false, Option, none, some, List, [], ◌∷◌, ◌++◌, Text,
  find, is_empty, Option-cases, inl, inr, find-emplace, ==_refl, text_eq_refl, append-nil,
  append_assoc,
}
use hyprscheme.Rule.Store.{Rule, Book, Rules, done, hyprland_name, rule_named, modify}
use hyprscheme.Rule.Builder.{
  known, begin_rule, window_rule_begin, rule_match, window_rule_commit, with_enabled, with_match,
}
use hyprscheme.Rule.Handles.{find-modify}

-- The matches that are told to the builder, one after the other.
abbrev pub match_all : (Text → Option ℕ) → List (Text × Text) → Rules → Rules
match_all match_prop [] s = s
match_all match_prop ((prop, value) ∷ ms) s =
    match_all match_prop ms (rule_match match_prop true prop value s).0

-- The matches whose property is known, with the property's number.
abbrev pub resolved : (Text → Option ℕ) → List (Text × Text) → List (ℕ × Text)
resolved match_prop [] = []
resolved match_prop ((prop, value) ∷ ms) = elim (match_prop (hyprland_name prop)) [
  | none ↦ resolved match_prop ms
  | some p ↦ (p, value) ∷ resolved match_prop ms
]

abbrev pub with_matches : List (ℕ × Text) → Rule → Rule
with_matches ms r = record r { matches = r.matches ++ ms }

module _ (match_prop : Text → Option ℕ) (a : ℕ) where
  rule_match-store :
      (prop value : Text) (s : Rules) {w : Rule}
      → s.windows.current ≡ some a
      → find a s.store ≡ some w
      → ((rule_match match_prop true prop value s).0.windows ≡ s.windows)
        × ((rule_match match_prop true prop value s).0.index ≡ s.index)
        × (find a (rule_match match_prop true prop value s).0.store
            ≡ some (with_matches (resolved match_prop ((prop, value) ∷ [])) w))
  unfolding rule_match
  rule_match-store prop value s {w} hw hf = elim (Option-cases (match_prop (hyprland_name prop))) [
    | inl e ↦
        rw (e, resolved)
          (
            refl,
            refl,
            hf ∙ ap some (ap (λ ms. record w { matches = ms }) (sym (append-nil w.matches))),
          )
    | inr (p, e) ↦
        rw (e, hw, resolved)
          (
            ap (λ c. record (s.windows) { current = c }) hw,
            refl,
            rw (find-modify a a (with_match p value) s.store {r = w} hf, ==_refl a) refl,
          )
  ]

  match_all-store :
      (ms : List (Text × Text)) (s : Rules) {w : Rule}
      → s.windows.current ≡ some a
      → find a s.store ≡ some w
      → ((match_all match_prop ms s).windows ≡ s.windows)
        × ((match_all match_prop ms s).index ≡ s.index)
        × (find a (match_all match_prop ms s).store
            ≡ some (with_matches (resolved match_prop ms) w))
  match_all-store [] s {w} hw hf =
      (refl, refl, hf ∙ ap some (ap (λ ms. record w { matches = ms }) (sym (append-nil w.matches))))
  match_all-store ((prop, value) ∷ ms) s {w} hw hf =
      let (same, index, told) = rule_match-store prop value s {w = w} hw hf in
      let next = (rule_match match_prop true prop value s).0 in
      let (same', index', told') =
        match_all-store ms next {w = with_matches (resolved match_prop ((prop, value) ∷ [])) w}
          (rw same hw) told in
      (same' ∙ same, index' ∙ index, told' ∙ joined)
    where
      joined :
          some (
            with_matches
              (resolved match_prop ms)
              (with_matches (resolved match_prop ((prop, value) ∷ [])) w))
          ≡ some (with_matches (resolved match_prop ((prop, value) ∷ ms)) w)
      joined = elim (Option-cases (match_prop (hyprland_name prop))) [
        | inl e ↦
            rw (e, resolved)
              (ap some (
                ap (λ ns. record w { matches = ns ++ resolved match_prop ms })
                  (append-nil w.matches)))
        | inr (p, e) ↦
            rw (e, resolved)
              (ap some (
                ap (λ ns. record w { matches = ns })
                  (append_assoc w.matches ((p, value) ∷ []) (resolved match_prop ms))))
      ]

commit-index :
    (a r : ℕ) (s : Rules)
    → s.windows.current ≡ some a
    → find r s.index ≡ none
    → ((window_rule_commit true r s).1 ≡ done)
      × (find r (window_rule_commit true r s).0.index ≡ some a)
      × ((window_rule_commit true r s).0.windows.current ≡ none)
      × ((window_rule_commit true r s).0.store ≡ s.store)
unfolding window_rule_commit
commit-index a r s hw hi =
    rw hw (refl, rw (find-emplace r r a s.index, hi, ==_refl r) refl, refl, refl)

-- Building a window rule: the matches that are told while it is open, and no others, are added to it in
-- their order, one with an unknown property being left out; then the commit gives the rule to the
-- record and closes the builder. A window rule is open and the record is new.
pub match_all-commit :
    (match_prop : Text → Option ℕ) (a r : ℕ) (ms : List (Text × Text)) (s : Rules) {w : Rule}
    → s.windows.current ≡ some a
    → find a s.store ≡ some w
    → find r s.index ≡ none
    → let built = window_rule_commit true r (match_all match_prop ms s) in
      (built.1 ≡ done)
      × (find r built.0.index ≡ some a)
      × (built.0.windows.current ≡ none)
      × (find a built.0.store ≡ some (with_matches (resolved match_prop ms) w))
match_all-commit match_prop a r ms s {w} hw hf hr =
    let (same, index, told) = match_all-store match_prop a ms s {w = w} hw hf in
    let (ok, indexed, closed, store) =
      commit-index a r (match_all match_prop ms s) (rw same hw) (rw index hr) in
    (ok, indexed, closed, rw store told)

find_head : (a : ℕ) (r : Rule) (m : List (ℕ × Rule)) → find a ((a, r) ∷ m) ≡ some r
unfolding find
find_head a r m = rw (==_refl a) refl

begin_rule_new :
    (n : Text) (on : Bool) (b : Book) (s : Rules)
    → is_empty n ≡ false
    → known n b ≡ none
    → begin_rule n on b s ≡ (
      record { named = (n, s.next) ∷ b.named; anonymous = b.anonymous; current = some s.next },
      record s {
        store = (s.next, record { name = n; enabled = on; matches = []; effects = [] }) ∷ s.store;
        next = suc s.next;
        engine = s.engine ++ s.next ∷ [];
      },
    )
unfolding begin_rule
begin_rule_new n on b s ne new = rw (new, ne, begin_rule) refl

begin_rule-known :
    (n : Text) (on : Bool) (b : Book) (s : Rules) (a : ℕ)
    → known n b ≡ some a
    → begin_rule n on b s
      ≡ (record b { current = some a }, record s { store = modify a (with_enabled on) s.store })
unfolding begin_rule
begin_rule-known n on b s a e = rw (e, begin_rule) refl

known_head :
    (n : Text) (a : ℕ) (b : Book) (m : List (Text × ℕ))
    → is_empty n ≡ false
    → b.named ≡ (n, a) ∷ m
    → known n b ≡ some a
unfolding known rule_named
known_head n a b m ne h = rw (ne, h, rule_named, text_eq_refl n) refl

-- Opening a window rule under a name that is taken opens the same rule again, registers none, and
-- leaves what it matches alone; only its enabling is that of the second call. The name is not empty.
pub window_rule_begin-again :
    (n : Text) (on on' : Bool) (s : Rules)
    → is_empty n ≡ false
    → known n s.windows ≡ none
    → let once = (window_rule_begin true n on s).0 in
      let twice = (window_rule_begin true n on' once).0 in
      (once.engine ≡ s.engine ++ s.next ∷ [])
      × (twice.windows.current ≡ once.windows.current)
      × (twice.engine ≡ once.engine)
      × (find s.next twice.store
          ≡ some (record { name = n; enabled = on'; matches = []; effects = [] }))
unfolding window_rule_begin
window_rule_begin-again n on on' s ne new =
    let b = record (s.windows) { named = (n, s.next) ∷ s.windows.named; current = some s.next } in
    let t = record s {
      windows = b;
      store = (s.next, fresh on) ∷ s.store;
      next = suc s.next;
      engine = s.engine ++ s.next ∷ [];
    } in
    rw (begin_rule_new n on s.windows s ne new) (
      rw (begin_rule-known n on' b t s.next (known_head n s.next b s.windows.named ne refl))
        (refl, refl, refl, again))
  where
    fresh : Bool → Rule
    fresh b = record { name = n; enabled = b; matches = []; effects = [] }

    again :
        find s.next (modify s.next (with_enabled on') ((s.next, fresh on) ∷ s.store))
        ≡ some (fresh on')
    again =
        rw
          (
            find-modify s.next s.next (with_enabled on') ((s.next, fresh on) ∷ s.store)
                {r = fresh on} (find_head s.next (fresh on) s.store),
            ==_refl s.next,
          )
          refl
