-- ===== src/Desktop/Workspaces/Grouped.antt =====
-- The groups of a workspace that cpp/Workspace.cpp lists.
use hyprscheme.Base.{
  ℕ, ◌==◌, ◌≡◌, refl, ap, sym, subst, ◌∙◌, Bool, true, false, ◌||◌, ◌&&◌, Option, none, some, List,
  [], ◌∷◌, ◌++◌, member, IsDistinct, Bool-cases, Option-cases, inl, inr, arith, find,
}
use hyprscheme.Scm.{Scm, list_of, is_handle, family_eq}
use hyprscheme.Desktop.{
  Outcome, answers, Window, Workspace, Desktop, false_value, workspace_handle, group_handle, alive,
  lock_handle, workspace_of, getter,
}
use hyprscheme.Desktop.Selectors.{same_pointer}
use hyprscheme.Desktop.Piles.{reverse_onto, handles_of, pile, pile-append, reverse_onto-list_of}
use hyprscheme.Desktop.Workspaces.{group_loop, workspace_groups}

-- Whether a window on the workspace is in the group.
abbrev pub shown : ℕ → ℕ → List (ℕ × Window) → Bool
shown ws g [] = false
shown ws g ((a, w) ∷ m) = (same_pointer w.workspace ws && same_pointer w.group g) || shown ws g m

member-append : (g : ℕ) (xs ys : List ℕ) → member g (xs ++ ys) ≡ (member g xs || member g ys)
member-append g [] ys = refl
member-append g (x ∷ xs) ys = ground (arith, member-append g xs ys)

snoc-IsDistinct :
    (g : ℕ) (xs : List ℕ) → member g xs ≡ false → IsDistinct xs → IsDistinct (xs ++ g ∷ [])
snoc-IsDistinct g [] h d = (refl, tt)
snoc-IsDistinct g (x ∷ xs) h d =
    (ground (arith, member-append x xs (g ∷ [])), snoc-IsDistinct g xs (ground arith) d.1)

-- What the loop has pushed is what it has consed, each group once, and the groups shown so far.
record IsLoop (ws : ℕ) (seen : ℕ → Bool) (r : List ℕ × Scm) : Type 0 where
  pub piled : r.1 ≡ pile group_handle r.0 Scm.nil
  pub distinct : IsDistinct r.0
  pub exact : (g : ℕ) → member g r.0 ≡ seen g

reseen :
    {ws : ℕ} {seen again : ℕ → Bool} {r : List ℕ × Scm}
    → ((g : ℕ) → seen g ≡ again g)
    → IsLoop ws seen r
    → IsLoop ws again r
reseen same i = record { piled = i.piled; distinct = i.distinct; exact = λ g. i.exact g ∙ same g }

pushed-IsLoop :
    {ws : ℕ} {seen : ℕ → Bool} (g : ℕ) (pushed : List ℕ) (l : Scm)
    → member g pushed ≡ false
    → IsLoop ws seen (pushed, l)
    → IsLoop ws (λ h. seen h || (g == h)) (pushed ++ g ∷ [], Scm.pair (group_handle g) l)
pushed-IsLoop g pushed l new i = record {
  piled =
      ap (Scm.pair (group_handle g)) i.piled
      ∙ sym (pile-append group_handle pushed (g ∷ []) Scm.nil);
  distinct = snoc-IsDistinct g pushed new i.distinct;
  exact = λ h. member-append h pushed (g ∷ []) ∙ ground (arith, i.exact h);
}

-- One window of the loop: what it does to the pushed groups, and what it shows.
group_loop-IsLoop :
    (ws : ℕ) (m : List (ℕ × Window)) (pushed : List ℕ) (l : Scm) (seen : ℕ → Bool)
    → IsLoop ws seen (pushed, l)
    → IsLoop ws (λ g. seen g || shown ws g m) (group_loop ws m pushed l)
unfolding group_loop
group_loop-IsLoop ws [] pushed l seen i = record {
  piled = i.piled;
  distinct = i.distinct;
  exact = λ g. ground (arith, i.exact g);
}
group_loop-IsLoop ws ((a, w) ∷ m) pushed l seen i =
    elim (Bool-cases (same_pointer w.workspace ws)) [
      | inr e ↦
          subst (IsLoop ws _) (sym (passed e))
            (reseen (λ g. ground (arith, e)) (group_loop-IsLoop ws m pushed l seen i))
      | inl e ↦ elim (Option-cases w.group) [
        | inl h ↦ subst (IsLoop ws _) (sym (ungrouped e h)) (
            reseen (λ g. ground (arith, e, ap (λ o. same_pointer o g) h))
              (group_loop-IsLoop ws m pushed l seen i))
        | inr (g0, h) ↦ elim (Bool-cases (member g0 pushed)) [
          | inl old ↦
              subst (IsLoop ws _) (sym (again e g0 h old))
                (reseen (λ g. old_shown e g0 h old g) (group_loop-IsLoop ws m pushed l seen i))
          | inr new ↦ subst (IsLoop ws _) (sym (first e g0 h new)) (
              reseen (λ g. ground (arith, e, ap (λ o. same_pointer o g) h))
                (group_loop-IsLoop ws m (pushed ++ g0 ∷ []) (Scm.pair (group_handle g0) l)
                  (λ g. seen g || (g0 == g)) (pushed-IsLoop g0 pushed l new i)))
        ]
      ]
    ]
  where
    old_group : (g0 : ℕ) → member g0 pushed ≡ true → (g : ℕ) → (g0 == g) ≡ true → seen g ≡ true
    old_group g0 old g q =
        let same : g0 ≡ g = ground arith in
        sym (i.exact g) ∙ ap (λ x. member x pushed) (sym same) ∙ old

    old_shown :
        same_pointer w.workspace ws ≡ true
        → (g0 : ℕ) → w.group ≡ some g0
        → member g0 pushed ≡ true
        → (g : ℕ) → (seen g || shown ws g m) ≡ (seen g || shown ws g ((a, w) ∷ m))
    old_shown e g0 h old g = elim (Bool-cases (g0 == g)) [
      | inl q ↦ ground (arith, e, ap (λ o. same_pointer o g) h, old_group g0 old g q)
      | inr q ↦ ground (arith, e, ap (λ o. same_pointer o g) h)
    ]

    passed :
        same_pointer w.workspace ws ≡ false
        → group_loop ws ((a, w) ∷ m) pushed l ≡ group_loop ws m pushed l
    passed e = rw (e, group_loop) refl

    ungrouped :
        same_pointer w.workspace ws ≡ true
        → w.group ≡ none
        → group_loop ws ((a, w) ∷ m) pushed l ≡ group_loop ws m pushed l
    ungrouped e h = rw (e, h, group_loop) refl

    again :
        same_pointer w.workspace ws ≡ true
        → (g : ℕ) → w.group ≡ some g
        → member g pushed ≡ true
        → group_loop ws ((a, w) ∷ m) pushed l ≡ group_loop ws m pushed l
    again e g h old = rw (e, h, group_loop) (rw old refl)

    first :
        same_pointer w.workspace ws ≡ true
        → (g : ℕ) → w.group ≡ some g
        → member g pushed ≡ false
        → group_loop ws ((a, w) ∷ m) pushed l
          ≡ group_loop ws m (pushed ++ g ∷ []) (Scm.pair (group_handle g) l)
    first e g h new = rw (e, h, group_loop) (rw new refl)

live_workspace :
    (ws : ℕ) (d : Desktop) {x : Workspace}
    → find ws d.workspaces ≡ some x
    → workspace_of (workspace_handle ws) d ≡ answers (some (ws, x))
unfolding lock_handle alive is_handle family_eq
live_workspace ws d e = rw (e, alive) refl

-- The groups that are listed for a living workspace are different from each other, and a group is among
-- them exactly when a window on the workspace is in it. The interpreter is up.
pub workspace_groups-IsDistinct :
    (ws : ℕ) (d : Desktop) {x : Workspace}
    → find ws d.workspaces ≡ some x
    → (gs : List ℕ) × (workspace_groups true (workspace_handle ws) d
        ≡ answers (list_of (handles_of group_handle gs)))
      × IsDistinct gs
      × ((g : ℕ) → member g gs ≡ shown ws g d.windows)
unfolding workspace_groups getter
workspace_groups-IsDistinct ws d {x} e = (
  (group_loop ws d.windows [] Scm.nil).0,
  ap listing (live_workspace ws d {x = x} e)
      ∙ ap answers (
          ap (λ l. reverse_onto l Scm.nil) loop.piled
          ∙ reverse_onto-list_of group_handle (group_loop ws d.windows [] Scm.nil).0),
  loop.distinct,
  loop.exact,
)
  where
    loop : IsLoop ws (λ g. false || shown ws g d.windows) (group_loop ws d.windows [] Scm.nil)
    loop =
        group_loop-IsLoop ws d.windows [] Scm.nil (λ g. false)
          (record { piled = refl; distinct = tt; exact = λ g. refl })

    listing : Outcome (Option (ℕ × Workspace)) → Outcome Scm
    listing o =
        getter true false_value
          (λ b (y : Workspace). reverse_onto (group_loop b d.windows [] Scm.nil).1 Scm.nil) o
