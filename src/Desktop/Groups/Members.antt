-- ===== src/Desktop/Groups/Members.antt =====
-- The members of a group that cpp/Group.cpp lists and redraws, and where it adds one.
use hyprscheme.Base.{
  ℕ, ◌≡◌, refl, ap, ◌∙◌, true, Option, none, some, List, find, [], ◌∷◌, Option-cases, inl, inr,
}
use hyprscheme.Base.Int.{ℤ, pos, negsuc}
use hyprscheme.Scm.{Scm, list_of, is_handle, family_eq}
use hyprscheme.Desktop.{
  Outcome, answers, Group, Request, redraw, set_locked, Desktop, window_handle, group_handle, alive,
  group_of, lock_handle, getter, false_value,
}
use hyprscheme.Desktop.WindowActions.{switched}
use hyprscheme.Desktop.Piles.{reverse_onto, handles_of, pile, reverse_onto-list_of}
use hyprscheme.Desktop.Groups.{
  member_list, group_members, redraw_members, lock_group, group_lock_set,
}

-- The windows among members that are alive, in order.
abbrev pub living : Desktop → List (Option ℕ) → List ℕ
living d [] = []
living d (none ∷ ms) = living d ms
living d (some a ∷ ms) =
    let rest = living d ms in elim (alive a d.windows) [ none ↦ rest | some w ↦ a ∷ rest ]

abbrev pub redraws : List ℕ → List Request → List Request
redraws [] rs = rs
redraws (a ∷ ids) rs = redraws ids (redraw a ∷ rs)

member_list-pile :
    (d : Desktop) (ms : List (Option ℕ)) (l : Scm)
    → member_list d ms l ≡ pile window_handle (living d ms) l
unfolding member_list
member_list-pile d [] l = refl
member_list-pile d (none ∷ ms) l = member_list-pile d ms l
member_list-pile d (some a ∷ ms) l = elim (Option-cases (alive a d.windows)) [
  | inl e ↦ rw (e, member_list, living) (member_list-pile d ms l)
  | inr (w, e) ↦ rw (e, member_list, living) (member_list-pile d ms (Scm.pair (window_handle a) l))
]

redraw_members-redraws :
    (d : Desktop) (ms : List (Option ℕ)) (rs : List Request)
    → redraw_members d ms rs ≡ redraws (living d ms) rs
unfolding redraw_members
redraw_members-redraws d [] rs = refl
redraw_members-redraws d (none ∷ ms) rs = redraw_members-redraws d ms rs
redraw_members-redraws d (some a ∷ ms) rs = elim (Option-cases (alive a d.windows)) [
  | inl e ↦ rw (e, redraw_members, living) (redraw_members-redraws d ms rs)
  | inr (w, e) ↦ rw (e, redraw_members, living) (redraw_members-redraws d ms (redraw a ∷ rs))
]

live_group :
    (g : ℕ) (d : Desktop) {x : Group}
    → find g d.groups ≡ some x
    → group_of (group_handle g) d ≡ answers (some (g, x))
unfolding lock_handle alive is_handle family_eq
live_group g d e = rw (e, alive) refl

-- The members that a group lists are its living windows in the group's order, and locking the group
-- redraws those windows and no other, in that order, after the lock is set. The interpreter is up and
-- the group lives.
pub group_members-redrawn :
    (g : ℕ) (mode : ℤ) (d : Desktop) {x : Group}
    → find g d.groups ≡ some x
    → (group_members true (group_handle g) d
        ≡ answers (list_of (handles_of window_handle (living d x.members))))
      × (group_lock_set true (group_handle g) mode d
          ≡ answers (
            record d {
              requests =
                  redraws (living d x.members) (set_locked g (switched mode x.locked) ∷ d.requests);
            },
            pos 0,
          ))
unfolding group_members group_lock_set getter reverse_onto
group_members-redrawn g mode d {x} e = (
  ap listing (live_group g d {x = x} e)
      ∙ ap answers (
          ap (λ l. reverse_onto l Scm.nil) (member_list-pile d x.members Scm.nil)
          ∙ reverse_onto-list_of window_handle (living d x.members)),
  ap locking (live_group g d {x = x} e)
      ∙ ap (λ rs. answers (record d { requests = rs }, pos 0))
          (redraw_members-redraws d x.members (set_locked g (switched mode x.locked) ∷ d.requests)),
)
  where
    listing : Outcome (Option (ℕ × Group)) → Outcome Scm
    listing o =
        getter true false_value
          (λ h (y : Group). reverse_onto (member_list d y.members Scm.nil) Scm.nil) o

    locking : Outcome (Option (ℕ × Group)) → Outcome (Desktop × ℤ)
    locking o = getter true (d, negsuc 0) (λ h (y : Group). lock_group mode h y d) o
