-- ===== src/Desktop/Groups.antt =====
-- The entry points of cpp/Group.cpp.
pub mod Members
use hyprscheme.Base.{
  ℕ, suc, ◌-◌, ◌+◌, ◌^◌, ◌==◌, Bool, true, false, not, ◌||◌, ◌&&◌, Option, none, some, List, [],
  ◌∷◌, if◌then◌else◌, Text, codes,
}
use hyprscheme.Base.Int.{ℤ, pos, negsuc}
use hyprscheme.Scm.{Scm, is_false}
use hyprscheme.Desktop.{
  Outcome, answers, then_with, Window, Group, Request, act, set_locked, add_member, remove_member,
  redraw, Desktop, false_value, bool_result, window_handle, handle_result, alive, window_of,
  group_of, action_window, pointer, pointer_in, getter, action, action_result, flag,
}
use hyprscheme.Desktop.WindowState.{same_live}
use hyprscheme.Desktop.WindowActions.{switched}
use hyprscheme.Scm.{Family}
use hyprscheme.Desktop.Piles.{reverse_onto}

unfoldable pub group_lock_all : Bool → Desktop → ℤ
group_lock_all up d = if not up then pos 0 else flag d.groups_locked

unfoldable pub group_toggle : (Request → Bool) → Bool → Scm → Desktop → Outcome (Desktop × ℤ)
unfolding action action_window
group_toggle accepts up v d =
    action accepts up (action_window v d) (λ w. act (codes "group-toggle") w [] []) d

-- `value_or(nullptr)`.
abbrev pub pointed : Option (Option (ℕ × Window)) → Option (ℕ × Window)
pointed none = none
pointed (some w) = w

abbrev pub is_member : Option ℕ → Bool
is_member none = false
is_member (some g) = true

abbrev pub same_bool : Bool → Bool → Bool
same_bool true b = b
same_bool false b = not b

-- A window that is already in the state that is asked for is left alone.
unfoldable pub group_set : (Request → Bool) → Bool → Scm → Bool → Desktop → Outcome (Desktop × ℤ)
unfolding action_window
group_set accepts up v on d =
    if not up
    then answers (d, negsuc 0)
    else then_with (action_window v d) (λ o. elim (pointed o) [
      | none ↦ answers (d, negsuc 0)
      | some (a, w) ↦
          if same_bool (is_member w.group) on
          then answers (d, pos 0)
          else let asked = act (codes "group-set") (some (some a)) [] [] in
            answers (record d { requests = asked ∷ d.requests }, action_result (accepts asked))
    ])

unfoldable pub group_cycle : (Request → Bool) → Bool → Scm → Bool → Desktop → Outcome (Desktop × ℤ)
unfolding action action_window
group_cycle accepts up v prev d =
    action accepts up (action_window v d)
      (λ w. act (codes "group-cycle") w (flag (not prev) ∷ []) []) d

unfoldable pub group_index : (Request → Bool) → Bool → Scm → ℤ → Desktop → Outcome (Desktop × ℤ)
unfolding action action_window
group_index accepts up v index d =
    action accepts up (action_window v d) (λ w. act (codes "group-index") w (index ∷ []) []) d

-- The window is not passed on: the compositor moves the focused one.
unfoldable pub group_move_window :
    (Request → Bool) → Bool → Scm → Bool → Desktop → Outcome (Desktop × ℤ)
unfolding action
group_move_window accepts up v prev d =
    action accepts up (answers none)
      (λ w. act (codes "group-move-window") w (flag (not prev) ∷ []) []) d

unfoldable pub group_lock_all_set : (Request → Bool) → Bool → ℤ → Desktop → Outcome (Desktop × ℤ)
unfolding action
group_lock_all_set accepts up mode d =
    action accepts up (answers none) (λ w. act (codes "group-lock") w (mode ∷ []) []) d

unfoldable pub group_alive : Bool → Scm → Desktop → Outcome ℤ
group_alive up v d =
    if not up
    then answers (negsuc 0)
    else then_with (group_of v d)
        (λ o. elim o [ none ↦ answers (pos 0) | some g ↦ answers (pos 1) ])

unfoldable pub group_same : Bool → Scm → Scm → Desktop → Outcome ℤ
group_same up v u d =
    if not up
    then answers (negsuc 0)
    else then_with (group_of v d) (λ a. then_with (group_of u d) (λ b. answers (same_live a b)))

-- The living members, consed one by one onto `l`.
unfoldable pub member_list : Desktop → List (Option ℕ) → Scm → Scm
unfolding alive
member_list d [] l = l
member_list d (none ∷ ms) l = member_list d ms l
member_list d (some a ∷ ms) l = elim (alive a d.windows) [
  | none ↦ member_list d ms l
  | some w ↦ member_list d ms (Scm.pair (window_handle a) l)
]

unfoldable pub group_members : Bool → Scm → Desktop → Outcome Scm
unfolding getter member_list reverse_onto
group_members up v d =
    getter up false_value (λ g (x : Group). reverse_onto (member_list d x.members Scm.nil) Scm.nil)
      (group_of v d)

unfoldable pub group_current : Bool → Scm → Desktop → Outcome Scm
unfolding getter
group_current up v d =
    getter up false_value (λ g (x : Group). handle_result Family.window x.current) (group_of v d)

unfoldable pub group_current_idx : Bool → Scm → Desktop → Outcome Scm
unfolding getter
group_current_idx up v d =
    getter up false_value (λ g (x : Group). Scm.int (pos (suc x.current_index))) (group_of v d)

abbrev pub how_many {ℓ} : {A : Type ℓ} → List A → ℕ
how_many [] = 0
how_many (x ∷ xs) = suc (how_many xs)

unfoldable pub group_size : Bool → Scm → Desktop → Outcome Scm
unfolding getter
group_size up v d =
    getter up false_value (λ g (x : Group). Scm.int (pos (how_many x.members))) (group_of v d)

unfoldable pub group_locked : Bool → Scm → Desktop → Outcome Scm
unfolding getter
group_locked up v d = getter up false_value (λ g (x : Group). bool_result x.locked) (group_of v d)

-- Every living member redraws, in order.
unfoldable pub redraw_members : Desktop → List (Option ℕ) → List Request → List Request
unfolding alive
redraw_members d [] rs = rs
redraw_members d (none ∷ ms) rs = redraw_members d ms rs
redraw_members d (some a ∷ ms) rs = elim (alive a d.windows) [
  | none ↦ redraw_members d ms rs
  | some w ↦ redraw_members d ms (redraw a ∷ rs)
]

-- The lock of a living group.
abbrev pub lock_group : ℤ → ℕ → Group → Desktop → Desktop × ℤ
lock_group mode g x d = (
  record d {
    requests = redraw_members d x.members (set_locked g (switched mode x.locked) ∷ d.requests);
  },
  pos 0,
)

unfoldable pub group_lock_set : Bool → Scm → ℤ → Desktop → Outcome (Desktop × ℤ)
unfolding redraw_members getter
group_lock_set up v mode d =
    getter up (d, negsuc 0) (λ g (x : Group). lock_group mode g x d) (group_of v d)

unfoldable pub group_denied : Bool → Scm → Desktop → Outcome Scm
unfolding getter
group_denied up v d = getter up false_value (λ g (x : Group). bool_result x.denied) (group_of v d)

-- The place of a new member: a negative index is the end, the others are cast to `size_t` after one is
-- taken off.
unfoldable pub add_place : ℤ → Option ℕ
add_place (pos n) = if n == 0 then some (2 ^ 64 - 1) else some (n - 1)
add_place (negsuc n) = none

abbrev pub is_in : Option ℕ → ℕ → Bool
is_in none g = false
is_in (some h) g = h == g

abbrev pub fails : Text → Desktop → Outcome (Desktop × ℤ)
fails message d = answers (record d { error = message }, negsuc 1)

-- `fits` is the compositor's `canBeGroupedInto`.
unfoldable pub group_add : (ℕ → ℕ → Bool) → Bool → Scm → Scm → ℤ → Desktop → Outcome (Desktop × ℤ)
unfolding add_place
group_add fits up v u index d =
    if not up
    then answers (d, negsuc 0)
    else then_with (group_of v d) (λ o. elim o [
      | none ↦ answers (d, negsuc 0)
      | some (g, x) ↦ then_with (window_of u d) (λ p. elim p [
        | none ↦ answers (d, negsuc 0)
        | some (a, w) ↦
            if is_in w.group g
            then answers (d, pos 0)
            else if x.denied
            then fails (codes "hl-group-add!: target group is denied") d
            else if not (fits a g)
            then fails (codes "hl-group-add!: window cannot be added to group") d
            else answers
                (record d { requests = add_member g a (add_place index) ∷ d.requests }, pos 0)
      ])
    ])

unfoldable pub has_member : ℕ → List (Option ℕ) → Bool
has_member a [] = false
has_member a (none ∷ ms) = has_member a ms
has_member a (some b ∷ ms) = (b == a) || has_member a ms

unfoldable pub group_remove : Bool → Scm → Scm → Desktop → Outcome (Desktop × ℤ)
unfolding has_member
group_remove up v u d =
    if not up
    then answers (d, negsuc 0)
    else then_with (group_of v d) (λ o. elim o [
      | none ↦ answers (d, negsuc 0)
      | some (g, x) ↦ then_with (window_of u d) (λ p. elim p [
        | none ↦ fails (codes "hl-group-remove!: window is not a group member") d
        | some (a, w) ↦
            if not (has_member a x.members)
            then fails (codes "hl-group-remove!: window is not a group member") d
            else answers (record d { requests = remove_member g a ∷ d.requests }, pos 0)
      ])
    ])
