-- ===== src/Desktop/Workspaces.antt =====
-- The entry points of cpp/Workspace.cpp, and the workspace and monitor arguments that other families take.
-- The compositor's resolver, its queries and what it creates are parameters.
pub mod Grouped
use hyprscheme.Base.{
  ℕ, suc, ◌-◌, ◌^◌, ◌==◌, Bool, true, false, not, ◌||◌, ◌&&◌, Option, none, some, List, [], ◌∷◌,
  ◌++◌, if◌then◌else◌, Text, codes, is_empty, has_prefix, decimal, member, leb, find,
}
use hyprscheme.Base.Int.{ℤ, pos, negsuc, fits_int64}
use hyprscheme.Scm.{Scm, Family, is_handle}
use hyprscheme.Desktop.{
  Outcome, raised, answers, then_with, Window, Workspace, Monitor, Request, act, create_workspace,
  Desktop, false_value, bool_result, window_handle, workspace_handle, group_handle, handle_result,
  alive, lock_handle, workspace_of, getter, action_result,
}
use hyprscheme.Desktop.Windows.{list_or_false}
use hyprscheme.Desktop.WindowState.{same_live}
use hyprscheme.Desktop.Selectors.{same_pointer}
use hyprscheme.Desktop.Piles.{reverse_onto}

-- What the compositor answers to a name or a selector: a workspace by its input, a selector's target, if
-- it is valid, the workspace at a target and the one that is made for it on a monitor, and a monitor.
pub record Resolver : Type 0 where
  pub by_input : Text → Option ℕ
  pub target : Text → Option Text
  pub find_target : Text → Option ℕ
  pub created : Text → Option ℕ → Option ℕ
  pub monitor_by : Text → Option ℕ

-- `hlSchemeWorkspaceNames`: the handles of the workspaces, which are all there.
unfoldable pub all_handles : List (ℕ × Workspace) → List Scm
all_handles [] = []
all_handles ((a, w) ∷ m) = workspace_handle a ∷ all_handles m

unfoldable pub workspace_names : Bool → Desktop → Scm
unfolding all_handles
workspace_names up d = if not up then false_value else list_or_false (all_handles d.workspaces)

unfoldable pub workspace_from_name : Resolver → Text → Option ℕ
workspace_from_name r name = if is_empty name then none else r.by_input name

unfoldable pub workspace_from_selector : Resolver → Text → Option ℕ
workspace_from_selector r sel = elim (r.target sel) [ none ↦ none | some t ↦ r.find_target t ]

abbrev pub or_empty : Option Text → Text
or_empty none = []
or_empty (some t) = t

-- Asks for an action of two objects, and of texts.
abbrev pub asks : (Request → Bool) → Text → List ℤ → List Text → Desktop → Desktop × ℤ
asks accepts name numbers texts d =
    let asked = act name none numbers texts in
    (record d { requests = asked ∷ d.requests }, action_result (accepts asked))

unfoldable pub focus_workspace : (Request → Bool) → Bool → Option Text → Desktop → Desktop × ℤ
focus_workspace accepts up ws d =
    if not up then (d, negsuc 0) else asks accepts (codes "focus-workspace") [] (or_empty ws ∷ []) d

-- `scm_to_int64` raises on what does not fit.
abbrev pub numbered {ℓ} : {A : Type ℓ} → (Text → Option A) → ℤ → Outcome (Option A)
numbered look n = if fits_int64 n then answers (look (decimal n)) else raised

-- `scm_is_integer` holds of a whole double, and `scm_to_int64` then raises: `is_whole` tells those.
abbrev pub whole_double {ℓ} : {A : Type ℓ} → (ℕ → Bool) → ℕ → Outcome (Option A)
whole_double is_whole bits = if is_whole bits then raised else answers none

abbrev pub pointer_of {ℓ} : {A : Type ℓ} → Outcome (Option (ℕ × A)) → Outcome (Option ℕ)
pointer_of o = then_with o (λ l. elim l [ none ↦ answers none | some (a, w) ↦ answers (some a) ])

-- A handle is used as it is, a number or a text is a selector, anything else names nothing.
unfoldable pub argument :
    {A : Type 0} → (ℕ → Bool) → (Text → Option ℕ) → Family → List (ℕ × A) → Scm → Outcome (Option ℕ)
unfolding is_handle alive
argument is_whole look f m (Scm.int n) = numbered look n
argument is_whole look f m (Scm.flonum bits) = whole_double is_whole bits
argument is_whole look f m (Scm.string t) = answers (look t)
argument is_whole look f m (Scm.symbol t) = answers (look t)
argument is_whole look f m (Scm.handle g a) =
    if is_handle f (Scm.handle g a) then pointer_of (answers (alive a m)) else answers none
argument is_whole look f m _ = answers none

unfoldable pub workspace_arg : (ℕ → Bool) → Resolver → Scm → Desktop → Outcome (Option ℕ)
unfolding argument workspace_from_selector
workspace_arg is_whole r v d =
    argument is_whole (workspace_from_selector r) Family.workspace d.workspaces v

unfoldable pub monitor_arg : (ℕ → Bool) → Resolver → Scm → Desktop → Outcome (Option ℕ)
unfolding argument
monitor_arg is_whole r v d = argument is_whole r.monitor_by Family.monitor d.monitors v

unfoldable pub workspace_rename :
    (ℕ → Bool)
    → Resolver
    → (Request → Bool)
    → Bool
    → Scm
    → Option Text
    → Desktop
    → Outcome (Desktop × ℤ)
unfolding workspace_arg
workspace_rename is_whole r accepts up v name d =
    if not up
    then answers (d, negsuc 0)
    else then_with (workspace_arg is_whole r v d) (λ o. elim o [
      | none ↦ answers (d, negsuc 0)
      | some ws ↦
          answers (asks accepts (codes "workspace-rename") (pos ws ∷ []) (or_empty name ∷ []) d)
    ])

-- An action on two objects that must both be there.
abbrev pub on_both : (Request → Bool) → Text → Option ℕ → Option ℕ → Desktop → Outcome (Desktop × ℤ)
on_both accepts name none o d = answers (d, negsuc 0)
on_both accepts name (some a) none d = answers (d, negsuc 0)
on_both accepts name (some a) (some b) d = answers (asks accepts name (pos a ∷ pos b ∷ []) [] d)

unfoldable pub workspace_move_monitor :
    (ℕ → Bool) → Resolver → (Request → Bool) → Bool → Scm → Scm → Desktop → Outcome (Desktop × ℤ)
unfolding workspace_arg monitor_arg
workspace_move_monitor is_whole r accepts up v m d =
    if not up
    then answers (d, negsuc 0)
    else then_with (workspace_arg is_whole r v d) (λ ws.
      then_with (monitor_arg is_whole r m d)
        (λ mon. on_both accepts (codes "workspace-move-to-monitor") ws mon d))

unfoldable pub workspace_swap_monitors :
    (ℕ → Bool) → Resolver → (Request → Bool) → Bool → Scm → Scm → Desktop → Outcome (Desktop × ℤ)
unfolding monitor_arg
workspace_swap_monitors is_whole r accepts up v u d =
    if not up
    then answers (d, negsuc 0)
    else then_with (monitor_arg is_whole r v d) (λ a.
      then_with (monitor_arg is_whole r u d)
        (λ b. on_both accepts (codes "workspace-swap-monitors") a b d))

abbrev pub special_prefix : Text
special_prefix = codes "special:"

unfoldable pub special_selector : Text → Text
special_selector name =
    if not (has_prefix special_prefix name) then special_prefix ++ name else name

-- Finds the special workspace, or makes it where the target is valid.
unfoldable pub special_workspace_from_name :
    Resolver → Text → Option ℕ → Desktop → Desktop × Option ℕ
unfolding workspace_from_name special_selector
special_workspace_from_name r name mon d = elim (workspace_from_name r (special_selector name)) [
  | some ws ↦ (d, some ws)
  | none ↦ elim (r.target (special_selector name)) [
    | none ↦ (d, none)
    | some t ↦ (record d { requests = create_workspace t mon ∷ d.requests }, r.created t mon)
  ]
]

unfoldable pub workspace_toggle_special :
    Resolver → (Request → Bool) → Bool → Option Text → Desktop → Desktop × ℤ
unfolding special_workspace_from_name
workspace_toggle_special r accepts up name d =
    if not up || is_empty (or_empty name)
    then (d, negsuc 0)
    else let (after, found) = special_workspace_from_name r (or_empty name) d.focused_monitor d in
      elim found [
        | none ↦ (after, negsuc 0)
        | some ws ↦ asks accepts (codes "workspace-toggle-special") (pos ws ∷ []) [] after
      ]

-- A group that the workspace's windows show for the first time is pushed, and its handle consed.
unfoldable pub group_loop : ℕ → List (ℕ × Window) → List ℕ → Scm → List ℕ × Scm
group_loop ws [] pushed l = (pushed, l)
group_loop ws ((a, w) ∷ m) pushed l =
    if not (same_pointer w.workspace ws) then group_loop ws m pushed l else elim w.group [
      | none ↦ group_loop ws m pushed l
      | some g ↦
          if member g pushed
          then group_loop ws m pushed l
          else group_loop ws m (pushed ++ g ∷ []) (Scm.pair (group_handle g) l)
    ]

unfoldable pub workspace_groups : Bool → Scm → Desktop → Outcome Scm
unfolding getter group_loop reverse_onto
workspace_groups up v d =
    getter up false_value
      (λ ws (x : Workspace). reverse_onto (group_loop ws d.windows [] Scm.nil).1 Scm.nil)
      (workspace_of v d)

-- The double is cast to a whole number, and `accepts` says whether the compositor takes it.
unfoldable pub workspace_change_id :
    (ℕ → Bool)
    → Resolver
    → (ℕ → ℤ)
    → (Request → Bool)
    → Bool
    → Scm
    → ℕ
    → Desktop
    → Outcome (Desktop × ℤ)
unfolding workspace_arg
workspace_change_id is_whole r whole accepts up v bits d =
    if not up
    then answers (d, negsuc 0)
    else then_with (workspace_arg is_whole r v d) (λ o. elim o [
      | none ↦ answers (record d { error = codes "no workspace for that argument" }, negsuc 0)
      | some ws ↦
          answers (asks accepts (codes "workspace-change-id") (pos ws ∷ whole bits ∷ []) [] d)
    ])

unfoldable pub workspace_from : Resolver → Bool → Option Text → Scm
unfolding workspace_from_selector
workspace_from r up sel =
    if not up
    then false_value
    else handle_result Family.workspace (workspace_from_selector r (or_empty sel))

unfoldable pub windows_on : ℕ → List (ℕ × Window) → List Scm
windows_on ws [] = []
windows_on ws ((a, w) ∷ m) =
    let rest = windows_on ws m in
    if not w.mapped || not (same_pointer w.workspace ws) then rest else window_handle a ∷ rest

unfoldable pub workspace_windows : Resolver → Bool → Option Text → Desktop → Scm
unfolding workspace_from_selector windows_on
workspace_windows r up sel d =
    if not up then false_value else elim (workspace_from_selector r (or_empty sel)) [
      | none ↦ false_value
      | some ws ↦ list_or_false (windows_on ws d.windows)
    ]
