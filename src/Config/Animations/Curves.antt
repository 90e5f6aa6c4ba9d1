-- ===== src/Config/Animations/Curves.antt =====
-- The curves that animations of cpp/Config.cpp name.
use hyprscheme.Base.{
  ℕ, ◌≡◌, Bool, true, not, ◌||◌, Option, List, [], ◌∷◌, if_either, Text, is_empty, arith,
}
use hyprscheme.Base.Int.{ℤ}
use hyprscheme.Desktop.Workspaces.{or_empty}
use hyprscheme.Config.Animations.{
  Manager, Node, Animations, bezier_curve_add, spring_curve_add, is_defined, style_refusal,
  set_leaf, animation_set,
}

-- A call of one of the entry points.
pub data AnimationCall : Type 0 where
  bezier : Bool → Option Text → ℕ → ℕ → ℕ → ℕ → AnimationCall
  spring : Bool → Option Text → ℕ → ℕ → ℕ → AnimationCall
  animation : Bool → Option Text → Bool → ℕ → Option Text → Option Text → AnimationCall

module _ {M : Type 0} (g : Manager M) where
  abbrev pub call : AnimationCall → Animations M → Animations M
  call (bezier up name x1 y1 x2 y2) s = (bezier_curve_add g up name x1 y1 x2 y2 s).0
  call (spring up name stiffness damping mass) s =
      (spring_curve_add g up name stiffness damping mass s).0
  call (animation up leaf enabled speed curve style) s =
      (animation_set g up leaf enabled speed curve style s).0

  abbrev pub calls : List AnimationCall → Animations M → Animations M
  calls [] s = s
  calls (c ∷ cs) s = calls cs (call c s)

  -- Each leaf that was set is in the tree, and its curve is defined.
  abbrev pub AllDefined : M → List Node → Type 0
  AllDefined m [] = Unit
  AllDefined m (n ∷ ns) =
      (g.node_exists n.leaf ≡ true) × (is_defined g n.curve m ≡ true) × AllDefined m ns

  module _
      (bezier_keeps : (name c : Text) (x1 y1 x2 y2 : ℕ) (m : M)
        → is_defined g c m ≡ true
        → is_defined g c (g.add_bezier name x1 y1 x2 y2 m) ≡ true)
      (spring_keeps : (name c : Text) (x y z : ℕ) (m : M)
        → is_defined g c m ≡ true
        → is_defined g c (g.add_spring name x y z m) ≡ true) where
    bezier-AllDefined :
        (name : Text) (x1 y1 x2 y2 : ℕ) (m : M) (ns : List Node)
        → AllDefined m ns
        → AllDefined (g.add_bezier name x1 y1 x2 y2 m) ns
    bezier-AllDefined name x1 y1 x2 y2 m [] d = tt
    bezier-AllDefined name x1 y1 x2 y2 m (n ∷ ns) d = (
      d.0,
      bezier_keeps name n.curve x1 y1 x2 y2 m d.1,
      bezier-AllDefined name x1 y1 x2 y2 m ns d.2,
    )

    spring-AllDefined :
        (name : Text) (x y z : ℕ) (m : M) (ns : List Node)
        → AllDefined m ns
        → AllDefined (g.add_spring name x y z m) ns
    spring-AllDefined name x y z m [] d = tt
    spring-AllDefined name x y z m (n ∷ ns) d =
        (d.0, spring_keeps name n.curve x y z m d.1, spring-AllDefined name x y z m ns d.2)

    set_leaf-AllDefined :
        (n : Node) (s : Animations M)
        → g.node_exists n.leaf ≡ true
        → AllDefined s.curves s.nodes_set
        → let t = (set_leaf g n s).0 in AllDefined t.curves t.nodes_set
    unfolding set_leaf
    set_leaf-AllDefined n s leaf d =
        if_either Kept (not (is_defined g n.curve s.curves)) (λ e. d)
          (λ e.
            if_either Kept (not (is_empty (style_refusal g n.leaf n.style))) (λ f. d)
              (λ f. (leaf, ground (arith, e), d)))
      where
        Kept : Animations M × ℤ → Type 0
        Kept (t, code) = AllDefined t.curves t.nodes_set

    call-AllDefined :
        (c : AnimationCall) (s : Animations M)
        → AllDefined s.curves s.nodes_set
        → AllDefined (call c s).curves (call c s).nodes_set
    unfolding bezier_curve_add spring_curve_add animation_set
    call-AllDefined c s d = by_call c
      where
        Kept : Animations M × ℤ → Type 0
        Kept (t, code) = AllDefined t.curves t.nodes_set

        by_call : (c : AnimationCall) → AllDefined (call c s).curves (call c s).nodes_set
        by_call (bezier up name x1 y1 x2 y2) =
            if_either Kept (not up) (λ e. d)
              (λ e.
                if_either Kept (is_empty (or_empty name)) (λ f. d)
                  (λ f. bezier-AllDefined (or_empty name) x1 y1 x2 y2 s.curves s.nodes_set d))
        by_call (spring up name x y z) =
            if_either Kept (not up) (λ e. d)
              (λ e.
                if_either Kept (is_empty (or_empty name)) (λ f. d)
                  (λ f.
                    if_either Kept (g.at_most_half x || (g.at_most_half y || g.at_most_half z))
                      (λ h. d)
                      (λ h. spring-AllDefined (or_empty name) x y z s.curves s.nodes_set d)))
        by_call (animation up leaf enabled speed curve style) =
            if_either Kept (not up) (λ e. d)
              (λ e.
                if_either Kept (is_empty (or_empty leaf)) (λ f. d)
                  (λ f.
                    if_either Kept (not (g.node_exists (or_empty leaf))) (λ h. d)
                      (λ h.
                        set_leaf-AllDefined
                          (record {
                            leaf = or_empty leaf;
                            enabled = enabled;
                            speed = speed;
                            curve = or_empty curve;
                            style = or_empty style;
                          })
                          s (ground (arith, h)) d)))

    -- After any calls of the entry points, each leaf that was set is one of the tree, and the curve that it
    -- names is defined: an unknown leaf or curve never reaches the tree. A curve that is added leaves the
    -- curves that are there.
    pub calls-AllDefined :
        (cs : List AnimationCall) (s : Animations M)
        → AllDefined s.curves s.nodes_set
        → AllDefined (calls cs s).curves (calls cs s).nodes_set
    calls-AllDefined [] s d = d
    calls-AllDefined (c ∷ cs) s d = calls-AllDefined cs (call c s) (call-AllDefined c s d)
