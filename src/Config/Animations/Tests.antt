-- ===== src/Config/Animations/Tests.antt =====
-- The curves' theorem at a manager that keeps the names of its curves.
use hyprscheme.Base.{
  Bool, true, false, ◌||◌, none, some, List, [], ◌∷◌, Text, codes, text_eq, arith,
}
use hyprscheme.Config.Animations.{Manager, Animations}
use hyprscheme.Config.Animations.Curves.{
  AnimationCall, bezier, animation, calls, AllDefined, calls-AllDefined,
}

abbrev has_name : Text → List Text → Bool
has_name c [] = false
has_name c (n ∷ ns) = text_eq c n || has_name c ns

abbrev names : Manager (List Text)
names = record {
  bezier_exists = has_name;
  spring_exists = λ c m. false;
  add_bezier = λ n x1 y1 x2 y2 m. n ∷ m;
  add_spring = λ n x y z m. n ∷ m;
  node_exists = λ leaf. true;
  style_error = λ leaf style. [];
  at_most_half = λ x. false;
}

abbrev no_animations : Animations (List Text)
no_animations = record { curves = []; nodes_set = []; error = [] }

abbrev two_calls : List AnimationCall
two_calls =
    bezier true (some (codes "ease")) 0 0 1 1
    ∷ animation true (some (codes "windows")) true 5 (some (codes "ease")) none
    ∷ []

calls-AllDefined_example :
    AllDefined names
      (calls names two_calls no_animations).curves
      (calls names two_calls no_animations).nodes_set
calls-AllDefined_example =
    calls-AllDefined names (λ name c x1 y1 x2 y2 m d. ground (arith, d))
      (λ name c x y z m d. ground (arith, d)) two_calls no_animations tt
