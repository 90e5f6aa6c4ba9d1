-- ===== src/Desktop/Piles.antt =====
-- Lists that the families of cpp/ build by consing in front and then reverse, as in cpp/Group.cpp and
-- cpp/Workspace.cpp: the order is that of the loop.
use hyprscheme.Base.{ℕ, ◌≡◌, refl, ap, ◌∙◌, List, [], ◌∷◌, ◌++◌}
use hyprscheme.Scm.{Scm, list_of}

-- The loop that reverses a list.
unfoldable pub reverse_onto : Scm → Scm → Scm
reverse_onto (Scm.pair a p) out = reverse_onto p (Scm.pair a out)
reverse_onto _ out = out

module _ (handle : ℕ → Scm) where
  abbrev pub handles_of : List ℕ → List Scm
  handles_of [] = []
  handles_of (a ∷ ids) = handle a ∷ handles_of ids

  abbrev pub pile : List ℕ → Scm → Scm
  pile [] l = l
  pile (a ∷ ids) l = pile ids (Scm.pair (handle a) l)

  abbrev front : List ℕ → Scm → Scm
  front [] out = out
  front (a ∷ ids) out = Scm.pair (handle a) (front ids out)

  reverse_onto-pile :
      (ids : List ℕ) (l out : Scm) → reverse_onto (pile ids l) out ≡ reverse_onto l (front ids out)
  unfolding reverse_onto
  reverse_onto-pile [] l out = refl
  reverse_onto-pile (a ∷ ids) l out = reverse_onto-pile ids (Scm.pair (handle a) l) out

  front-list_of : (ids : List ℕ) → front ids Scm.nil ≡ list_of (handles_of ids)
  unfolding list_of
  front-list_of [] = refl
  front-list_of (a ∷ ids) = ap (Scm.pair (handle a)) (front-list_of ids)

  -- Reversing what was piled up brings the order back.
  pub reverse_onto-list_of :
      (ids : List ℕ) → reverse_onto (pile ids Scm.nil) Scm.nil ≡ list_of (handles_of ids)
  unfolding reverse_onto
  reverse_onto-list_of ids = reverse_onto-pile ids Scm.nil Scm.nil ∙ front-list_of ids

  pub pile-append : (ids js : List ℕ) (l : Scm) → pile (ids ++ js) l ≡ pile js (pile ids l)
  pile-append [] js l = refl
  pile-append (a ∷ ids) js l = pile-append ids js (Scm.pair (handle a) l)
