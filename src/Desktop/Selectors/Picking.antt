-- ===== src/Desktop/Selectors/Picking.antt =====
-- Which windows a selector of cpp/Query.cpp picks.
use hyprscheme.Base.{
  ℕ, ◌==◌, ◌≡◌, ap, sym, ◌∙◌, Bool, true, false, not, ◌&&◌, any, ◌<◌, ◌≤◌, Option, none, some, List,
  [], ◌∷◌, ◌++◌, Text, codes, text_eq, text_eq_refl, text_eq_sound, has_prefix, digits, decimal,
  address_text, digits-injective, Bool-cases, inl, inr, arith, keep,
}
use hyprscheme.Base.Int.{pos}
use hyprscheme.Scm.{Scm}
use hyprscheme.Desktop.{Window, Desktop, false_value, window_handle}
use hyprscheme.Desktop.Selectors.{strip, matches_body, float_part, window_matches_selector}

-- The handles of the windows of a list.
abbrev pub handles : List (ℕ × Window) → List Scm
handles [] = []
handles ((a, w) ∷ m) = window_handle a ∷ handles m

and_true : {x y : Bool} → x ≡ y → (x && true) ≡ y
and_true e = ground (arith, e)

-- The selectors that the language has, with the text behind their prefix.
pub data Selector : Type 0 where
  by_class by_initial_class by_title by_initial_title by_pid by_address by_tag : Text → Selector
  no_text active floating tiled : Selector

abbrev pub written : Selector → Text
written (by_class t) = codes "class:" ++ t
written (by_initial_class t) = codes "initialclass:" ++ t
written (by_title t) = codes "title:" ++ t
written (by_initial_title t) = codes "initialtitle:" ++ t
written (by_pid t) = codes "pid:" ++ t
written (by_address t) = codes "address:" ++ t
written (by_tag t) = codes "tag:" ++ t
written no_text = []
written active = codes "active"
written floating = codes "floating"
written tiled = codes "tiled"

abbrev pub is_address : ℕ → Option ℕ → Bool
is_address a none = false
is_address a (some b) = b == a

-- What each selector asks of a window.
abbrev pub asks_for : (Text → Text → Bool) → Selector → Desktop → ℕ → Window → Bool
asks_for regex (by_class t) d a w = regex w.app_id t
asks_for regex (by_initial_class t) d a w = regex w.initial_app_id t
asks_for regex (by_title t) d a w = regex w.title t
asks_for regex (by_initial_title t) d a w = regex w.initial_title t
asks_for regex (by_pid t) d a w = text_eq (decimal w.pid) t
asks_for regex (by_address t) d a w = text_eq (address_text a) t
asks_for regex (by_tag t) d a w = any (λ tag. regex tag t) w.tags
asks_for regex no_text d a w = is_address a d.focused
asks_for regex active d a w = is_address a d.focused
asks_for regex floating d a w = w.floating
asks_for regex tiled d a w = not w.floating

-- The mapped windows that a selector asks for.
abbrev pub asked : (Text → Text → Bool) → Selector → Desktop → List (ℕ × Window)
asked regex s d = keep (λ (p : ℕ × Window). p.1.mapped && asks_for regex s d p.0 p.1) d.windows

abbrev pub first_handle : List (ℕ × Window) → Scm
first_handle [] = false_value
first_handle ((a, w) ∷ m) = window_handle a

text_eq-digits : (b m n : ℕ) → 1 < b → b ≤ 16 → text_eq (digits b m) (digits b n) ≡ (m == n)
text_eq-digits b m n lo hi = elim (Bool-cases (m == n)) [
  | inl e ↦
      let same : m ≡ n = ground arith in
      ap (λ k. text_eq (digits b m) (digits b k)) (sym same) ∙ text_eq_refl (digits b m) ∙ sym e
  | inr e ↦ elim (Bool-cases (text_eq (digits b m) (digits b n))) [
    | inr f ↦ f ∙ sym e
    | inl f ↦
        let same : m ≡ n =
          digits-injective b m n lo hi (text_eq_sound (digits b m) (digits b n) f) in
        absurd (ground arith)
  ]
]

-- A `pid:` selector made of a process number picks exactly the mapped windows of that process, and an
-- `address:` selector as `window_address` writes it picks exactly the mapped window at that address.
pub selector-exact :
    (regex : Text → Text → Bool) (d : Desktop) (a b n p : ℕ) (w : Window)
    → w.mapped ≡ true
    → w.pid ≡ pos n
    → (window_matches_selector regex (codes "pid:" ++ decimal (pos p)) d a w ≡ (n == p))
      × (window_matches_selector regex (codes "address:" ++ address_text b) d a w ≡ (a == b))
unfolding window_matches_selector matches_body float_part strip has_prefix text_eq decimal
    address_text
selector-exact regex d a b n p w m q = (
  rw (m, q) (and_true (text_eq-digits 10 n p (omega arith) (omega arith))),
  rw m (and_true (text_eq-digits 16 a b (omega arith) (omega arith))),
)
