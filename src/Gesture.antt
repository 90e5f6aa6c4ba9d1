-- ===== src/Gesture.antt =====
-- Gestures: cpp/Gesture.cpp. The compositor's gesture manager is a parameter where it answers, and a log
-- of what it is given, the newest first. A double is its bit pattern.
pub mod Adding
pub mod Firing
pub mod Makers
mod Tests
use hyprscheme.Base.{
  ℕ, suc, ◌-◌, ◌^◌, ltb, ◌==◌, Bool, true, false, not, ◌||◌, ◌&&◌, Option, none, some, List, [],
  ◌∷◌, ◌++◌, if◌then◌else◌, Text, codes, text_eq,
}
use hyprscheme.Base.Int.{ℤ, pos, negsuc}
use hyprscheme.Scm.{Scm, list_of, is_symbol, is_string, is_nil, is_false}
use hyprscheme.Keys.Chord.{Mask}
use hyprscheme.Exec.{ModsResult, mask_of, bad_mods, mods_mask_from_tokens}
use hyprscheme.Interp.{Word}

-- A swipe or a pinch as the compositor describes it.
pub record Motion : Type 0 where
  pub is_swipe : Bool
  pub time_ms : ℕ
  pub fingers : ℤ
  pub delta_x : ℕ
  pub delta_y : ℕ
  pub scale : ℕ
  pub rotation : ℕ
  pub cancelled : Bool

-- `(int)` of a 32-bit unsigned number.
abbrev pub as_int : ℕ → ℤ
as_int n = if ltb n (2 ^ 31) then pos n else negsuc (2 ^ 32 - suc n)

-- The fields of `gestureEventPlist`: a field that is left out is `none`.
unfoldable pub field : Text → Option Scm → List Scm
field name none = []
field name (some v) = Scm.symbol name ∷ v ∷ []

-- #f and the empty list leave a field out.
abbrev pub unless_false : Scm → Option Scm
unless_false v = if is_false v then none else some v

abbrev pub unless_null : Scm → Option Scm
unless_null v = if is_nil v then none else some v

unfoldable pub gesture_event_plist : Text → Text → Text → ℕ → Option ℤ → Scm → Scm → Scm → Scm → Scm
unfolding field list_of
gesture_event_plist phase dir type time_ms fingers delta scale rotation cancelled = list_of (
    field (codes "phase") (some (Scm.string phase))
    ++ (field (codes "direction") (some (Scm.string dir))
        ++ (field (codes "type") (some (Scm.string type))
            ++ (field (codes "time-ms") (some (Scm.int (as_int time_ms)))
                ++ (field (codes "fingers")
                      (elim fingers [ none ↦ none | some n ↦ some (Scm.int n) ])
                    ++ (field (codes "delta") (unless_null delta)
                        ++ (field (codes "scale") (unless_false scale)
                            ++ (field (codes "rotation") (unless_false rotation)
                                ++ field (codes "cancelled") (unless_false cancelled)))))))))

abbrev pub type_of : Motion → Text
type_of e = if e.is_swipe then codes "swipe" else codes "pinch"

-- `fireSchemeGestureEvent` of a beginning or an update, and of an end.
unfoldable pub moving_plist : Text → Motion → Text → Scm
unfolding gesture_event_plist
moving_plist phase e dir =
    gesture_event_plist phase dir (type_of e) e.time_ms (some e.fingers)
      (Scm.pair (Scm.flonum e.delta_x) (Scm.flonum e.delta_y))
      (if e.is_swipe then Scm.bool false else Scm.flonum e.scale)
      (if e.is_swipe then Scm.bool false else Scm.flonum e.rotation) (Scm.bool false)

unfoldable pub end_plist : Motion → Text → Scm
unfolding gesture_event_plist
end_plist e dir =
    gesture_event_plist (codes "end") dir (type_of e) e.time_ms none Scm.nil (Scm.bool false)
      (Scm.bool false) (Scm.bool e.cancelled)

-- A custom gesture: the empty list is a callback that is not used.
pub record Custom : Type 0 where
  pub on_start : Scm
  pub on_update : Scm
  pub on_finish : Scm
  pub direction : Text

-- What is applied, if anything: the callback and its arguments.
abbrev pub fires : Bool → Scm → Scm → Option (Scm × Scm)
fires up thunk arguments =
    if is_nil thunk then none else (if not up then none else some (thunk, arguments))

unfoldable pub gesture_begin : Bool → Motion → Custom → Option (Scm × Scm)
unfolding moving_plist
gesture_begin up e g = fires up g.on_start (moving_plist (codes "start") e g.direction)

unfoldable pub gesture_update : Bool → Motion → Custom → Option (Scm × Scm)
unfolding moving_plist
gesture_update up e g = fires up g.on_update (moving_plist (codes "update") e g.direction)

unfoldable pub gesture_end : Bool → Motion → Custom → Option (Scm × Scm)
unfolding end_plist
gesture_end up e g = fires up g.on_finish (end_plist e g.direction)

abbrev pub is_key : Text → Scm → Bool
is_key key (Scm.symbol s) = text_eq s key
is_key key _ = false

-- `gestureArgGet`.
unfoldable pub gesture_arg_get : Text → Scm → Scm
gesture_arg_get key (Scm.pair k (Scm.pair v rest)) =
    let further = gesture_arg_get key rest in if is_key key k then v else further
gesture_arg_get key _ = Scm.bool false

abbrev pub text_or_empty : Scm → Text
text_or_empty (Scm.symbol s) = s
text_or_empty (Scm.string s) = s
text_or_empty _ = []

unfoldable pub gesture_arg_str : Text → Scm → Text
unfolding gesture_arg_get
gesture_arg_str key l = text_or_empty (gesture_arg_get key l)

-- A real number that is no exact integer reads as its double, anything else as `one`, the pattern of 1.0.
abbrev pub double_or : ℕ → (ℤ → ℕ → ℕ) → Scm → ℕ
double_or one of_ratio (Scm.flonum bits) = bits
double_or one of_ratio (Scm.ratio n k) = of_ratio n k
double_or one of_ratio _ = one

unfoldable pub gesture_arg_double : ℕ → (ℤ → ℕ → ℕ) → Text → Scm → ℕ
unfolding gesture_arg_get
gesture_arg_double one of_ratio key l = double_or one of_ratio (gesture_arg_get key l)

-- The ten makers, in the order of `gestureMakerFromAddress`, and what they make. `print` formats a
-- double.
pub data Maker : Type 0 where
  workspace_swipe move resize close scroll_move float fullscreen special cursor_zoom custom : Maker

pub data Made : Type 0 where
  trivial : Maker → Made
  with_mode : Maker → Text → Made
  zoomed : Text → Text → Made
  scripted : Custom → Made

abbrev pub nil_if_false : Scm → Scm
nil_if_false v = if is_false v then Scm.nil else v

unfoldable pub make_gesture : ℕ → (ℤ → ℕ → ℕ) → (ℕ → Text) → Maker → Scm → Text → Made
unfolding gesture_arg_str gesture_arg_double gesture_arg_get
make_gesture one of_ratio print workspace_swipe l dir = trivial workspace_swipe
make_gesture one of_ratio print move l dir = trivial move
make_gesture one of_ratio print resize l dir = trivial resize
make_gesture one of_ratio print close l dir = trivial close
make_gesture one of_ratio print scroll_move l dir = trivial scroll_move
make_gesture one of_ratio print float l dir = with_mode float (gesture_arg_str (codes "mode") l)
make_gesture one of_ratio print fullscreen l dir =
    with_mode fullscreen (gesture_arg_str (codes "mode") l)
make_gesture one of_ratio print special l dir = with_mode special (gesture_arg_str (codes "name") l)
make_gesture one of_ratio print cursor_zoom l dir =
    zoomed (print (gesture_arg_double one of_ratio (codes "zoom") l))
      (gesture_arg_str (codes "mode") l)
make_gesture one of_ratio print custom l dir = scripted (record {
  on_start = nil_if_false (gesture_arg_get (codes "start") l);
  on_update = nil_if_false (gesture_arg_get (codes "update") l);
  on_finish = nil_if_false (gesture_arg_get (codes "finish") l);
  direction = dir;
})

abbrev pub all_makers : List Maker
all_makers =
    workspace_swipe ∷ move ∷ resize ∷ close ∷ scroll_move ∷ float ∷ fullscreen ∷ special
    ∷ cursor_zoom ∷ custom ∷ []

abbrev pub same_number : ℤ → ℤ → Bool
same_number (pos m) (pos n) = m == n
same_number (pos m) (negsuc n) = false
same_number (negsuc m) (pos n) = false
same_number (negsuc m) (negsuc n) = m == n

-- The search among the makers' addresses.
unfoldable pub maker_among : (Maker → ℤ) → ℤ → List Maker → Option Maker
maker_among address a [] = none
maker_among address a (m ∷ ms) =
    let rest = maker_among address a ms in if same_number a (address m) then some m else rest

unfoldable pub maker_from_address : (Maker → ℤ) → ℤ → Option Maker
unfolding maker_among
maker_from_address address a = maker_among address a all_makers
