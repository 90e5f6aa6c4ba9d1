-- ===== src/Gesture/Tests.antt =====
-- The theorems on gestures at a three-finger swipe with an update callback and at a recipe.
use hyprscheme.Base.{
  ℕ, ◌==◌, ◌≡◌, refl, sym, ap, ◌∙◌, true, false, none, some, [], ◌∷◌, if◌then◌else◌, codes, text_eq,
}
use hyprscheme.Base.Int.{ℤ, pos, negsuc}
use hyprscheme.Scm.{Scm, list_of, is_false}
use hyprscheme.Keys.Chord.{no_modifiers}
use hyprscheme.Exec.{mods_mask_from_tokens}
use hyprscheme.Gesture.{
  Maker, workspace_swipe, move, resize, close, scroll_move, float, fullscreen, special, cursor_zoom,
  custom, Motion, Custom, scripted, gesture_arg_get, make_gesture, gesture_update,
}
use hyprscheme.Gesture.Firing.{pinch_only, make_gesture-update}
use hyprscheme.Gesture.Makers.{maker_addr, scheme_gesture-maker_addr}
use hyprscheme.Gesture.Adding.{give, spec_of, Manager, Gestures, Call, scheme_gesture}

abbrev swipe : Motion
swipe = record {
  is_swipe = true;
  time_ms = 100;
  fingers = pos 3;
  delta_x = 7;
  delta_y = 8;
  scale = 1;
  rotation = 0;
  cancelled = false;
}

abbrev handler : Scm
handler = Scm.object 12

abbrev recipe_args : Scm
recipe_args = list_of (Scm.symbol (codes "update") ∷ handler ∷ [])

make_gesture-update_example :
    (g : Custom) × (fields : Scm) × (make_gesture 1
        (λ n k. 1)
        (λ n. [])
        custom
        recipe_args
        (codes "left")
      ≡ scripted g)
    × (gesture_update true swipe g ≡ (if is_false handler then none else some (handler, fields)))
    × (gesture_arg_get (codes "phase") fields ≡ Scm.string (codes "update"))
    × (gesture_arg_get (codes "direction") fields ≡ Scm.string (codes "left"))
    × (gesture_arg_get (codes "type") fields ≡ Scm.string (codes "swipe"))
    × (gesture_arg_get (codes "time-ms") fields ≡ Scm.int (pos 100))
    × (gesture_arg_get (codes "fingers") fields ≡ Scm.int (pos 3))
    × (gesture_arg_get (codes "delta") fields ≡ Scm.pair (Scm.flonum 7) (Scm.flonum 8))
    × (gesture_arg_get (codes "scale") fields ≡ pinch_only swipe 1)
    × (gesture_arg_get (codes "rotation") fields ≡ pinch_only swipe 0)
    × (gesture_arg_get (codes "cancelled") fields ≡ Scm.bool false)
unfolding gesture_arg_get list_of text_eq
make_gesture-update_example =
    make_gesture-update 1 (λ n k. 1) (λ n. []) recipe_args handler (codes "left") swipe refl refl

abbrev manager : Manager
manager = record {
  dir_for = λ t. some 2;
  dir_name = λ d. codes "left";
  add_refusal = λ spec made. none;
  remove_refusal = λ spec. none;
  address = λ m. pos 64;
  print = λ n. [];
  one = 1;
  of_ratio = λ n k. 1;
  is_whole = λ n. false;
}

abbrev call : Call
call = record {
  fingers = pos 3;
  direction = some (codes "left");
  mods = Scm.nil;
  scale = 1;
  disable_inhibit = false;
}

abbrev no_gestures : Gestures
no_gestures = record { added = []; removed = []; error = [] }

abbrev swipe_recipe : Scm
swipe_recipe = Scm.pair (Scm.int (pos 64)) Scm.nil

abbrev apart_at : Maker → ℕ
apart_at workspace_swipe = 0
apart_at move = 1
apart_at resize = 2
apart_at close = 3
apart_at scroll_move = 4
apart_at float = 5
apart_at fullscreen = 6
apart_at special = 7
apart_at cursor_zoom = 8
apart_at custom = 9

abbrev maker_at : ℕ → Maker
maker_at n =
    if n == 0
    then workspace_swipe
    else if n == 1
    then move
    else if n == 2
    then resize
    else if n == 3
    then close
    else if n == 4
    then scroll_move
    else if n == 5
    then float
    else if n == 6
    then fullscreen
    else if n == 7
    then special
    else if n == 8
    then cursor_zoom
    else custom

maker_at-apart_at : (m : Maker) → maker_at (apart_at m) ≡ m
maker_at-apart_at workspace_swipe = refl
maker_at-apart_at move = refl
maker_at-apart_at resize = refl
maker_at-apart_at close = refl
maker_at-apart_at scroll_move = refl
maker_at-apart_at float = refl
maker_at-apart_at fullscreen = refl
maker_at-apart_at special = refl
maker_at-apart_at cursor_zoom = refl
maker_at-apart_at custom = refl

abbrev size_of_pos : ℤ → ℕ
size_of_pos (pos n) = n
size_of_pos (negsuc n) = n

abbrev spread : Manager
spread = record manager { address = λ m. pos (apart_at m) }

spread_apart : (m n : Maker) → spread.address m ≡ spread.address n → m ≡ n
spread_apart m n e =
    sym (maker_at-apart_at m) ∙ ap (λ a. maker_at (size_of_pos a)) e ∙ maker_at-apart_at n

scheme_gesture-maker_addr_example :
    scheme_gesture true
      (some spread)
      (Scm.pair (maker_addr spread.address special) recipe_args)
      call
      no_gestures
    ≡ give spread
        (spec_of call 2 no_modifiers)
        (make_gesture 1 (λ n k. 1) (λ n. []) special recipe_args (codes "left"))
        no_gestures
unfolding mods_mask_from_tokens
scheme_gesture-maker_addr_example =
    scheme_gesture-maker_addr spread call no_gestures special recipe_args 2 no_modifiers
      spread_apart refl refl refl
