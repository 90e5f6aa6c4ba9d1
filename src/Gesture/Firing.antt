-- ===== src/Gesture/Firing.antt =====
-- What a custom gesture of cpp/Gesture.cpp applies its callbacks to.
use hyprscheme.Base.{
  ℕ, suc, ◌-◌, ◌^◌, ltb, ◌≡◌, refl, ap, ◌∙◌, Bool, true, false, Option, none, some, if◌then◌else◌,
  Text, codes, text_eq, Bool-cases, inl, inr,
}
use hyprscheme.Base.Int.{ℤ, pos, negsuc}
use hyprscheme.Scm.{Scm, list_of, is_nil, is_false}
use hyprscheme.Gesture.{
  Motion, Custom, Made, scripted, make_gesture, custom, gesture_arg_get, gesture_update,
  gesture_event_plist, moving_plist, nil_if_false, fires, type_of, field, as_int,
}

-- A field of an event's plist, or #f.
abbrev pub pinch_only : Motion → ℕ → Scm
pinch_only e bits = if e.is_swipe then Scm.bool false else Scm.flonum bits

-- The name of a motion, and the number that 32 bits stand for with a sign.
abbrev pub motion_name : Motion → Text
motion_name e = if e.is_swipe then codes "swipe" else codes "pinch"

abbrev pub signed_32 : ℕ → ℤ
signed_32 n = if ltb n (2 ^ 31) then pos n else negsuc (2 ^ 32 - suc n)

moving_plist-fields :
    (phase dir : Text) (e : Motion)
    → let l = moving_plist phase e dir in
      (gesture_arg_get (codes "phase") l ≡ Scm.string phase)
      × (gesture_arg_get (codes "direction") l ≡ Scm.string dir)
      × (gesture_arg_get (codes "type") l ≡ Scm.string (type_of e))
      × (gesture_arg_get (codes "time-ms") l ≡ Scm.int (as_int e.time_ms))
      × (gesture_arg_get (codes "fingers") l ≡ Scm.int e.fingers)
      × (gesture_arg_get (codes "delta") l ≡ Scm.pair (Scm.flonum e.delta_x) (Scm.flonum e.delta_y))
      × (gesture_arg_get (codes "scale") l ≡ pinch_only e e.scale)
      × (gesture_arg_get (codes "rotation") l ≡ pinch_only e e.rotation)
      × (gesture_arg_get (codes "cancelled") l ≡ Scm.bool false)
unfolding moving_plist gesture_event_plist gesture_arg_get field list_of text_eq
moving_plist-fields phase dir e = elim (Bool-cases e.is_swipe) [
  | inl s ↦ rw s (refl, refl, refl, refl, refl, refl, refl, refl, refl)
  | inr s ↦ rw s (refl, refl, refl, refl, refl, refl, refl, refl, refl)
]

-- The update callback of a custom gesture.
abbrev pub update_of : Made → Scm
update_of (scripted g) = g.on_update
update_of _ = Scm.nil

-- A custom gesture made of a plist that has an update callback applies it, with the interpreter up, to
-- a plist in which all nine fields read back: the phase, the direction, whether it is a swipe or a pinch,
-- the time as a signed 32-bit number, the fingers, the two coordinates of the delta, the scale and the
-- rotation of a pinch only, and no cancelled. One made of a plist without an update callback applies
-- nothing.
pub make_gesture-update :
    (one : ℕ) (of_ratio : ℤ → ℕ → ℕ) (print : ℕ → Text) (l thunk : Scm) (dir : Text) (e : Motion)
    → gesture_arg_get (codes "update") l ≡ thunk
    → is_nil thunk ≡ false
    → (g : Custom) × (fields : Scm) × (make_gesture one of_ratio print custom l dir ≡ scripted g)
      × (gesture_update true e g ≡ (if is_false thunk then none else some (thunk, fields)))
      × (gesture_arg_get (codes "phase") fields ≡ Scm.string (codes "update"))
      × (gesture_arg_get (codes "direction") fields ≡ Scm.string dir)
      × (gesture_arg_get (codes "type") fields ≡ Scm.string (motion_name e))
      × (gesture_arg_get (codes "time-ms") fields ≡ Scm.int (signed_32 e.time_ms))
      × (gesture_arg_get (codes "fingers") fields ≡ Scm.int e.fingers)
      × (gesture_arg_get (codes "delta") fields
          ≡ Scm.pair (Scm.flonum e.delta_x) (Scm.flonum e.delta_y))
      × (gesture_arg_get (codes "scale") fields ≡ pinch_only e e.scale)
      × (gesture_arg_get (codes "rotation") fields ≡ pinch_only e e.rotation)
      × (gesture_arg_get (codes "cancelled") fields ≡ Scm.bool false)
unfolding make_gesture gesture_update
make_gesture-update one of_ratio print l thunk dir e given used =
    let read_back = moving_plist-fields (codes "update") dir e in
    (
      record {
        on_start = nil_if_false (gesture_arg_get (codes "start") l);
        on_update = nil_if_false (gesture_arg_get (codes "update") l);
        on_finish = nil_if_false (gesture_arg_get (codes "finish") l);
        direction = dir;
      },
      moving_plist (codes "update") e dir,
      refl,
      ap applied given ∙ applied_once (is_false thunk) refl,
      read_back.0,
      read_back.1,
      read_back.2,
      read_back.3,
      read_back.4,
      read_back.5,
      read_back.6,
      read_back.7,
      read_back.8,
    )
  where
    applied : Scm → Option (Scm × Scm)
    applied v = fires true (nil_if_false v) (moving_plist (codes "update") e dir)

    applied_once :
        (b : Bool)
        → is_false thunk ≡ b
        → applied thunk
          ≡ (if is_false thunk then none else some (thunk, moving_plist (codes "update") e dir))
    applied_once true f = rw f refl
    applied_once false f = rw (f, used) refl
