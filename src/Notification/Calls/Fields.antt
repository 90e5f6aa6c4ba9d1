-- ===== src/Notification/Calls/Fields.antt =====
-- The entry points of cpp/Notification.cpp that read an icon, a colour or a number leave a sound state
-- sound.
use hyprscheme.Base.{
  ℕ, ◌≡◌, refl, Bool, not, Option, none, some, if_either, find, arith, Text, codes, is_empty,
  Bool-cases, inl, inr,
}
use hyprscheme.Base.Int.{ℤ, pos, negsuc}
use hyprscheme.Scm.{Scm}
use hyprscheme.Scm.Reads.{Read, read, refused, read_raised}
use hyprscheme.Desktop.{Outcome, raised, answers, false_value}
use hyprscheme.Notification.Store.{Icons, Numbers, Notes, icon_from_scheme, color_from_number}
use hyprscheme.Notification.Reading.{
  Reading, drafted, bad_field, Draft, read_note, blank, note_of, add_draft, add_reading,
  notification_add,
}
use hyprscheme.Notification.Setters.{
  set_note, notification_text_set, notification_timeout_set, notification_font_size_set,
  notification_color_set, notification_icon_set, bad_color, bad_icon,
}
use hyprscheme.Notification.Queries.{notify, notify_with, notify_color, icon_named, or_empty}
use hyprscheme.Notification.Sound.{IsSound, set_note-IsSound}
use hyprscheme.Notification.Calls.{added-IsSound, handled-IsSound, error-IsSound, Leaves, added}

module _ (icons : Icons) (numbers : Numbers) where
  add_draft-IsSound :
      (gives : Bool) (h : ℕ) (d : Draft) (s : Notes)
      → find h s.handles ≡ none
      → IsSound s
      → IsSound (add_draft icons numbers gives h d s).0
  unfolding add_draft
  add_draft-IsSound gives h d s new v = elim (Bool-cases (is_empty d.text)) [
    | inl e ↦ rw (e, add_draft) (error-IsSound _ s v)
    | inr e ↦ elim (Bool-cases (numbers.below_zero d.timeout)) [
      | inl f ↦ rw (e, f, add_draft) (error-IsSound _ s v)
      | inr f ↦ elim (Bool-cases (not gives)) [
        | inl g ↦ rw (e, f, g, add_draft) v
        | inr g ↦
            rw (e, f, g, add_draft)
              (handled-IsSound h s.next (added s (note_of icons numbers d)) new (omega arith)
                (added-IsSound (note_of icons numbers d) s refl v))
      ]
    ]
  ]

  pub add-IsSound :
      (up gives : Bool) (h : ℕ) (fields : Scm) (s : Notes)
      → find h s.handles ≡ none
      → IsSound s
      → IsSound (notification_add icons numbers up gives h fields s).0
  unfolding notification_add add_reading
  add-IsSound up gives h fields s new v =
      if_either (λ (x : Notes × Option ℕ). IsSound x.0) (not up) (λ e. v)
        (λ e. by_reading (read_note icons numbers fields (blank icons numbers)))
    where
      by_reading : (r : Reading) → IsSound (add_reading icons numbers gives h r s).0
      by_reading (drafted d) = add_draft-IsSound gives h d s new v
      by_reading (bad_field why) = error-IsSound why s v
      by_reading Reading.raised = v

  pub notify-IsSound :
      (up : Bool) (text : Option Text) (ms : ℕ) (icon : Option Text) (color : Scm) (size : ℕ)
      (s : Notes)
      → IsSound s
      → Leaves (notify icons numbers up text ms icon color size s)
  unfolding notify
  notify-IsSound up text ms icon color size s v =
      if_either Leaves (not up) (λ e. v) (λ e. by_icon (icon_named icons (or_empty icon)))
    where
      by_color : (i : ℕ) (r : Read ℕ) → Leaves (notify_with (or_empty text) ms size i r s)
      by_color i (read c) =
          added-IsSound
            (record {
              text = or_empty text;
              color = c;
              timeout = ms;
              icon = i;
              font_size = size;
              locks = 0;
              elapsed = 0;
              age = 0;
            })
            s refl v
      by_color i (refused why) = error-IsSound why s v
      by_color i read_raised = tt

      by_icon :
          (o : Option ℕ)
          → Leaves (elim o as (λ x. Outcome (Notes × Scm)) [
            | none ↦ answers (
              record s {
                error =
                    codes "hl-notify!: bad icon (expected none/warn/info/hint/error/confused/ok)";
              },
              false_value,
            )
            | some i ↦ notify_with (or_empty text) ms size i (notify_color numbers color) s
          ])
      by_icon none =
          error-IsSound
            (codes "hl-notify!: bad icon (expected none/warn/info/hint/error/confused/ok)") s v
      by_icon (some i) = by_color i (notify_color numbers color)

  pub color_set-IsSound :
      (up : Bool) (h : ℕ) (c : Scm) (s : Notes)
      → IsSound s
      → Leaves (notification_color_set numbers up h c s)
  unfolding notification_color_set
  color_set-IsSound up h c s v =
      if_either Leaves (not up) (λ e. v) (λ e. by_color (color_from_number numbers bad_color c))
    where
      by_color :
          (r : Read ℕ)
          → Leaves (elim r as (λ x. Outcome (Notes × ℤ)) [
            | read_raised ↦ raised
            | refused why ↦ answers (record s { error = why }, negsuc 1)
            | read x ↦ answers (set_note h (λ n. record n { color = x }) s, pos 0)
          ])
      by_color read_raised = tt
      by_color (refused why) = error-IsSound why s v
      by_color (read x) = set_note-IsSound h (λ n. record n { color = x }) s (λ n. refl) v

  pub icon_set-IsSound :
      (up : Bool) (h : ℕ) (c : Scm) (s : Notes)
      → IsSound s
      → Leaves (notification_icon_set icons numbers up h c s)
  unfolding notification_icon_set
  icon_set-IsSound up h c s v =
      if_either Leaves (not up) (λ e. v)
        (λ e. by_icon (icon_from_scheme icons numbers.reals bad_icon c))
    where
      by_icon :
          (r : Read ℕ)
          → Leaves (elim r as (λ x. Outcome (Notes × ℤ)) [
            | read_raised ↦ raised
            | refused why ↦ answers (record s { error = why }, negsuc 1)
            | read x ↦ answers (set_note h (λ n. record n { icon = x }) s, pos 0)
          ])
      by_icon read_raised = tt
      by_icon (refused why) = error-IsSound why s v
      by_icon (read x) = set_note-IsSound h (λ n. record n { icon = x }) s (λ n. refl) v

  pub text_set-IsSound :
      (up : Bool) (h : ℕ) (t : Text) (s : Notes)
      → IsSound s
      → IsSound (notification_text_set up h t s).0
  unfolding notification_text_set
  text_set-IsSound up h t s v =
      if_either (λ (x : Notes × ℤ). IsSound x.0) (not up) (λ e. v)
        (λ e. set_note-IsSound h (λ n. record n { text = t }) s (λ n. refl) v)

  pub timeout_set-IsSound :
      (up : Bool) (h ms : ℕ) (s : Notes)
      → IsSound s
      → IsSound (notification_timeout_set numbers up h ms s).0
  unfolding notification_timeout_set
  timeout_set-IsSound up h ms s v = elim (Bool-cases up) [
    | inr e ↦ rw (e, notification_timeout_set) v
    | inl e ↦ elim (Bool-cases (numbers.below_zero ms)) [
      | inl f ↦ rw (e, f, notification_timeout_set) (error-IsSound _ s v)
      | inr f ↦
          rw (e, f, notification_timeout_set)
            (set_note-IsSound h (λ n. record n { timeout = ms }) s (λ n. refl) v)
    ]
  ]

  pub size_set-IsSound :
      (up : Bool) (h size : ℕ) (s : Notes)
      → IsSound s
      → IsSound (notification_font_size_set numbers up h size s).0
  unfolding notification_font_size_set
  size_set-IsSound up h size s v = elim (Bool-cases up) [
    | inr e ↦ rw (e, notification_font_size_set) v
    | inl e ↦ elim (Bool-cases (not (numbers.above_zero size))) [
      | inl f ↦ rw (e, f, notification_font_size_set) (error-IsSound _ s v)
      | inr f ↦
          rw (e, f, notification_font_size_set)
            (set_note-IsSound h (λ n. record n { font_size = size }) s (λ n. refl) v)
    ]
  ]
