-- ===== src/Notification/Reading.antt =====
-- Adding a notification from a property list: `hlNotificationAdd` of cpp/Notification.cpp.
use hyprscheme.Base.{
  ℕ, suc, Bool, false, not, ◌||◌, Option, none, some, [], ◌∷◌, ◌++◌, if◌then◌else◌, Text, codes,
  text_eq, is_empty,
}
use hyprscheme.Scm.{Scm, pair, is_string, datum_to_str}
use hyprscheme.Scm.Reads.{Read, read, refused, read_raised, number_of}
use hyprscheme.Notification.Store.{Icons, Numbers, Note, Notes, icon_from_scheme, color_from_number}

-- The fields read so far.
pub record Draft : Type 0 where
  pub text : Text
  pub timeout : ℕ
  pub font_size : ℕ
  pub icon : ℕ
  pub color : ℕ

-- A draft, an error text, or the Scheme error of a key that is no string and no symbol.
pub data Reading : Type 0 where
  drafted : Draft → Reading
  bad_field : Text → Reading
  raised : Reading

abbrev pub from_read : Read ℕ → (ℕ → Reading) → Reading
from_read (read x) f = f x
from_read (refused why) f = bad_field why
from_read read_raised f = raised

abbrev pub bad_icon_field : Text
bad_icon_field =
    codes
      "hl-notification-add!: bad 'icon (expected none/warn/info/hint/error/confused/ok or an id 0-6)"

abbrev pub bad_color_field : Text
bad_color_field = codes "hl-notification-add!: bad 'color (expected a 0xAARRGGBB integer)"

abbrev pub text_in : Scm → Text
text_in (Scm.string t) = t
text_in _ = []

module _ (icons : Icons) (numbers : Numbers) where
  open numbers use {reals, below_zero, above_zero, color_of, minus_one, thirteen}

  unfoldable pub read_timeout : Scm → Draft → Reading
  unfolding number_of
  read_timeout v d =
      from_read (number_of reals (codes "hl-notification-add!: 'timeout must be a number (ms)") v)
        (λ x.
          if below_zero x
          then bad_field (codes "hl-notification-add!: 'timeout must be >= 0")
          else drafted (record d { timeout = x }))

  unfoldable pub read_font_size : Scm → Draft → Reading
  unfolding number_of
  read_font_size v d =
      from_read (number_of reals (codes "hl-notification-add!: 'font-size must be a number") v)
        (λ x.
          if not (above_zero x)
          then bad_field (codes "hl-notification-add!: 'font-size must be > 0")
          else drafted (record d { font_size = x }))

  unfoldable pub read_icon : Scm → Draft → Reading
  unfolding icon_from_scheme
  read_icon v d =
      from_read (icon_from_scheme icons reals bad_icon_field v)
        (λ i. drafted (record d { icon = i }))

  unfoldable pub read_color : Scm → Draft → Reading
  unfolding color_from_number
  read_color v d =
      from_read (color_from_number numbers bad_color_field v)
        (λ c. drafted (record d { color = c }))

  unfoldable pub read_note_field : Text → Scm → Draft → Reading
  read_note_field k v d =
      if text_eq k (codes "text")
      then (if is_string v
          then drafted (record d { text = text_in v })
          else bad_field (codes "hl-notification-add!: 'text must be a string"))
      else if text_eq k (codes "timeout")
          || (text_eq k (codes "duration") || text_eq k (codes "time"))
      then read_timeout v d
      else if text_eq k (codes "icon")
      then read_icon v d
      else if text_eq k (codes "color")
      then read_color v d
      else if text_eq k (codes "font-size")
      then read_font_size v d
      else bad_field (codes "hl-notification-add!: unknown field '" ++ (k ++ codes "'"))

  unfoldable pub read_note : Scm → Draft → Reading
  read_note (pair k (pair v rest)) d = elim (datum_to_str k) [
    | none ↦ raised
    | some key ↦ elim (read_note_field key v d) [
      | drafted e ↦ read_note rest e
      | bad_field why ↦ bad_field why
      | raised ↦ raised
    ]
  ]
  read_note _ d = drafted d

  abbrev pub blank : Draft
  blank = record {
    text = [];
    timeout = minus_one;
    font_size = thirteen;
    icon = icons.icon_none;
    color = color_of 0;
  }

  abbrev pub note_of : Draft → Note
  note_of d = record {
    text = d.text;
    color = d.color;
    timeout = d.timeout;
    icon = d.icon;
    font_size = d.font_size;
    locks = 0;
    elapsed = 0;
    age = 0;
  }

  -- The notification of a draft, if the draft has what is required and the overlay `gives` one: the
  -- answer is a new handle to it.
  unfoldable pub add_draft : Bool → ℕ → Draft → Notes → Notes × Option ℕ
  add_draft gives handle d s =
      if is_empty d.text
      then (record s { error = codes "hl-notification-add!: 'text is required" }, none)
      else if below_zero d.timeout
      then (record s { error = codes "hl-notification-add!: 'timeout is required" }, none)
      else if not gives
      then (s, none)
      else (
        record s {
          live = (s.next, note_of d) ∷ s.live;
          handles = (handle, record { note = s.next; paused = false }) ∷ s.handles;
          next = suc s.next;
        },
        some s.next,
      )

  unfoldable pub add_reading : Bool → ℕ → Reading → Notes → Notes × Option ℕ
  unfolding add_draft
  add_reading gives handle raised s = (s, none)
  add_reading gives handle (bad_field why) s = (record s { error = why }, none)
  add_reading gives handle (drafted d) s = add_draft gives handle d s

  -- `gives` is whether the overlay gives a notification; a Scheme error adds none either.
  unfoldable pub notification_add : Bool → Bool → ℕ → Scm → Notes → Notes × Option ℕ
  unfolding read_note add_reading
  notification_add up gives handle fields s =
      if not up then (s, none) else add_reading gives handle (read_note fields blank) s
