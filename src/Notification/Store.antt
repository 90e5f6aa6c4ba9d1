-- ===== src/Notification/Store.antt =====
-- What cpp/Notification.cpp works on. A double is its bit pattern; what the code asks of doubles and the
-- compositor's icons are parameters.
use hyprscheme.Base.{
  ℕ, Bool, not, ◌||◌, ◌&&◌, Option, none, some, List, if◌then◌else◌, Text, codes, text_eq, leb,
}
use hyprscheme.Base.Int.{ℤ, pos, negsuc, fits_int64}
use hyprscheme.Scm.{Scm}
use hyprscheme.Scm.Reads.{Read, read, refused, read_raised, then_read, Reals, unsigned_of}

pub record Icons : Type 0 where
  pub icon_warning : ℕ
  pub icon_info : ℕ
  pub icon_hint : ℕ
  pub icon_error : ℕ
  pub icon_confused : ℕ
  pub icon_ok : ℕ
  pub icon_none : ℕ

-- `minus_one` and `thirteen` are the two constants, `color_of` the colour of a 64-bit number, `hex_of` the
-- number of a colour.
pub record Numbers : Type 0 where
  pub reals : Reals
  pub below_zero : ℕ → Bool
  pub above_zero : ℕ → Bool
  pub minus_one : ℕ
  pub thirteen : ℕ
  pub color_of : ℕ → ℕ
  pub hex_of : ℕ → ℕ

-- A notification of the compositor's overlay, with how often it is locked against running out, and the
-- doubles of the time that it has run and of its age.
pub record Note : Type 0 where
  pub text : Text
  pub color : ℕ
  pub timeout : ℕ
  pub icon : ℕ
  pub font_size : ℕ
  pub locks : ℕ
  pub elapsed : ℕ
  pub age : ℕ

-- `SNotificationHandle`.
pub record NoteHandle : Type 0 where
  pub note : ℕ
  pub paused : Bool

-- The live notifications by number, the newest first, the handles by address, the notifications that the
-- overlay was asked to dismiss, and `g_configError`.
pub record Notes : Type 0 where
  pub live : List (ℕ × Note)
  pub handles : List (ℕ × NoteHandle)
  pub next : ℕ
  pub dismissed : List ℕ
  pub error : Text

abbrev pub done : ℤ
done = pos 0

abbrev pub not_up : ℤ
not_up = negsuc 0

abbrev pub rejected : ℤ
rejected = negsuc 1

unfoldable pub icon_from_str : Icons → Text → Option ℕ
icon_from_str icons t =
    if text_eq t (codes "warning") || text_eq t (codes "warn")
    then some icons.icon_warning
    else if text_eq t (codes "info")
    then some icons.icon_info
    else if text_eq t (codes "hint")
    then some icons.icon_hint
    else if text_eq t (codes "error") || text_eq t (codes "err")
    then some icons.icon_error
    else if text_eq t (codes "confused") || text_eq t (codes "question")
    then some icons.icon_confused
    else if text_eq t (codes "ok")
    then some icons.icon_ok
    else if text_eq t (codes "none")
    then some icons.icon_none
    else none

abbrev pub text_icon : Icons → Text → Text → Read ℕ
text_icon icons why t = elim (icon_from_str icons t) [ none ↦ refused why | some i ↦ read i ]

-- A string, or a number among the icons. `why` is the text of the refusal.
unfoldable pub icon_from_scheme : Icons → Reals → Text → Scm → Read ℕ
unfolding icon_from_str
icon_from_scheme icons reals why (Scm.string t) = text_icon icons why t
icon_from_scheme icons reals why (Scm.int (pos n)) =
    if not (fits_int64 (pos n))
    then read_raised
    else if leb icons.icon_warning n && leb n icons.icon_none
    then read n
    else refused why
icon_from_scheme icons reals why (Scm.int (negsuc n)) =
    if not (fits_int64 (negsuc n)) then read_raised else refused why
icon_from_scheme icons reals why (Scm.flonum bits) =
    if reals.is_whole bits then read_raised else refused why
icon_from_scheme icons reals why _ = refused why

-- A colour is a number.
unfoldable pub color_from_number : Numbers → Text → Scm → Read ℕ
unfolding unsigned_of
color_from_number numbers why v =
    then_read (unsigned_of numbers.reals why v) (λ n. read (numbers.color_of n))
