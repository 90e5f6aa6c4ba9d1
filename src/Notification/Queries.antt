-- ===== src/Notification/Queries.antt =====
-- The reads of cpp/Notification.cpp, and the notifications that are shown without a handle. A handle is its
-- address; another argument is a Scheme error.
use hyprscheme.Base.{
  ℕ, suc, ◌==◌, Bool, true, false, not, Option, none, some, List, [], ◌∷◌, ◌++◌, if◌then◌else◌,
  Text, codes, is_empty,
}
use hyprscheme.Base.Int.{pos}
use hyprscheme.Scm.{Scm, Family, is_false, list_of}
use hyprscheme.Scm.Reads.{Read, read, refused, read_raised}
use hyprscheme.Desktop.{Outcome, raised, answers, false_value}
use hyprscheme.Notification.Store.{
  Icons, Numbers, Note, NoteHandle, Notes, icon_from_str, color_from_number,
}
use hyprscheme.Notification.Setters.{note_behind}

-- What a getter reads of the live notification behind a handle, or #f.
unfoldable pub note_get : Bool → (Note → Scm) → ℕ → Notes → Scm
unfolding note_behind
note_get up get h s =
    if not up
    then false_value
    else elim (note_behind h s) [ none ↦ false_value | some (id, n) ↦ get n ]

unfoldable pub notification_text : Bool → ℕ → Notes → Scm
unfolding note_get
notification_text up h s = note_get up (λ n. Scm.string n.text) h s

unfoldable pub notification_timeout : Bool → ℕ → Notes → Scm
unfolding note_get
notification_timeout up h s = note_get up (λ n. Scm.flonum n.timeout) h s

unfoldable pub notification_color : Numbers → Bool → ℕ → Notes → Scm
unfolding note_get
notification_color numbers up h s = note_get up (λ n. Scm.int (pos (numbers.hex_of n.color))) h s

unfoldable pub notification_icon : Bool → ℕ → Notes → Scm
unfolding note_get
notification_icon up h s = note_get up (λ n. Scm.int (pos n.icon)) h s

unfoldable pub notification_font_size : Bool → ℕ → Notes → Scm
unfolding note_get
notification_font_size up h s = note_get up (λ n. Scm.flonum n.font_size) h s

unfoldable pub notification_elapsed : Bool → ℕ → Notes → Scm
unfolding note_get
notification_elapsed up h s = note_get up (λ n. Scm.flonum n.elapsed) h s

unfoldable pub notification_age : Bool → ℕ → Notes → Scm
unfolding note_get
notification_age up h s = note_get up (λ n. Scm.flonum n.age) h s

unfoldable pub notification_alive : Bool → ℕ → Notes → Scm
unfolding note_get
notification_alive up h s = note_get up (λ n. Scm.bool true) h s

unfoldable pub notification_paused : Bool → ℕ → Notes → Scm
unfolding note_get
notification_paused up h s = note_get up (λ n. Scm.bool (not (n.locks == 0))) h s

abbrev pub same_note : Option (ℕ × Note) → Option (ℕ × Note) → Bool
same_note (some (a, n)) (some (b, m)) = a == b
same_note _ _ = false

unfoldable pub notification_same : Bool → ℕ → ℕ → Notes → Scm
unfolding note_behind
notification_same up a b s =
    if not up then false_value else Scm.bool (same_note (note_behind a s) (note_behind b s))

-- Each notification gets a new handle, at the addresses from `base` on.
unfoldable pub new_handles : ℕ → List (ℕ × Note) → List (ℕ × NoteHandle)
new_handles base [] = []
new_handles base ((id, n) ∷ live) =
    (base, record { note = id; paused = false }) ∷ new_handles (suc base) live

abbrev pub handle_values : List (ℕ × NoteHandle) → List Scm
handle_values [] = []
handle_values ((h, k) ∷ hs) = Scm.handle Family.notification h ∷ handle_values hs

abbrev pub listed : List Scm → Scm
listed [] = false_value
listed (v ∷ vs) = list_of (v ∷ vs)

unfoldable pub notification_list : Bool → ℕ → Notes → Notes × Scm
unfolding new_handles
notification_list up base s = if not up then (s, false_value) else (
  record s { handles = new_handles base s.live ++ s.handles },
  listed (handle_values (new_handles base s.live)),
)

-- `string->color`: `parse` is the compositor's parser.
unfoldable pub string_color : Numbers → (Text → Option ℕ) → Scm → Scm
string_color numbers parse (Scm.string t) = elim (parse t) [
  | none ↦ false_value
  | some c ↦ Scm.int (pos (numbers.hex_of (numbers.color_of c)))
]
string_color numbers parse _ = false_value

abbrev pub or_empty : Option Text → Text
or_empty none = []
or_empty (some t) = t

-- No name is the icon `none`, and a name that is none of the icons' is refused.
abbrev pub icon_named : Icons → Text → Option ℕ
icon_named icons t = if is_empty t then some icons.icon_none else icon_from_str icons t

abbrev pub bad_notify_color : Text
bad_notify_color = codes "hl-notify!: bad 'color (expected a 0xAARRGGBB integer)"

-- #f is the icon's own colour.
abbrev pub notify_color : Numbers → Scm → Read ℕ
notify_color numbers v =
    if is_false v then read (numbers.color_of 0) else color_from_number numbers bad_notify_color v

abbrev pub notify_with : Text → ℕ → ℕ → ℕ → Read ℕ → Notes → Outcome (Notes × Scm)
notify_with t ms size icon read_raised s = raised
notify_with t ms size icon (refused why) s = answers (record s { error = why }, false_value)
notify_with t ms size icon (read c) s = answers (
  record s {
    live =
        (
          s.next,
          record {
            text = t;
            color = c;
            timeout = ms;
            icon = icon;
            font_size = size;
            locks = 0;
            elapsed = 0;
            age = 0;
          },
        )
        ∷ s.live;
    next = suc s.next;
  },
  Scm.bool true,
)

unfoldable pub notify :
    Icons → Numbers → Bool → Option Text → ℕ → Option Text → Scm → ℕ → Notes → Outcome (Notes × Scm)
unfolding icon_from_str color_from_number
notify icons numbers up text ms icon color size s =
    if not up then answers (s, false_value) else elim (icon_named icons (or_empty icon)) [
      | none ↦ answers (
        record s {
          error = codes "hl-notify!: bad icon (expected none/warn/info/hint/error/confused/ok)";
        },
        false_value,
      )
      | some i ↦ notify_with (or_empty text) ms size i (notify_color numbers color) s
    ]
