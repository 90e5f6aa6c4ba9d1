-- ===== src/Notification/Setters.antt =====
-- The setters of notifications and the end of a handle: cpp/Notification.cpp, cpp/Handles.hpp.
use hyprscheme.Base.{
  ℕ, suc, ◌-◌, Bool, true, false, not, ◌&&◌, Option, none, some, ◌∷◌, if◌then◌else◌, Text, codes,
  find, assign, erase,
}
use hyprscheme.Base.Int.{ℤ}
use hyprscheme.Scm.{Scm}
use hyprscheme.Scm.Reads.{read, refused, read_raised}
use hyprscheme.Desktop.{Outcome, raised, answers}
use hyprscheme.Notification.Store.{
  Icons, Numbers, Note, Notes, icon_from_scheme, color_from_number, done, not_up, rejected,
}

-- `notificationOf`: the live notification behind a handle.
unfoldable pub note_behind : ℕ → Notes → Option (ℕ × Note)
note_behind h s = elim (find h s.handles) [
  | none ↦ none
  | some k ↦ elim (find k.note s.live) [ none ↦ none | some n ↦ some (k.note, n) ]
]

-- A setter changes the live notification behind a handle, and does nothing behind one that is gone.
unfoldable pub set_note : ℕ → (Note → Note) → Notes → Notes
unfolding note_behind
set_note h f s = elim (note_behind h s) [
  | none ↦ s
  | some (id, n) ↦ record s { live = assign id (f n) s.live }
]

abbrev pub bad_color : Text
bad_color = codes "hl-notification-color-set!: bad color (expected a 0xAARRGGBB integer)"

unfoldable pub notification_text_set : Bool → ℕ → Text → Notes → Notes × ℤ
unfolding set_note
notification_text_set up h t s =
    if not up then (s, not_up) else (set_note h (λ n. record n { text = t }) s, done)

unfoldable pub notification_timeout_set : Numbers → Bool → ℕ → ℕ → Notes → Notes × ℤ
unfolding set_note
notification_timeout_set numbers up h ms s =
    if not up
    then (s, not_up)
    else if numbers.below_zero ms
    then (record s { error = codes "hl-notification-timeout-set!: timeout must be >= 0" }, rejected)
    else (set_note h (λ n. record n { timeout = ms }) s, done)

unfoldable pub notification_font_size_set : Numbers → Bool → ℕ → ℕ → Notes → Notes × ℤ
unfolding set_note
notification_font_size_set numbers up h size s =
    if not up
    then (s, not_up)
    else if not (numbers.above_zero size)
    then (
      record s { error = codes "hl-notification-font-size-set!: font size must be > 0" },
      rejected,
    )
    else (set_note h (λ n. record n { font_size = size }) s, done)

unfoldable pub notification_color_set : Numbers → Bool → ℕ → Scm → Notes → Outcome (Notes × ℤ)
unfolding set_note color_from_number
notification_color_set numbers up h v s =
    if not up then answers (s, not_up) else elim (color_from_number numbers bad_color v) [
      | read_raised ↦ raised
      | refused why ↦ answers (record s { error = why }, rejected)
      | read c ↦ answers (set_note h (λ n. record n { color = c }) s, done)
    ]

abbrev pub bad_icon : Text
bad_icon =
    codes
      "hl-notification-icon-set!: bad icon (expected none/warn/info/hint/error/confused/ok or an id 0-6)"

unfoldable pub notification_icon_set :
    Icons → Numbers → Bool → ℕ → Scm → Notes → Outcome (Notes × ℤ)
unfolding set_note icon_from_scheme
notification_icon_set icons numbers up h v s =
    if not up then answers (s, not_up) else elim (icon_from_scheme icons numbers.reals bad_icon v) [
      | read_raised ↦ raised
      | refused why ↦ answers (record s { error = why }, rejected)
      | read i ↦ answers (set_note h (λ n. record n { icon = i }) s, done)
    ]

-- The overlay is asked; when it lets go of the notification is its own affair.
unfoldable pub notification_dismiss : Bool → ℕ → Notes → Notes × ℤ
unfolding note_behind
notification_dismiss up h s = if not up then (s, not_up) else elim (note_behind h s) [
  | none ↦ (s, done)
  | some (id, n) ↦ (record s { dismissed = id ∷ s.dismissed }, done)
]

-- The handle behind the argument is there: a wrong argument is a Scheme error.
unfoldable pub notification_paused_set : Bool → ℕ → Bool → Notes → Notes × ℤ
notification_paused_set up h on s = if not up then (s, not_up) else elim (find h s.handles) [
  | none ↦ (s, not_up)
  | some k ↦ elim (find k.note s.live) [
    | none ↦ (s, done)
    | some n ↦
        if on && not k.paused
        then (
          record s {
            live = assign k.note (record n { locks = suc n.locks }) s.live;
            handles = assign h (record k { paused = true }) s.handles;
          },
          done,
        )
        else if not on && k.paused
        then (
          record s {
            live = assign k.note (record n { locks = n.locks - 1 }) s.live;
            handles = assign h (record k { paused = false }) s.handles;
          },
          done,
        )
        else (s, done)
  ]
]

-- The destructor of a handle: a handle that holds its notification paused unlocks it.
unfoldable pub handle_dropped : ℕ → Notes → Notes
handle_dropped h s = elim (find h s.handles) [
  | none ↦ s
  | some k ↦ elim (find k.note s.live) [
    | none ↦ record s { handles = erase h s.handles }
    | some n ↦
        if k.paused
        then record s {
          live = assign k.note (record n { locks = n.locks - 1 }) s.live;
          handles = erase h s.handles;
        }
        else record s { handles = erase h s.handles }
  ]
]
