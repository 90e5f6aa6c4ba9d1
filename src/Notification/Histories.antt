-- ===== src/Notification/Histories.antt =====
-- The notifications of cpp/Notification.cpp and their handles over every history of the entry points.
use hyprscheme.Base.{
  ℕ, ◌≡◌, subst, Bool, Option, none, some, [], ◌++◌, find, erase, keys, IsDistinct, arith, Text,
}
use hyprscheme.Base.Int.{ℤ}
use hyprscheme.Scm.{Scm}
use hyprscheme.Desktop.{answers}
use hyprscheme.Notification.Store.{Icons, Numbers, Note, Notes}
use hyprscheme.Notification.Reading.{notification_add}
use hyprscheme.Notification.Setters.{
  notification_text_set, notification_timeout_set, notification_font_size_set,
  notification_color_set, notification_icon_set, notification_paused_set, handle_dropped,
  notification_dismiss,
}
use hyprscheme.Notification.Queries.{new_handles, notification_list, notify}
use hyprscheme.Notification.Pausing.{holders}
use hyprscheme.Notification.Sound.{IsSound, paused_set-IsSound}
use hyprscheme.Notification.Calls.{
  Leaves, expired-IsSound, dropped-IsSound, dismiss-IsSound, list-IsSound,
}
use hyprscheme.Notification.Calls.Fields.{
  add-IsSound, notify-IsSound, color_set-IsSound, icon_set-IsSound, text_set-IsSound,
  timeout_set-IsSound, size_set-IsSound,
}

module _ (icons : Icons) (numbers : Numbers) where
  -- One call of an entry point that comes back, the end of a handle, or a notification that the overlay lets
  -- go of. A new handle stands at an address that no other handle has.
  pub data Step (s : Notes) : Notes → Type 0 where
    add_step :
        (up gives : Bool) (h : ℕ) (fields : Scm)
        → find h s.handles ≡ none
        → Step s (notification_add icons numbers up gives h fields s).0
    notify_step :
        (up : Bool) (text : Option Text) (ms : ℕ) (icon : Option Text) (color : Scm) (size : ℕ)
        {t : Notes} {v : Scm}
        → notify icons numbers up text ms icon color size s ≡ answers (t, v)
        → Step s t
    list_step :
        (up : Bool) (base : ℕ)
        → IsDistinct (keys (new_handles base s.live ++ s.handles))
        → Step s (notification_list up base s).0
    text_step : (up : Bool) (h : ℕ) (t : Text) → Step s (notification_text_set up h t s).0
    timeout_step : (up : Bool) (h ms : ℕ) → Step s (notification_timeout_set numbers up h ms s).0
    size_step : (up : Bool) (h size : ℕ) → Step s (notification_font_size_set numbers up h size s).0
    color_step :
        (up : Bool) (h : ℕ) (c : Scm) {t : Notes} {n : ℤ}
        → notification_color_set numbers up h c s ≡ answers (t, n)
        → Step s t
    icon_step :
        (up : Bool) (h : ℕ) (c : Scm) {t : Notes} {n : ℤ}
        → notification_icon_set icons numbers up h c s ≡ answers (t, n)
        → Step s t
    pause_step : (up : Bool) (h : ℕ) (on : Bool) → Step s (notification_paused_set up h on s).0
    dismiss_step : (up : Bool) (h : ℕ) → Step s (notification_dismiss up h s).0
    drop_step : (h : ℕ) → Step s (handle_dropped h s)
    expire_step : (id : ℕ) → Step s (record s { live = erase id s.live })

  pub data Reach (s : Notes) : Notes → Type 0 where
    here : Reach s s
    then_step : {t u : Notes} → Reach s t → Step t u → Reach s u

  Step-IsSound : {s t : Notes} → Step s t → IsSound s → IsSound t
  Step-IsSound {s} (add_step up gives h fields new) v =
      add-IsSound icons numbers up gives h fields s new v
  Step-IsSound {s} (notify_step up text ms icon color size e) v =
      subst Leaves e (notify-IsSound icons numbers up text ms icon color size s v)
  Step-IsSound {s} (list_step up base new) v = list-IsSound up base s new v
  Step-IsSound {s} (text_step up h t) v = text_set-IsSound icons numbers up h t s v
  Step-IsSound {s} (timeout_step up h ms) v = timeout_set-IsSound icons numbers up h ms s v
  Step-IsSound {s} (size_step up h size) v = size_set-IsSound icons numbers up h size s v
  Step-IsSound {s} (color_step up h c e) v =
      subst Leaves e (color_set-IsSound icons numbers up h c s v)
  Step-IsSound {s} (icon_step up h c e) v =
      subst Leaves e (icon_set-IsSound icons numbers up h c s v)
  Step-IsSound {s} (pause_step up h on) v = paused_set-IsSound up h on s v
  Step-IsSound {s} (dismiss_step up h) v = dismiss-IsSound up h s v
  Step-IsSound {s} (drop_step h) v = dropped-IsSound h s v
  Step-IsSound {s} (expire_step id) v = expired-IsSound id s v

  Reach-IsSound : {s t : Notes} → Reach s t → IsSound s → IsSound t
  Reach-IsSound here v = v
  Reach-IsSound (then_step r st) v = Step-IsSound st (Reach-IsSound r v)

  -- Nothing is shown and there is no handle.
  abbrev pub no_notes : Notes
  no_notes = record { live = []; handles = []; next = 0; dismissed = []; error = [] }

  no_notes-IsSound : IsSound no_notes
  unfolding find
  no_notes-IsSound = record {
    distinct = tt;
    locked = λ id n q. absurd (ground arith);
    new_handle = tt;
    new_live = tt;
  }

  -- After any history of the entry points, of handles that end and of notifications that the overlay lets
  -- go of, each live notification is locked exactly once for each handle that holds it paused: no call
  -- pauses twice through one handle, and none leaves a lock behind. A new handle stands at an address that
  -- no other handle has.
  pub Reach-locked :
      (s : Notes) (id : ℕ) (n : Note)
      → Reach no_notes s
      → find id s.live ≡ some n
      → n.locks ≡ holders id s.handles
  Reach-locked s id n r q = (Reach-IsSound r no_notes-IsSound).locked id n q
