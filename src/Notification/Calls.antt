-- ===== src/Notification/Calls.antt =====
-- Each entry point of cpp/Notification.cpp leaves a sound state sound.
pub mod Fields
use hyprscheme.Base.{
  ℕ, suc, ◌-◌, ◌<◌, ◌==◌, ◌≡◌, refl, sym, ap, ◌∙◌, subst, Bool, false, not, Option, none, some,
  List, [], ◌∷◌, ◌++◌, if_either, find, erase, keys, IsDistinct, arith, Text, codes, is_empty,
  Bool-cases, Option-cases, inl, inr, find-erase, member-keys, erase-IsDistinct,
}
use hyprscheme.Base.Int.{ℤ, pos, negsuc}
use hyprscheme.Scm.{Scm}
use hyprscheme.Scm.Reads.{Read, read, refused, read_raised}
use hyprscheme.Desktop.{Outcome, raised, crashed, answers, false_value}
use hyprscheme.Notification.Store.{
  Icons, Numbers, Note, NoteHandle, Notes, icon_from_scheme, color_from_number,
}
use hyprscheme.Notification.Reading.{
  Reading, drafted, bad_field, Draft, read_note, blank, note_of, add_draft, add_reading,
  notification_add,
}
use hyprscheme.Notification.Setters.{
  note_behind, set_note, notification_text_set, notification_timeout_set,
  notification_font_size_set, notification_color_set, notification_icon_set, bad_color, bad_icon,
  handle_dropped, notification_dismiss,
}
use hyprscheme.Notification.Queries.{
  new_handles, notification_list, notify, notify_with, notify_color, icon_named, or_empty,
}
use hyprscheme.Notification.Pausing.{holders, IsLocked, handle_dropped-IsLocked}
use hyprscheme.Notification.Sound.{
  HandlesBelow, LiveBelow, IsSound, HandlesBelow-suc, LiveBelow-suc, holders-below,
  set_note-IsSound, HandlesBelow-erase, LiveBelow-assign, LiveBelow-erase,
}

-- A note that is new is not locked, and no handle holds it.
abbrev pub added : Notes → Note → Notes
added s x = record s { live = (s.next, x) ∷ s.live; next = suc s.next }

pub added-IsSound : (x : Note) (s : Notes) → x.locks ≡ 0 → IsSound s → IsSound (added s x)
unfolding find
added-IsSound x s free v = record {
  distinct = v.distinct;
  locked = λ id y q. elim (Bool-cases (s.next == id)) [
    | inl e ↦
        let at : s.next ≡ id = ground arith in
        let same : x ≡ y = ground arith in
        subst (λ (n : Note). n.locks ≡ holders id s.handles) same
          (free
            ∙ sym (holders-below s.next s.handles v.new_handle)
            ∙ ap (λ n. holders n s.handles) at)
    | inr e ↦ v.locked id y (ground arith)
  ];
  new_handle = HandlesBelow-suc s.next s.handles v.new_handle;
  new_live = (omega arith, LiveBelow-suc s.next s.live v.new_live);
}

-- A handle that is new does not hold its notification.
pub handled-IsSound :
    (h id : ℕ) (s : Notes)
    → find h s.handles ≡ none
    → id < s.next
    → IsSound s
    → IsSound (record s { handles = (h, record { note = id; paused = false }) ∷ s.handles })
handled-IsSound h id s new below v = record {
  distinct = (ground (arith, member-keys h s.handles), v.distinct);
  locked = v.locked;
  new_handle = (below, v.new_handle);
  new_live = v.new_live;
}

pub error-IsSound : (why : Text) (s : Notes) → IsSound s → IsSound (record s { error = why })
error-IsSound why s v = record {
  distinct = v.distinct;
  locked = v.locked;
  new_handle = v.new_handle;
  new_live = v.new_live;
}

pub expired-IsSound :
    (id : ℕ) (s : Notes) → IsSound s → IsSound (record s { live = erase id s.live })
expired-IsSound id s v = record {
  distinct = v.distinct;
  locked = λ j x q. v.locked j x (ground (arith, find-erase id j s.live));
  new_handle = v.new_handle;
  new_live = LiveBelow-erase s.next id s.live v.new_live;
}

pub dropped-IsSound : (h : ℕ) (s : Notes) → IsSound s → IsSound (handle_dropped h s)
unfolding handle_dropped
dropped-IsSound h s v =
    let locked = handle_dropped-IsLocked h s v.distinct v.locked in
    let distinct = erase-IsDistinct h s.handles v.distinct in
    let below = HandlesBelow-erase s.next h s.handles v.new_handle in
    elim (Option-cases (find h s.handles)) [
      | inl f ↦ rw (f, handle_dropped) v
      | inr (k, f) ↦ elim (Option-cases (find k.note s.live)) [
        | inl g ↦ with_locked locked (rw (f, g, handle_dropped) (distinct, below, v.new_live))
        | inr (n, g) ↦ elim (Bool-cases k.paused) [
          | inr p ↦ with_locked locked (rw (f, g, p, handle_dropped) (distinct, below, v.new_live))
          | inl p ↦ with_locked locked (
              rw (f, g, p, handle_dropped)
                (
                  distinct,
                  below,
                  LiveBelow-assign s.next k.note (record n { locks = n.locks - 1 }) s.live
                      v.new_live,
                ))
        ]
      ]
    ]
  where
    with_locked :
        {t : Notes}
        → IsLocked t
        → IsDistinct (keys t.handles) × HandlesBelow t.next t.handles × LiveBelow t.next t.live
        → IsSound t
    with_locked l k = record { distinct = k.0; locked = l; new_handle = k.1; new_live = k.2 }

pub dismiss-IsSound :
    (up : Bool) (h : ℕ) (s : Notes) → IsSound s → IsSound (notification_dismiss up h s).0
unfolding notification_dismiss
dismiss-IsSound up h s v =
    if_either (λ (x : Notes × ℤ). IsSound x.0) (not up) (λ e. v) (λ e. by_note (note_behind h s))
  where
    by_note :
        (o : Option (ℕ × Note))
        → IsSound
            (elim o as (λ x. Notes × ℤ) [
              | none ↦ (s, pos 0)
              | some (id, n) ↦ (record s { dismissed = id ∷ s.dismissed }, pos 0)
            ]).0
    by_note none = v
    by_note (some (id, n)) = record {
      distinct = v.distinct;
      locked = v.locked;
      new_handle = v.new_handle;
      new_live = v.new_live;
    }

-- The handles that a listing makes hold nothing.
holders-new_handles :
    (id base : ℕ) (l : List (ℕ × Note)) (hs : List (ℕ × NoteHandle))
    → holders id (new_handles base l ++ hs) ≡ holders id hs
unfolding new_handles
holders-new_handles id base [] hs = refl
holders-new_handles id base ((j, x) ∷ l) hs = holders-new_handles id (suc base) l hs

HandlesBelow-new_handles :
    (n base : ℕ) (l : List (ℕ × Note)) (hs : List (ℕ × NoteHandle))
    → LiveBelow n l
    → HandlesBelow n hs
    → HandlesBelow n (new_handles base l ++ hs)
unfolding new_handles
HandlesBelow-new_handles n base [] hs a b = b
HandlesBelow-new_handles n base ((j, x) ∷ l) hs a b =
    (a.0, HandlesBelow-new_handles n (suc base) l hs a.1 b)

pub list-IsSound :
    (up : Bool) (base : ℕ) (s : Notes)
    → IsDistinct (keys (new_handles base s.live ++ s.handles))
    → IsSound s
    → IsSound (notification_list up base s).0
unfolding notification_list
list-IsSound up base s new v =
    if_either (λ (x : Notes × Scm). IsSound x.0) (not up) (λ e. v)
      (λ e. record {
        distinct = new;
        locked = λ id x q. v.locked id x q ∙ sym (holders-new_handles id base s.live s.handles);
        new_handle = HandlesBelow-new_handles s.next base s.live s.handles v.new_live v.new_handle;
        new_live = v.new_live;
      })

-- What an entry point comes to, if it comes back.
abbrev pub Leaves {ℓ} : {A : Type ℓ} → Outcome (Notes × A) → Type 0
Leaves raised = Unit
Leaves crashed = Unit
Leaves (answers (t, x)) = IsSound t
