-- ===== src/Notification/Sound.antt =====
-- When the state of cpp/Notification.cpp is sound, and the calls that keep it so.
use hyprscheme.Base.{
  ℕ, suc, ◌-◌, ◌<◌, ◌==◌, ◌≡◌, refl, sym, ap, ◌∙◌, subst, Bool, true, false, not, ◌&&◌, some, List,
  [], ◌∷◌, if_either, find, assign, erase, keys, IsDistinct, arith, Bool-cases, Option-cases, inl,
  inr, find-assign, keys-assign,
}
use hyprscheme.Notification.Store.{Note, NoteHandle, Notes}
use hyprscheme.Notification.Setters.{note_behind, set_note, notification_paused_set}
use hyprscheme.Notification.Pausing.{holders, IsLocked, notification_paused_set-IsLocked}

-- Every handle and every live notification has a number that was given out.
abbrev pub HandlesBelow : ℕ → List (ℕ × NoteHandle) → Type 0
HandlesBelow n [] = Unit
HandlesBelow n ((h, k) ∷ hs) = (k.note < n) × HandlesBelow n hs

abbrev pub LiveBelow : ℕ → List (ℕ × Note) → Type 0
LiveBelow n [] = Unit
LiveBelow n ((id, x) ∷ l) = (id < n) × LiveBelow n l

-- No handle stands twice, each live notification is locked once for each handle that holds it paused, and
-- the next number is new.
pub record IsSound (s : Notes) : Type 0 where
  pub distinct : IsDistinct (keys s.handles)
  pub locked : IsLocked s
  pub new_handle : HandlesBelow s.next s.handles
  pub new_live : LiveBelow s.next s.live

pub HandlesBelow-suc :
    (n : ℕ) (hs : List (ℕ × NoteHandle)) → HandlesBelow n hs → HandlesBelow (suc n) hs
HandlesBelow-suc n [] b = tt
HandlesBelow-suc n ((h, k) ∷ hs) b = (omega (arith, b.0), HandlesBelow-suc n hs b.1)

pub LiveBelow-suc : (n : ℕ) (l : List (ℕ × Note)) → LiveBelow n l → LiveBelow (suc n) l
LiveBelow-suc n [] b = tt
LiveBelow-suc n ((id, x) ∷ l) b = (omega (arith, b.0), LiveBelow-suc n l b.1)

pub holders-below : (n : ℕ) (hs : List (ℕ × NoteHandle)) → HandlesBelow n hs → holders n hs ≡ 0
holders-below n [] b = refl
holders-below n ((h, k) ∷ hs) b = ground (arith, b.0, holders-below n hs b.1)

HandlesBelow-assign :
    (n h : ℕ) (k : NoteHandle) (hs : List (ℕ × NoteHandle))
    → k.note < n
    → HandlesBelow n hs
    → HandlesBelow n (assign h k hs)
unfolding assign
HandlesBelow-assign n h k [] e b = tt
HandlesBelow-assign n h k ((j, w) ∷ hs) e b =
    if_either (HandlesBelow n) (j == h) (λ q. (e, HandlesBelow-assign n h k hs e b.1))
      (λ q. (b.0, HandlesBelow-assign n h k hs e b.1))

pub HandlesBelow-erase :
    (n h : ℕ) (hs : List (ℕ × NoteHandle)) → HandlesBelow n hs → HandlesBelow n (erase h hs)
unfolding erase
HandlesBelow-erase n h [] b = tt
HandlesBelow-erase n h ((j, w) ∷ hs) b =
    if_either (HandlesBelow n) (j == h) (λ q. HandlesBelow-erase n h hs b.1)
      (λ q. (b.0, HandlesBelow-erase n h hs b.1))

pub LiveBelow-assign :
    (n id : ℕ) (x : Note) (l : List (ℕ × Note)) → LiveBelow n l → LiveBelow n (assign id x l)
unfolding assign
LiveBelow-assign n id x [] b = tt
LiveBelow-assign n id x ((j, w) ∷ l) b =
    if_either (LiveBelow n) (j == id) (λ q. (b.0, LiveBelow-assign n id x l b.1))
      (λ q. (b.0, LiveBelow-assign n id x l b.1))

pub LiveBelow-erase : (n id : ℕ) (l : List (ℕ × Note)) → LiveBelow n l → LiveBelow n (erase id l)
unfolding erase
LiveBelow-erase n id [] b = tt
LiveBelow-erase n id ((j, w) ∷ l) b =
    if_either (LiveBelow n) (j == id) (λ q. LiveBelow-erase n id l b.1)
      (λ q. (b.0, LiveBelow-erase n id l b.1))

note_below :
    (n h : ℕ) (hs : List (ℕ × NoteHandle)) {k : NoteHandle}
    → find h hs ≡ some k
    → HandlesBelow n hs
    → k.note < n
unfolding find
note_below n h [] f b = absurd (ground arith)
note_below n h ((j, w) ∷ hs) {k} f b = elim (Bool-cases (j == h)) [
  | inl e ↦ let same : w ≡ k = ground arith in subst (λ x. x.note < n) same b.0
  | inr e ↦ note_below n h hs {k = k} (ground arith) b.1
]

-- Only the locks of a note count.
pub set_note-IsSound :
    (h : ℕ) (f : Note → Note) (s : Notes)
    → ((n : Note) → (f n).locks ≡ n.locks)
    → IsSound s
    → IsSound (set_note h f s)
unfolding set_note note_behind
set_note-IsSound h f s same v = elim (Option-cases (find h s.handles)) [
  | inl e ↦ rw (e, set_note) v
  | inr (k, e) ↦ elim (Option-cases (find k.note s.live)) [
    | inl g ↦ rw (e, g, set_note) v
    | inr (n, g) ↦
        rw (e, g, set_note)
          (record {
            distinct = v.distinct;
            locked = λ id x q. elim (Bool-cases (k.note == id)) [
              | inl here ↦
                  let at : k.note ≡ id = ground arith in
                  let xf : x ≡ f n = ground (arith, find-assign k.note id (f n) s.live) in
                  ap (λ (m : Note). m.locks) xf ∙ same n ∙ v.locked id n (rw (sym at) g)
              | inr there ↦ v.locked id x (ground (arith, find-assign k.note id (f n) s.live))
            ];
            new_handle = v.new_handle;
            new_live = LiveBelow-assign s.next k.note (f n) s.live v.new_live;
          })
  ]
]

pub paused_set-IsSound :
    (up : Bool) (h : ℕ) (on : Bool) (s : Notes)
    → IsSound s
    → IsSound (notification_paused_set up h on s).0
unfolding notification_paused_set
paused_set-IsSound up h on s v =
    let locked = notification_paused_set-IsLocked up h on s v.distinct v.locked in
    elim (Bool-cases up) [
      | inr e ↦ rw (e, notification_paused_set) v
      | inl e ↦ elim (Option-cases (find h s.handles)) [
        | inl f ↦ rw (e, f, notification_paused_set) v
        | inr (k, f) ↦ elim (Option-cases (find k.note s.live)) [
          | inl g ↦ rw (e, f, g, notification_paused_set) v
          | inr (n, g) ↦ elim (Bool-cases (on && not k.paused)) [
            | inl p ↦ with_locked locked (
                rw (e, f, g, p, notification_paused_set)
                  (kept k (record n { locks = suc n.locks }) true f))
            | inr p ↦ elim (Bool-cases (not on && k.paused)) [
              | inl q ↦ with_locked locked (
                  rw (e, f, g, p, q, notification_paused_set)
                    (kept k (record n { locks = n.locks - 1 }) false f))
              | inr q ↦ rw (e, f, g, p, q, notification_paused_set) v
            ]
          ]
        ]
      ]
    ]
  where
    Kept : Notes → Type 0
    Kept t = IsDistinct (keys t.handles) × HandlesBelow t.next t.handles × LiveBelow t.next t.live

    with_locked : {t : Notes} → IsLocked t → Kept t → IsSound t
    with_locked l k = record { distinct = k.0; locked = l; new_handle = k.1; new_live = k.2 }

    kept :
        (k : NoteHandle) (m : Note) (b : Bool)
        → find h s.handles ≡ some k
        → Kept (record s {
          live = assign k.note m s.live;
          handles = assign h (record k { paused = b }) s.handles;
        })
    kept k m b f = (
      rw (keys-assign h (record k { paused = b }) s.handles) v.distinct,
      HandlesBelow-assign s.next h (record k { paused = b }) s.handles
          (note_below s.next h s.handles {k = k} f v.new_handle) v.new_handle,
      LiveBelow-assign s.next k.note m s.live v.new_live,
    )
