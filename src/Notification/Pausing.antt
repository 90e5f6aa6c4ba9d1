-- ===== src/Notification/Pausing.antt =====
-- Pausing through handles: cpp/Notification.cpp.
use hyprscheme.Base.{
  ℕ, suc, ◌+◌, ◌-◌, ◌≤◌, ◌==◌, ◌≡◌, refl, sym, Bool, true, false, not, ◌&&◌, none, some, List, [],
  ◌∷◌, if◌then◌else◌, find, assign, erase, keys, IsDistinct, arith, Bool-cases, Option-cases, inl,
  inr, find-assign, member-keys,
}
use hyprscheme.Notification.Store.{Note, NoteHandle, Notes}
use hyprscheme.Notification.Setters.{notification_paused_set, handle_dropped}

-- How many handles of a notification hold it paused.
abbrev pub holders : ℕ → List (ℕ × NoteHandle) → ℕ
holders id [] = 0
holders id ((h, k) ∷ hs) =
    let rest = holders id hs in if k.paused && k.note == id then suc rest else rest

holds : ℕ → NoteHandle → ℕ
holds id k = if k.paused && k.note == id then 1 else 0

assign-absent :
    (h : ℕ) (k : NoteHandle) (hs : List (ℕ × NoteHandle)) → find h hs ≡ none → assign h k hs ≡ hs
unfolding find assign
assign-absent h k [] e = refl
assign-absent h k ((j, w) ∷ hs) e = ground (arith, assign-absent h k hs)

holders-assign :
    (id h : ℕ) (k' : NoteHandle) (hs : List (ℕ × NoteHandle)) {k : NoteHandle}
    → find h hs ≡ some k
    → IsDistinct (keys hs)
    → holders id (assign h k' hs) + holds id k ≡ holders id hs + holds id k'
unfolding find assign holds
holders-assign id h k' [] e d = absurd (ground arith)
holders-assign id h k' ((j, w) ∷ hs) {k} e d =
    ground (arith, holders-assign id h k' hs {k = k}, assign-absent h k' hs, member-keys h hs)

holds-holders :
    (id h : ℕ) (hs : List (ℕ × NoteHandle)) {k : NoteHandle}
    → find h hs ≡ some k
    → holds id k ≤ holders id hs
unfolding find holds
holds-holders id h [] e = absurd (ground arith)
holds-holders id h ((j, w) ∷ hs) {k} e = ground (arith, holds-holders id h hs {k = k})

pause-holds :
    (k : NoteHandle)
    → k.paused ≡ false
    → (holds k.note k ≡ 0) × (holds k.note (record k { paused = true }) ≡ 1)
unfolding holds
pause-holds k p = ground arith

resume-holds :
    (k : NoteHandle)
    → k.paused ≡ true
    → (holds k.note k ≡ 1) × (holds k.note (record k { paused = false }) ≡ 0)
unfolding holds
resume-holds k p = ground arith

holds-other : (id : ℕ) (k : NoteHandle) → (k.note == id) ≡ false → holds id k ≡ 0
unfolding holds
holds-other id k e = ground arith

-- Each live notification is locked once for each handle that holds it paused.
abbrev pub IsLocked : Notes → Type 0
IsLocked s = (id : ℕ) (n : Note) → find id s.live ≡ some n → n.locks ≡ holders id s.handles

relocked :
    (h : ℕ) (s : Notes) (k : NoteHandle) (n m : Note) (b : Bool)
    → IsDistinct (keys s.handles)
    → IsLocked s
    → find h s.handles ≡ some k
    → find k.note s.live ≡ some n
    → m.locks + holds k.note k ≡ n.locks + holds k.note (record k { paused = b })
    → IsLocked (record s {
      live = assign k.note m s.live;
      handles = assign h (record k { paused = b }) s.handles;
    })
relocked h s k n m b d v f g c id x e = elim (Bool-cases (k.note == id)) [
  | inl same ↦
      let q : k.note ≡ id = ground arith in
      let xm : x ≡ m = ground (arith, find-assign k.note id m s.live) in
      let counted = holders-assign k.note h (record k { paused = b }) s.handles {k = k} f d in
      let locked : m.locks ≡ holders k.note (assign h (record k { paused = b }) s.handles) =
        omega (arith, v k.note n g, counted, c) in
      rw (xm, sym q) locked
  | inr other ↦
      let there : find id s.live ≡ some x = ground (arith, find-assign k.note id m s.live) in
      omega (
        arith,
        v id x there,
        holders-assign id h (record k { paused = b }) s.handles {k = k} f d,
        holds-other id k other,
        holds-other id (record k { paused = b }) other,
      )
]

-- Pausing and resuming keep each live notification locked exactly once for each handle that holds it
-- paused, so that a handle that pauses twice locks once, and resuming through one handle leaves the
-- lock of another; no handle stands twice in the index.
pub notification_paused_set-IsLocked :
    (up : Bool) (h : ℕ) (on : Bool) (s : Notes)
    → IsDistinct (keys s.handles)
    → IsLocked s
    → IsLocked (notification_paused_set up h on s).0
unfolding notification_paused_set
notification_paused_set-IsLocked up h on s d v = elim (Bool-cases up) [
  | inr e ↦ rw (e, notification_paused_set) v
  | inl e ↦ elim (Option-cases (find h s.handles)) [
    | inl f ↦ rw (e, f, notification_paused_set) v
    | inr (k, f) ↦ elim (Option-cases (find k.note s.live)) [
      | inl g ↦ rw (e, f, g, notification_paused_set) v
      | inr (n, g) ↦ elim (Bool-cases (on && not k.paused)) [
        | inl p ↦
            let (before, after) = pause-holds k (ground arith) in
            rw (e, f, g, p, notification_paused_set)
              (relocked h s k n (record n { locks = suc n.locks }) true d v f g
                (omega (arith, before, after)))
        | inr p ↦ elim (Bool-cases (not on && k.paused)) [
          | inl q ↦
              let (before, after) = resume-holds k (ground arith) in
              let some_lock = holds-holders k.note h s.handles {k = k} f in
              rw (e, f, g, p, q, notification_paused_set)
                (relocked h s k n (record n { locks = n.locks - 1 }) false d v f g
                  (omega (arith, before, after, some_lock, v k.note n g)))
          | inr q ↦ rw (e, f, g, p, q, notification_paused_set) v
        ]
      ]
    ]
  ]
]

erase-absent : (h : ℕ) (hs : List (ℕ × NoteHandle)) → find h hs ≡ none → erase h hs ≡ hs
unfolding find erase
erase-absent h [] e = refl
erase-absent h ((j, w) ∷ hs) e = ground (arith, erase-absent h hs)

holders-erase :
    (id h : ℕ) (hs : List (ℕ × NoteHandle)) {k : NoteHandle}
    → find h hs ≡ some k
    → IsDistinct (keys hs)
    → holders id (erase h hs) + holds id k ≡ holders id hs
unfolding find erase holds
holders-erase id h [] e d = absurd (ground arith)
holders-erase id h ((j, w) ∷ hs) {k} e d =
    ground (arith, holders-erase id h hs {k = k}, erase-absent h hs, member-keys h hs)

quiet-holds : (id : ℕ) (k : NoteHandle) → k.paused ≡ false → holds id k ≡ 0
unfolding holds
quiet-holds id k p = ground arith

-- A handle that goes away gives back the lock that it holds and no other: each live notification is
-- still locked once for each handle that is left and holds it paused; no handle stands twice in the
-- index.
pub handle_dropped-IsLocked :
    (h : ℕ) (s : Notes) → IsDistinct (keys s.handles) → IsLocked s → IsLocked (handle_dropped h s)
unfolding handle_dropped
handle_dropped-IsLocked h s d v = elim (Option-cases (find h s.handles)) [
  | inl f ↦ rw (f, handle_dropped) v
  | inr (k, f) ↦ elim (Option-cases (find k.note s.live)) [
    | inl g ↦
        rw (f, g, handle_dropped)
          (λ id x e. elim (Bool-cases (k.note == id)) [
            | inl same ↦ let q : k.note ≡ id = ground arith in absurd (ground arith)
            | inr other ↦
                omega (
                  arith,
                  v id x e,
                  holders-erase id h s.handles {k = k} f d,
                  holds-other id k other,
                )
          ])
    | inr (n, g) ↦ elim (Bool-cases k.paused) [
      | inr p ↦
          rw (f, g, p, handle_dropped)
            (λ id x e.
              omega (arith, v id x e, holders-erase id h s.handles {k = k} f d, quiet-holds id k p))
      | inl p ↦ rw (f, g, p, handle_dropped) (unlocked k n f g (resume-holds k p).0)
    ]
  ]
]
  where
    unlocked :
        (k : NoteHandle) (n : Note)
        → find h s.handles ≡ some k
        → find k.note s.live ≡ some n
        → holds k.note k ≡ 1
        → IsLocked (record s {
          live = assign k.note (record n { locks = n.locks - 1 }) s.live;
          handles = erase h s.handles;
        })
    unlocked k n f g one id x e = elim (Bool-cases (k.note == id)) [
      | inl same ↦
          let q : k.note ≡ id = ground arith in
          let xm : x ≡ record n { locks = n.locks - 1 } =
            ground (arith, find-assign k.note id (record n { locks = n.locks - 1 }) s.live) in
          let left : n.locks - 1 ≡ holders k.note (erase h s.handles) =
            omega (arith, v k.note n g, one, holders-erase k.note h s.handles {k = k} f d) in
          rw (xm, sym q) left
      | inr other ↦
          let there : find id s.live ≡ some x =
            ground (arith, find-assign k.note id (record n { locks = n.locks - 1 }) s.live) in
          omega
            (arith, v id x there, holders-erase id h s.handles {k = k} f d, holds-other id k other)
    ]
