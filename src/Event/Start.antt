-- ===== src/Event/Start.antt =====
-- Start handlers of cpp/Event.cpp: each is called once.
use hyprscheme.Base.{
  ℕ, suc, ◌+◌, ◌≡◌, refl, true, false, List, [], ◌∷◌, ◌++◌, if◌then◌else◌, ◌==◌, count, arith,
  Bool-cases, inl, inr,
}
use hyprscheme.Base.Int.{pos}
use hyprscheme.Event.{Events, lifecycle_listen, start_dispatch, next_pass, forget_pending_start}

-- What happens to start handlers, with the interpreter up and the loop there.
pub data Happening : Type 0 where
  subscribe_start : ℕ → Happening
  first_frame : Happening
  pass : Happening

abbrev pub happen : Happening → Events → Events
happen (subscribe_start r) s = (lifecycle_listen true true r (pos 0) s).0
happen first_frame s = start_dispatch true s
happen pass s = next_pass true s

abbrev pub happen_all : List Happening → Events → Events
happen_all [] s = s
happen_all (h ∷ hs) s = happen_all hs (happen h s)

-- How often a record was subscribed.
abbrev pub subscriptions : ℕ → List Happening → ℕ
subscriptions r [] = 0
subscriptions r (subscribe_start j ∷ hs) =
    let rest = subscriptions r hs in if j == r then suc rest else rest
subscriptions r (first_frame ∷ hs) = subscriptions r hs
subscriptions r (pass ∷ hs) = subscriptions r hs

-- The calls a record has had, or has to come.
abbrev pub owed : ℕ → Events → ℕ
owed r s = count r s.started + count r s.pending + count r s.later

count-append : (r : ℕ) (xs ys : List ℕ) → count r (xs ++ ys) ≡ count r xs + count r ys
count-append r [] ys = omega arith
count-append r (x ∷ xs) ys = ground (arith, count-append r xs ys)

owed-happen :
    (r : ℕ) (h : Happening) (hs : List Happening) (s : Events)
    → owed r (happen h s) + subscriptions r hs ≡ owed r s + subscriptions r (h ∷ hs)
unfolding lifecycle_listen start_dispatch next_pass
owed-happen r (subscribe_start j) hs s = elim (Bool-cases s.start_seen) [
  | inl e ↦ rw (e, lifecycle_listen) (ground (arith, count-append r s.later (j ∷ [])))
  | inr e ↦ rw (e, lifecycle_listen) (ground (arith, count-append r s.pending (j ∷ [])))
]
owed-happen r first_frame hs s = omega (arith, count-append r s.started s.pending)
owed-happen r pass hs s = omega (arith, count-append r s.started s.later)

-- With the interpreter up and the loop there, whatever the order of subscriptions, start frames and
-- passes of the loop, each start handler is called or still waiting exactly as often as it was
-- subscribed: none is lost and none is called twice.
pub happen_all-owed :
    (r : ℕ) (hs : List Happening) (s : Events)
    → owed r (happen_all hs s) ≡ owed r s + subscriptions r hs
happen_all-owed r [] s = omega arith
happen_all-owed r (h ∷ hs) s =
    omega (arith, happen_all-owed r hs (happen h s), owed-happen r h hs s)

-- After the start frame and the loop's next pass no start handler waits, and each of them has been
-- called as often as it was due: those that were waiting before the frame, and those subscribed between
-- the frame and the pass.
pub start_settles :
    (r j : ℕ) (s : Events)
    → let after = happen_all (first_frame ∷ subscribe_start j ∷ pass ∷ []) s in
      (after.pending ≡ [])
      × (after.later ≡ [])
      × (count r after.started ≡ owed r s + (if j == r then 1 else 0))
unfolding lifecycle_listen start_dispatch next_pass
start_settles r j s = (
  refl,
  refl,
  ground (
    arith,
    count-append r (s.started ++ s.pending) (s.later ++ j ∷ []),
    count-append r s.started s.pending,
    count-append r s.later (j ∷ []),
  ),
)

-- A reload before the start frame leaves the handlers that were waiting uncalled, at the frame and at
-- a pass that follow; a handler that the new generation subscribes is called at the frame. The loop has
-- nothing left to pass on from before.
pub forget-start :
    (r j : ℕ) (s : Events)
    → s.start_seen ≡ false
    → s.later ≡ []
    → count r
        (happen_all (subscribe_start j ∷ first_frame ∷ pass ∷ []) (forget_pending_start s)).started
      ≡ count r s.started + (if j == r then 1 else 0)
unfolding lifecycle_listen start_dispatch next_pass forget_pending_start
forget-start r j s f l =
    rw (f, l)
      (ground (arith, count-append r (s.started ++ j ∷ []) [], count-append r s.started (j ∷ [])))
