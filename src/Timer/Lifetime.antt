-- ===== src/Timer/Lifetime.antt =====
-- Which timers the event loop holds after a log of calls, and when that agrees with the index of
-- cpp/Timer.cpp.
use hyprscheme.Base.{
  ℕ, suc, ◌≡◌, ◌<◌, refl, ap, sym, ◌∙◌, true, false, not, none, some, List, [], ◌∷◌, find, erase,
  assign, keys, member, keep, IsDistinct, All, arith, member-keys, erase-IsDistinct, ◌==◌,
}
use hyprscheme.Timer.{
  LoopCall, Entry, Timers, make_timer, add_timer, remove_timer, cancel_timer, update_timeout,
}

abbrev pub without : ℕ → List ℕ → List ℕ
without t ts = keep (λ u. not (u == t)) ts

-- The timers that the event loop holds after a log: those added and not removed since.
abbrev pub live : List LoopCall → List ℕ
live [] = []
live (add_timer t ∷ cs) = t ∷ live cs
live (remove_timer t ∷ cs) = without t (live cs)
live (make_timer t ms ∷ cs) = live cs
live (cancel_timer t ∷ cs) = live cs
live (update_timeout t ms ∷ cs) = live cs

abbrev pub timers_of : List (ℕ × Entry) → List ℕ
timers_of [] = []
timers_of ((r, e) ∷ m) = e.timer ∷ timers_of m

-- The event loop holds exactly the timers of the index, each record and each timer stands in it once,
-- and the number of the next timer is new.
pub record IsIndexed (s : Timers) : Type 0 where
  pub held : live s.calls ≡ timers_of s.index
  pub records : IsDistinct (keys s.index)
  pub timers : IsDistinct (timers_of s.index)
  pub fresh : All (λ t. t < s.next) (timers_of s.index)

pub without-absent : (t : ℕ) (ts : List ℕ) → member t ts ≡ false → without t ts ≡ ts
without-absent t [] h = refl
without-absent t (u ∷ ts) h = ground (arith, without-absent t ts)

pub member-without : (t u : ℕ) (ts : List ℕ) → member u ts ≡ false → member u (without t ts) ≡ false
member-without t u [] h = refl
member-without t u (v ∷ ts) h = ground (arith, member-without t u ts)

pub without-IsDistinct : (t : ℕ) (ts : List ℕ) → IsDistinct ts → IsDistinct (without t ts)
without-IsDistinct t [] d = tt
without-IsDistinct t (u ∷ ts) d = ground (arith, without-IsDistinct t ts d.1, member-without t u ts)

pub without-All : (t n : ℕ) (ts : List ℕ) → All (λ u. u < n) ts → All (λ u. u < n) (without t ts)
without-All t n [] h = tt
without-All t n (u ∷ ts) h = ground (arith, without-All t n ts h.1)

pub member-below : (n : ℕ) (ts : List ℕ) → All (λ t. t < n) ts → member n ts ≡ false
member-below n [] h = refl
member-below n (t ∷ ts) h = ground (arith, member-below n ts h.1)

pub below-suc : (n : ℕ) (ts : List ℕ) → All (λ t. t < n) ts → All (λ t. t < suc n) ts
below-suc n [] h = tt
below-suc n (t ∷ ts) h = (omega arith, below-suc n ts h.1)

member-timers_of :
    (r : ℕ) (m : List (ℕ × Entry)) {e : Entry}
    → find r m ≡ some e
    → member e.timer (timers_of m) ≡ true
unfolding find
member-timers_of r [] h = cc
member-timers_of r ((j, w) ∷ m) {e} h = ground (arith, member-timers_of r m {e = e})

pub erase-absent : (r : ℕ) (m : List (ℕ × Entry)) → find r m ≡ none → erase r m ≡ m
unfolding find erase
erase-absent r [] h = refl
erase-absent r ((j, w) ∷ m) h = ground (arith, erase-absent r m)

timers_of-erase :
    (r : ℕ) (m : List (ℕ × Entry)) {e : Entry}
    → find r m ≡ some e
    → IsDistinct (keys m)
    → IsDistinct (timers_of m)
    → timers_of (erase r m) ≡ without e.timer (timers_of m)
unfolding find erase
timers_of-erase r [] h k d = cc
timers_of-erase r ((j, w) ∷ m) {e} h k d = ground (
  arith,
  timers_of-erase r m {e = e},
  member-timers_of r m {e = e},
  erase-absent r m,
  member-keys r m,
  without-absent w.timer (timers_of m),
)

assign-absent : (r : ℕ) (e : Entry) (m : List (ℕ × Entry)) → find r m ≡ none → assign r e m ≡ m
unfolding find assign
assign-absent r e [] h = refl
assign-absent r e ((j, w) ∷ m) h = ground (arith, assign-absent r e m)

pub timers_of-assign :
    (r : ℕ) (m : List (ℕ × Entry)) (e' : Entry) {e : Entry}
    → find r m ≡ some e
    → e'.timer ≡ e.timer
    → IsDistinct (keys m)
    → timers_of (assign r e' m) ≡ timers_of m
unfolding find assign
timers_of-assign r [] e' h q d = cc
timers_of-assign r ((j, w) ∷ m) e' {e} h q d =
    ground (arith, timers_of-assign r m e' {e = e}, assign-absent r e' m, member-keys r m)

-- The index and the log after the entry of a record is erased and its timer removed.
pub drop-IsIndexed :
    (r : ℕ) (s : Timers) (cs : List LoopCall) {e : Entry}
    → find r s.index ≡ some e
    → live cs ≡ without e.timer (live s.calls)
    → IsIndexed s
    → IsIndexed (record s { index = erase r s.index; calls = cs })
drop-IsIndexed r s cs {e} f l v =
    let same = timers_of-erase r s.index {e = e} f v.records v.timers in
    record {
      held = l ∙ ap (without e.timer) v.held ∙ sym same;
      records = erase-IsDistinct r s.index v.records;
      timers = rw same (without-IsDistinct e.timer (timers_of s.index) v.timers);
      fresh = rw same (without-All e.timer s.next (timers_of s.index) v.fresh);
    }
