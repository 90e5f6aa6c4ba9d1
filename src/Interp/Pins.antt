-- ===== src/Interp/Pins.antt =====
-- The carriers of cpp/SThunkRef.hpp keep exactly what they hold from the collector.
use hyprscheme.Base.{
  ℕ, suc, ◌+◌, ◌==◌, ◌<◌, ◌≡◌, refl, false, some, List, [], ◌∷◌, if◌then◌else◌, find, erase, assign,
  keys, IsDistinct, member, All, arith, Option-cases, inl, inr, keys-assign, erase-IsDistinct,
}
use hyprscheme.Interp.{
  Word, eol, bool_f, bool_t, object, PinCall, protect, unprotect, lock, unlock, Carriers, carry,
  carry_nil, copy, destroy, set,
}

-- One entry point of a carrier's class.
pub data PinStep : Type 0 where
  make : Word → PinStep
  make_nil : PinStep
  copy_of : ℕ → PinStep
  drop : ℕ → PinStep
  put : ℕ → Word → PinStep

abbrev pub run : PinStep → Carriers → Carriers
run (make v) s = carry v s
run make_nil s = carry_nil s
run (copy_of c) s = copy c s
run (drop c) s = destroy c s
run (put c v) s = set c v s

abbrev pub run_all : List PinStep → Carriers → Carriers
run_all [] s = s
run_all (p ∷ ps) s = run_all ps (run p s)

-- The word of a value, 1 for the object at `a`.
abbrev pub weight : ℕ → Word → ℕ
weight a (object b) = if b == a then 1 else 0
weight a _ = 0

-- How many live carriers hold the object at `a`.
abbrev pub holders : ℕ → List (ℕ × Word) → ℕ
holders a [] = 0
holders a ((c, v) ∷ m) = weight a v + holders a m

abbrev pub protects : ℕ → List PinCall → ℕ
protects a [] = 0
protects a (protect b ∷ cs) = let rest = protects a cs in if b == a then suc rest else rest
protects a (unprotect b ∷ cs) = protects a cs

abbrev pub unprotects : ℕ → List PinCall → ℕ
unprotects a [] = 0
unprotects a (protect b ∷ cs) = unprotects a cs
unprotects a (unprotect b ∷ cs) = let rest = unprotects a cs in if b == a then suc rest else rest

pub protects-lock :
    (a : ℕ) (v : Word) (cs : List PinCall) → protects a (lock v cs) ≡ weight a v + protects a cs
unfolding lock
protects-lock a eol cs = omega arith
protects-lock a bool_f cs = omega arith
protects-lock a bool_t cs = omega arith
protects-lock a (object b) cs = ground arith

pub protects-unlock :
    (a : ℕ) (v : Word) (cs : List PinCall) → protects a (unlock v cs) ≡ protects a cs
unfolding unlock
protects-unlock a eol cs = refl
protects-unlock a bool_f cs = refl
protects-unlock a bool_t cs = refl
protects-unlock a (object b) cs = refl

pub unprotects-lock :
    (a : ℕ) (v : Word) (cs : List PinCall) → unprotects a (lock v cs) ≡ unprotects a cs
unfolding lock
unprotects-lock a eol cs = refl
unprotects-lock a bool_f cs = refl
unprotects-lock a bool_t cs = refl
unprotects-lock a (object b) cs = refl

pub unprotects-unlock :
    (a : ℕ) (v : Word) (cs : List PinCall)
    → unprotects a (unlock v cs) ≡ weight a v + unprotects a cs
unfolding unlock
unprotects-unlock a eol cs = omega arith
unprotects-unlock a bool_f cs = omega arith
unprotects-unlock a bool_t cs = omega arith
unprotects-unlock a (object b) cs = ground arith

erase-absent : (c : ℕ) (m : List (ℕ × Word)) → member c (keys m) ≡ false → erase c m ≡ m
unfolding erase
erase-absent c [] h = refl
erase-absent c ((d, w) ∷ m) h = ground (arith, erase-absent c m)

assign-absent :
    (c : ℕ) (v : Word) (m : List (ℕ × Word)) → member c (keys m) ≡ false → assign c v m ≡ m
unfolding assign
assign-absent c v [] h = refl
assign-absent c v ((d, w) ∷ m) h = ground (arith, assign-absent c v m)

holders-erase :
    (a c : ℕ) (m : List (ℕ × Word)) {v : Word}
    → find c m ≡ some v
    → IsDistinct (keys m)
    → weight a v + holders a (erase c m) ≡ holders a m
unfolding find erase
holders-erase a c [] f d = absurd (ground arith)
holders-erase a c ((j, w) ∷ m) {v} f d =
    ground (arith, erase-absent c m, holders-erase a c m {v = v})

holders-assign :
    (a c : ℕ) (u : Word) (m : List (ℕ × Word)) {v : Word}
    → find c m ≡ some v
    → IsDistinct (keys m)
    → weight a v + holders a (assign c u m) ≡ weight a u + holders a m
unfolding find assign
holders-assign a c u [] f d = absurd (ground arith)
holders-assign a c u ((j, w) ∷ m) {v} f d =
    ground (arith, assign-absent c u m, holders-assign a c u m {v = v})

-- The protections and the carriers agree on the object at `a`.
record IsPinned (a : ℕ) (s : Carriers) : Type 0 where
  pub balanced : protects a s.calls ≡ unprotects a s.calls + holders a s.live
  pub distinct : IsDistinct (keys s.live)
  pub fresh : All (λ c. c < s.next) (keys s.live)

member-below : (n : ℕ) (cs : List ℕ) → All (λ c. c < n) cs → member n cs ≡ false
member-below n [] h = refl
member-below n (c ∷ cs) h = ground (arith, member-below n cs h.1)

below-suc : (n : ℕ) (cs : List ℕ) → All (λ c. c < n) cs → All (λ c. c < suc n) cs
below-suc n [] h = tt
below-suc n (c ∷ cs) h = (omega arith, below-suc n cs h.1)

below-erase :
    (n c : ℕ) (m : List (ℕ × Word))
    → All (λ c. c < n) (keys m)
    → All (λ c. c < n) (keys (erase c m))
unfolding erase
below-erase n c [] h = tt
below-erase n c ((j, w) ∷ m) h = ground (arith, below-erase n c m h.1)

carry-IsPinned : (a : ℕ) (v : Word) (s : Carriers) → IsPinned a s → IsPinned a (carry v s)
unfolding carry
carry-IsPinned a v s p = record {
  balanced = omega (arith, protects-lock a v s.calls, unprotects-lock a v s.calls, p.balanced);
  distinct = (member-below s.next (keys s.live) p.fresh, p.distinct);
  fresh = (omega arith, below-suc s.next (keys s.live) p.fresh);
}

run-IsPinned : (a : ℕ) (p : PinStep) (s : Carriers) → IsPinned a s → IsPinned a (run p s)
unfolding carry_nil copy destroy set
run-IsPinned a (make v) s i = carry-IsPinned a v s i
run-IsPinned a make_nil s i = carry-IsPinned a eol s i
run-IsPinned a (copy_of c) s i = elim (Option-cases (find c s.live)) [
  | inl e ↦ rw (e, copy) i
  | inr (v, e) ↦ rw (e, copy) (carry-IsPinned a v s i)
]
run-IsPinned a (drop c) s i = elim (Option-cases (find c s.live)) [
  | inl e ↦ rw (e, destroy) i
  | inr (v, e) ↦
      rw (e, destroy)
        (record {
          balanced = omega (
            arith,
            protects-unlock a v s.calls,
            unprotects-unlock a v s.calls,
            i.balanced,
            holders-erase a c s.live {v = v} e i.distinct,
          );
          distinct = erase-IsDistinct c s.live i.distinct;
          fresh = below-erase s.next c s.live i.fresh;
        })
]
run-IsPinned a (put c u) s i = elim (Option-cases (find c s.live)) [
  | inl e ↦ rw (e, set) i
  | inr (v, e) ↦
      rw (e, set)
        (record {
          balanced = omega (
            arith,
            protects-unlock a v (lock u s.calls),
            unprotects-unlock a v (lock u s.calls),
            protects-lock a u s.calls,
            unprotects-lock a u s.calls,
            i.balanced,
            holders-assign a c u s.live {v = v} e i.distinct,
          );
          distinct = rw (keys-assign c u s.live) i.distinct;
          fresh = rw (keys-assign c u s.live) i.fresh;
        })
]

abbrev pub no_carriers : Carriers
no_carriers = record { live = []; next = 0; calls = [] }

run_all-IsPinned :
    (a : ℕ) (ps : List PinStep) (s : Carriers) → IsPinned a s → IsPinned a (run_all ps s)
run_all-IsPinned a [] s i = i
run_all-IsPinned a (p ∷ ps) s i = run_all-IsPinned a ps (run p s) (run-IsPinned a p s i)

-- After any making, copying, dropping and setting of carriers, the collector's protections of each
-- object, less the ones taken back, are as many as the live carriers that hold it: none is left behind
-- and none is taken back early.
pub run_all-holders :
    (a : ℕ) (ps : List PinStep)
    → let s = run_all ps no_carriers in protects a s.calls ≡ unprotects a s.calls + holders a s.live
run_all-holders a ps =
    (run_all-IsPinned a ps no_carriers
      (record { balanced = refl; distinct = tt; fresh = tt })).balanced
