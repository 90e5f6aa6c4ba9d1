-- ===== src/Callback/Fields.antt =====
-- What each field of a callback's answer does to the result.
use hyprscheme.Base.{
  ◌≡◌, refl, Bool, true, false, not, ◌||◌, ◌&&◌, some, List, [], ◌∷◌, Text, codes, text_eq, any,
  arith, Bool-cases, inl, inr, text_eq_sound,
}
use hyprscheme.Scm.{Scm, pair, nil, symbol, is_false, is_true_value, datum_to_str}
use hyprscheme.Callback.{BindResult, read_field, read_fields}

-- A property list of keys and values.
abbrev pub plist : List (Text × Scm) → Scm
plist [] = nil
plist ((k, v) ∷ fs) = pair (symbol k) (pair v (plist fs))

abbrev pub declines : Text × Scm → Bool
declines (k, v) = text_eq k (codes "ok") && is_false v

abbrev pub passes_event : Text × Scm → Bool
passes_event (k, v) = text_eq k (codes "pass-event") && is_true_value v

abbrev pub asks_release : Text × Scm → Bool
asks_release (k, v) = text_eq k (codes "request-release") && is_true_value v

-- The results that the Booleans of a result may have.
abbrev pub Reads : BindResult → List (Text × Scm) → BindResult → Type 0
Reads res fs out =
    (out.success ≡ (res.success && not (any declines fs)))
    × (out.pass_event ≡ (res.pass_event || any passes_event fs))
    × (out.trigger_release ≡ (res.trigger_release || any asks_release fs))

different : (k s t : Text) → text_eq k s ≡ true → text_eq s t ≡ false → text_eq k t ≡ false
different k s t h n = let e : k ≡ s = text_eq_sound k s h in rw e n

ok-others :
    (k : Text)
    → text_eq k (codes "ok") ≡ true
    → (text_eq k (codes "pass-event") ≡ false) × (text_eq k (codes "request-release") ≡ false)
unfolding text_eq
ok-others k h = (
  different k (codes "ok") (codes "pass-event") h refl,
  different k (codes "ok") (codes "request-release") h refl,
)

pass_event-others :
    (k : Text) → text_eq k (codes "pass-event") ≡ true → text_eq k (codes "request-release") ≡ false
unfolding text_eq
pass_event-others k h = different k (codes "pass-event") (codes "request-release") h refl

read_field-Reads :
    (k : Text) (v : Scm) (res : BindResult) → Reads res ((k, v) ∷ []) (read_field k v res)
unfolding read_field
read_field-Reads k v res = elim (Bool-cases (text_eq k (codes "ok"))) [
  | inl e ↦ let (a, b) = ok-others k e in ground arith
  | inr e ↦ elim (Bool-cases (text_eq k (codes "pass-event"))) [
    | inl f ↦ let b = pass_event-others k f in ground arith
    | inr f ↦ ground arith
  ]
]

Reads-cons :
    (k : Text) (v : Scm) (fs : List (Text × Scm)) (res mid out : BindResult)
    → Reads res ((k, v) ∷ []) mid
    → Reads mid fs out
    → Reads res ((k, v) ∷ fs) out
Reads-cons k v fs res mid out first rest = ground arith

-- A property list of any length is read to its end: the result fails exactly if it did before or some
-- 'ok is #f, it passes the event on exactly if it did before or some 'pass-event is #t, and it asks for
-- the release exactly if it did before or some 'request-release is #t.
pub read_fields-Reads :
    (fs : List (Text × Scm)) (res : BindResult)
    → (out : BindResult) × (read_fields (plist fs) res ≡ some out) × Reads res fs out
unfolding read_fields datum_to_str
read_fields-Reads [] res = (res, refl, ground arith)
read_fields-Reads ((k, v) ∷ fs) res =
    let (out, e, h) = read_fields-Reads fs (read_field k v res) in
    (out, e, Reads-cons k v fs res (read_field k v res) out (read_field-Reads k v res) h)
