-- ===== src/Notification/Adding.antt =====
-- What cpp/Notification.cpp adds.
use hyprscheme.Base.{
  ℕ, ◌≡◌, refl, Bool, true, false, not, ◌||◌, Option, none, some, ◌∷◌, Text, codes, text_eq,
  is_empty, if_either, arith, Bool-cases, Option-cases, inl, inr, ◌⊎◌,
}
use hyprscheme.Scm.{Scm, pair, is_string, datum_to_str}
use hyprscheme.Scm.Reads.{Read, read, refused, read_raised}
use hyprscheme.Notification.Store.{Icons, Numbers, Note, Notes, icon_from_scheme, color_from_number}
use hyprscheme.Notification.Reading.{
  Draft, Reading, drafted, bad_field, raised, from_read, bad_icon_field, bad_color_field,
  read_timeout, read_font_size, read_icon, read_color, read_note_field, read_note, blank, note_of,
  notification_add, add_draft, add_reading,
}

module _ (icons : Icons) (numbers : Numbers) where
  -- The size of a draft is positive.
  abbrev Sized : Reading → Type 0
  Sized (drafted d) = numbers.above_zero d.font_size ≡ true
  Sized (bad_field t) = Unit
  Sized raised = Unit

  from_read-Sized : (r : Read ℕ) (f : ℕ → Reading) → ((x : ℕ) → Sized (f x)) → Sized (from_read r f)
  from_read-Sized (read x) f h = h x
  from_read-Sized (refused why) f h = tt
  from_read-Sized read_raised f h = tt

  read_font_size-Sized : (v : Scm) (d : Draft) → Sized (read_font_size icons numbers v d)
  unfolding read_font_size
  read_font_size-Sized v d =
      from_read-Sized _ _
        (λ x. if_either Sized (not (numbers.above_zero x)) (λ e. tt) (λ e. ground (arith, e)))

  read_timeout-Sized :
      (v : Scm) (d : Draft)
      → numbers.above_zero d.font_size ≡ true
      → Sized (read_timeout icons numbers v d)
  unfolding read_timeout
  read_timeout-Sized v d h =
      from_read-Sized _ _ (λ x. if_either Sized (numbers.below_zero x) (λ e. tt) (λ e. h))

  read_icon-Sized :
      (v : Scm) (d : Draft)
      → numbers.above_zero d.font_size ≡ true
      → Sized (read_icon icons numbers v d)
  unfolding read_icon
  read_icon-Sized v d h =
      from_read-Sized (icon_from_scheme icons numbers.reals bad_icon_field v)
        (λ i. drafted (record d { icon = i })) (λ x. h)

  read_color-Sized :
      (v : Scm) (d : Draft)
      → numbers.above_zero d.font_size ≡ true
      → Sized (read_color icons numbers v d)
  unfolding read_color
  read_color-Sized v d h =
      from_read-Sized (color_from_number numbers bad_color_field v)
        (λ c. drafted (record d { color = c })) (λ x. h)

  read_note_field-Sized :
      (k : Text) (v : Scm) (d : Draft)
      → numbers.above_zero d.font_size ≡ true
      → Sized (read_note_field icons numbers k v d)
  unfolding read_note_field
  read_note_field-Sized k v d h = elim (Bool-cases (text_eq k (codes "text"))) [
    | inl a ↦ elim (Bool-cases (is_string v)) [
      | inl b ↦ rw (a, b, read_note_field) h
      | inr b ↦ rw (a, b, read_note_field) tt
    ]
    | inr a ↦
        elim (Bool-cases (
          text_eq k (codes "timeout")
          || (text_eq k (codes "duration") || text_eq k (codes "time")))) [
            | inl b ↦ rw (a, b, read_note_field) (read_timeout-Sized v d h)
            | inr b ↦ elim (Bool-cases (text_eq k (codes "icon"))) [
              | inl c ↦ rw (a, b, c, read_note_field) (read_icon-Sized v d h)
              | inr c ↦ elim (Bool-cases (text_eq k (codes "color"))) [
                | inl e ↦ rw (a, b, c, e, read_note_field) (read_color-Sized v d h)
                | inr e ↦ elim (Bool-cases (text_eq k (codes "font-size"))) [
                  | inl f ↦ rw (a, b, c, e, f, read_note_field) (read_font_size-Sized v d)
                  | inr f ↦ rw (a, b, c, e, f, read_note_field) tt
                ]
              ]
            ]
          ]
  ]

  read_note-Sized :
      (fields : Scm) (d : Draft)
      → numbers.above_zero d.font_size ≡ true
      → Sized (read_note icons numbers fields d)
  unfolding read_note
  read_note-Sized (pair k (pair v rest)) d h = elim (Option-cases (datum_to_str k)) [
    | inl e ↦ rw (e, read_note) tt
    | inr (key, e) ↦
        step key e (read_note_field icons numbers key v d) refl (read_note_field-Sized key v d h)
          (read_note-Sized rest)
  ]
    where
      step :
          (key : Text)
          → datum_to_str k ≡ some key
          → (r : Reading) → read_note_field icons numbers key v d ≡ r
          → Sized r
          → ((e : Draft)
              → numbers.above_zero e.font_size ≡ true
              → Sized (read_note icons numbers rest e))
          → Sized (read_note icons numbers (pair k (pair v rest)) d)
      step key q (drafted e) f g next = rw (q, f, read_note) (next e g)
      step key q (bad_field why) f g next = rw (q, f, read_note) tt
      step key q raised f g next = rw (q, f, read_note) tt
  read_note-Sized _ d h = h

  -- Nothing was added and there is no answer; or one notification was, with a text, a timeout that is
  -- not below zero and a size above zero.
  abbrev pub IsAdded : Notes → Notes × Option ℕ → Type 0
  IsAdded s out =
      ((out.1 ≡ none) × (out.0.live ≡ s.live))
      ⊎ ((n : Note) × (out.1 ≡ some s.next)
          × (out.0.live ≡ (s.next, n) ∷ s.live)
          × (is_empty n.text ≡ false)
          × (numbers.below_zero n.timeout ≡ false)
          × (numbers.above_zero n.font_size ≡ true))

  add_draft-IsAdded :
      (gives : Bool) (handle : ℕ) (d : Draft) (s : Notes)
      → numbers.above_zero d.font_size ≡ true
      → IsAdded s (add_draft icons numbers gives handle d s)
  unfolding add_draft
  add_draft-IsAdded gives handle d s h = elim (Bool-cases (is_empty d.text)) [
    | inl e ↦ rw (e, add_draft) (inl (refl, refl))
    | inr e ↦ elim (Bool-cases (numbers.below_zero d.timeout)) [
      | inl f ↦ rw (e, f, add_draft) (inl (refl, refl))
      | inr f ↦ elim (Bool-cases (not gives)) [
        | inl g ↦ rw (e, f, g, add_draft) (inl (refl, refl))
        | inr g ↦ rw (e, f, g, add_draft) (inr (note_of icons numbers d, refl, refl, e, f, h))
      ]
    ]
  ]

  add_reading-IsAdded :
      (gives : Bool) (handle : ℕ) (r : Reading) (s : Notes)
      → Sized r
      → IsAdded s (add_reading icons numbers gives handle r s)
  unfolding add_reading
  add_reading-IsAdded gives handle raised s g = inl (refl, refl)
  add_reading-IsAdded gives handle (bad_field why) s g = inl (refl, refl)
  add_reading-IsAdded gives handle (drafted d) s g = add_draft-IsAdded gives handle d s g

  -- A notification that is added has a text, a timeout that is not below zero and a size above zero,
  -- whatever the property list of its fields holds, and without one there is no answer and nothing is
  -- added; the default size is above zero.
  pub notification_add-IsAdded :
      (up gives : Bool) (handle : ℕ) (fields : Scm) (s : Notes)
      → numbers.above_zero numbers.thirteen ≡ true
      → IsAdded s (notification_add icons numbers up gives handle fields s)
  unfolding notification_add
  notification_add-IsAdded true gives handle fields s h =
      add_reading-IsAdded gives handle (read_note icons numbers fields (blank icons numbers)) s
        (read_note-Sized fields (blank icons numbers) h)
  notification_add-IsAdded false gives handle fields s h = inl (refl, refl)
