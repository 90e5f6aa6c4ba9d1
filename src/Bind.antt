-- ===== src/Bind.antt =====
-- Binds: cpp/Bind.cpp without its keys, and the removal of our binds in `shutdown` of cpp/Host.cpp. The
-- compositor's registry is the only list of them; `digits` is how it writes a record's address.
pub mod Ownership
pub mod Precision
pub mod Submap
mod Tests
use hyprscheme.Base.{
  ℕ, suc, ◌==◌, Bool, true, false, not, ◌||◌, ◌&&◌, Option, none, some, List, [], ◌∷◌, ◌++◌,
  if◌then◌else◌, Text, codes, text_eq, has_prefix, keep, is_empty, length,
}
use hyprscheme.Base.Int.{ℤ, pos, negsuc}
use hyprscheme.Scm.{Scm, elements, is_string, is_false}

-- A bind in the registry: its number stands for the pointer, and `record_of` for the record that its
-- callback holds.
pub record Bind : Type 0 where
  pub id : ℕ
  pub record_of : ℕ
  pub keys : List Text
  pub flags : ℕ
  pub display_key : Text
  pub argument : Text
  pub description : Text
  pub submap : Text
  pub submap_reset : Text
  pub devices : List Text
  pub enabled : Bool

pub record Binds : Type 0 where
  pub registry : List Bind
  pub next : ℕ
  pub error : Text

abbrev pub done : ℤ
done = pos 0

abbrev pub refused : ℤ
refused = negsuc 0

abbrev pub tag_prefix : Text
tag_prefix = codes "scheme:"

unfoldable pub bind_tag : (ℕ → Text) → ℕ → Text
bind_tag digits r = tag_prefix ++ digits r

-- The loop of `displayKeyOf`: '+' goes before a token unless nothing is written yet.
unfoldable pub display_key_from : Text → List Text → Text
display_key_from out [] = out
display_key_from out (k ∷ ks) =
    display_key_from ((if is_empty out then out else out ++ b'+' ∷ []) ++ k) ks

unfoldable pub display_key_of : List Text → Text
unfolding display_key_from
display_key_of ks = display_key_from [] ks

unfoldable pub strings_of : List Scm → List Text
strings_of [] = []
strings_of (Scm.string t ∷ vs) = t ∷ strings_of vs
strings_of (_ ∷ vs) = strings_of vs

unfoldable pub tokens_of : Scm → List Text
unfolding strings_of elements
tokens_of tokens = strings_of (elements tokens)

-- The names of the devices, or `none` for an element that is no string.
unfoldable pub device_names : List Scm → Option (List Text)
device_names [] = some []
device_names (Scm.string t ∷ vs) = elim (device_names vs) [ none ↦ none | some ts ↦ some (t ∷ ts) ]
device_names (_ ∷ vs) = none

-- What a bind is asked for: the token list, the flags, the description, the devices, the submap and
-- the submap to enter afterwards.
pub record Wanted : Type 0 where
  pub tokens : Scm
  pub flags : ℕ
  pub description : Text
  pub devices : Scm
  pub submap : Text
  pub submap_reset : Text

abbrev pub new_bind : (ℕ → Text) → ℕ → ℕ → Wanted → List Text → Bind
new_bind digits id r w names = record {
  id = id;
  record_of = r;
  keys = tokens_of w.tokens;
  flags = w.flags;
  display_key = display_key_of (tokens_of w.tokens);
  argument = bind_tag digits r;
  description = w.description;
  submap = w.submap;
  submap_reset = w.submap_reset;
  devices = names;
  enabled = true;
}

-- `hlSchemeBind`: `refusal` is the error of the compositor's `CBind::make`, if it refuses.
unfoldable pub scheme_bind :
    (ℕ → Text) → (Bind → Option Text) → Bool → ℕ → Wanted → Binds → Binds × ℤ
unfolding device_names elements
scheme_bind digits refusal up r w s =
    if not up then (s, refused) else elim (device_names (elements w.devices)) [
      | none ↦ (
        record s { error = codes "hl-bind-add!: 'devices must be a list of device name strings" },
        refused,
      )
      | some names ↦ elim (refusal (new_bind digits s.next r w names)) [
        | some why ↦ (record s { error = codes "hl-bind-add!: " ++ why }, refused)
        | none ↦ (
          record s {
            registry = s.registry ++ new_bind digits s.next r w names ∷ [];
            next = suc s.next;
          },
          done,
        )
      ]
    ]

-- `removeBinds` of the compositor takes each bind whose display key is the same once normalised.
unfoldable pub scheme_unbind_key : (Text → Text) → Bool → Scm → Binds → Binds × ℤ
unfolding tokens_of display_key_of
scheme_unbind_key normal up tokens s =
    let stays : Bind → Bool =
      λ b. not (text_eq (normal b.display_key) (normal (display_key_of (tokens_of tokens)))) in
    if not up || is_empty (tokens_of tokens)
    then (s, refused)
    else if length (keep stays s.registry) == length s.registry
    then (s, refused)
    else (record s { registry = keep stays s.registry }, done)

unfoldable pub tagged : Text → List Bind → Option Bind
tagged tag [] = none
tagged tag (b ∷ bs) = if text_eq b.argument tag then some b else tagged tag bs

unfoldable pub find_scheme_bind : (ℕ → Text) → Bool → ℕ → Binds → Option Bind
unfolding bind_tag tagged
find_scheme_bind digits up r s = if not up then none else tagged (bind_tag digits r) s.registry

-- `removeBind` of the compositor takes the bind that it is given.
unfoldable pub remove_bind : ℕ → List Bind → List Bind
remove_bind id bs = keep (λ b. not (b.id == id)) bs

unfoldable pub scheme_unbind_rec : (ℕ → Text) → Bool → ℕ → Binds → Binds × ℤ
unfolding find_scheme_bind remove_bind
scheme_unbind_rec digits up r s = elim (find_scheme_bind digits up r s) [
  | none ↦ (s, refused)
  | some b ↦ (record s { registry = remove_bind b.id s.registry }, done)
]

unfoldable pub set_enabled_of : ℕ → Bool → List Bind → List Bind
set_enabled_of id on [] = []
set_enabled_of id on (b ∷ bs) =
    (if b.id == id then record b { enabled = on } else b) ∷ set_enabled_of id on bs

unfoldable pub bind_enabled_set : (ℕ → Text) → Bool → ℕ → Scm → Binds → Binds × ℤ
unfolding find_scheme_bind set_enabled_of
bind_enabled_set digits up r on s = elim (find_scheme_bind digits up r s) [
  | none ↦ (s, refused)
  | some b ↦ (record s { registry = set_enabled_of b.id (not (is_false on)) s.registry }, done)
]

unfoldable pub bind_enabled : (ℕ → Text) → Bool → ℕ → Binds → ℤ
unfolding find_scheme_bind
bind_enabled digits up r s = elim (find_scheme_bind digits up r s) [
  | none ↦ refused
  | some b ↦ if b.enabled then pos 1 else pos 0
]

abbrev pub is_ours : Bind → Bool
is_ours b = has_prefix tag_prefix b.argument

unfoldable pub remove_each : List Bind → List Bind → List Bind
unfolding remove_bind
remove_each [] bs = bs
remove_each (b ∷ ours) bs = remove_each ours (remove_bind b.id bs)

-- Our binds are collected first and then removed, one by one.
unfoldable pub shutdown_binds : Binds → Binds
unfolding remove_each
shutdown_binds s = record s { registry = remove_each (keep is_ours s.registry) s.registry }
