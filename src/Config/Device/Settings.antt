-- ===== src/Config/Device/Settings.antt =====
-- What the settings of a device are after `hlSchemeDeviceAdd` of cpp/Config.cpp.
use hyprscheme.Base.{
  ◌≡◌, refl, ap, sym, ◌∙◌, Bool, true, false, not, ◌||◌, ◌&&◌, Option, none, some, List, [], ◌∷◌,
  if◌then◌else◌, if_either, Text, codes, text_eq, text_eq_sound, is_empty, ◌⊎◌, inl, inr, arith,
}
use hyprscheme.Base.Int.{ℤ, pos, negsuc}
use hyprscheme.Scm.{Scm, is_pair}
use hyprscheme.Desktop.{Outcome, raised, crashed, answers}
use hyprscheme.Desktop.Workspaces.{or_empty}
use hyprscheme.Scm.Reads.{Read, read, refused, read_raised}
use hyprscheme.Config.Device.{
  DeviceValue, Doubles, read_settings, put_value, put_all, put_device, Devices, dashed,
  write_settings, device_add,
}

-- The value under a text.
abbrev pub look_up {ℓ} : {A : Type ℓ} → Text → List (Text × A) → Option A
look_up k [] = none
look_up k ((j, v) ∷ m) = let rest = look_up k m in if text_eq j k then some v else rest

-- The setting of a device under a key.
abbrev pub within : Text → Option (List (Text × DeviceValue)) → Option DeviceValue
within k none = none
within k (some m) = look_up k m

abbrev pub setting : Text → Text → List (Text × List (Text × DeviceValue)) → Option DeviceValue
setting dev k ds = within k (look_up dev ds)

-- The last value of a key in a list, or what there was.
abbrev pub newest : Text → List (Text × DeviceValue) → Option DeviceValue → Option DeviceValue
newest k [] old = old
newest k ((j, v) ∷ l) old = newest k l (if text_eq j k then some v else old)

text_eq_sym : (s t : Text) → text_eq s t ≡ text_eq t s
unfolding text_eq
text_eq_sym [] [] = refl
text_eq_sym [] (b ∷ t) = refl
text_eq_sym (a ∷ s) [] = refl
text_eq_sym (a ∷ s) (b ∷ t) = ground (arith, text_eq_sym s t)

-- A key that is equal to one of two different ones is not the other.
text_eq-apart : (i j k : Text) → text_eq j k ≡ false → text_eq j i ≡ true → text_eq k i ≡ false
text_eq-apart i j k apart same =
    text_eq_sym k i ∙ ap (λ t. text_eq t k) (sym (text_eq_sound j i same)) ∙ apart

text_eq-same : (i j k : Text) → text_eq j k ≡ true → text_eq j i ≡ text_eq k i
text_eq-same i j k same = ap (λ t. text_eq t i) (text_eq_sound j k same)

look_up-put_value :
    (i k : Text) (v : DeviceValue) (m : List (Text × DeviceValue))
    → look_up i (put_value k v m) ≡ (if text_eq k i then some v else look_up i m)
unfolding put_value
look_up-put_value i k v [] = refl
look_up-put_value i k v ((j, w) ∷ m) =
    ground (arith, look_up-put_value i k v m, text_eq-apart i j k, text_eq-same i j k)

look_up-put_all :
    (i : Text) (l m : List (Text × DeviceValue))
    → look_up i (put_all l m) ≡ newest i l (look_up i m)
unfolding put_all
look_up-put_all i [] m = refl
look_up-put_all i ((k, v) ∷ l) m =
    look_up-put_all i l (put_value k v m) ∙ ap (newest i l) (look_up-put_value i k v m)

-- A device's configuration after values were put, if the device is `e`.
abbrev pub put_within :
    List (Text × DeviceValue)
    → Option (List (Text × DeviceValue))
    → Option (List (Text × DeviceValue))
put_within l none = some (put_all l [])
put_within l (some m) = some (put_all l m)

look_up-put_device :
    (e dev : Text) (l : List (Text × DeviceValue)) (ds : List (Text × List (Text × DeviceValue)))
    → look_up e (put_device dev l ds)
      ≡ (if text_eq dev e then put_within l (look_up e ds) else look_up e ds)
unfolding put_device
look_up-put_device e dev l [] = refl
look_up-put_device e dev l ((j, m) ∷ ds) =
    ground (arith, look_up-put_device e dev l ds, text_eq-apart e j dev, text_eq-same e j dev)

within-put_within :
    (k : Text) (l : List (Text × DeviceValue)) (o : Option (List (Text × DeviceValue)))
    → within k (put_within l o) ≡ newest k l (within k o)
within-put_within k l none = look_up-put_all k l []
within-put_within k l (some m) = look_up-put_all k l m

setting-put_device :
    (e k dev : Text) (l : List (Text × DeviceValue)) (ds : List (Text × List (Text × DeviceValue)))
    → setting e k (put_device dev l ds)
      ≡ (if text_eq dev e then newest k l (setting e k ds) else setting e k ds)
setting-put_device e k dev l ds =
    ap (within k) (look_up-put_device e dev l ds) ∙ by_device (text_eq dev e)
  where
    by_device :
        (b : Bool)
        → within k (if b then put_within l (look_up e ds) else look_up e ds)
          ≡ (if b then newest k l (setting e k ds) else setting e k ds)
    by_device true = within-put_within k l (look_up e ds)
    by_device false = refl

-- A call that has what it needs: `ready` says so.
abbrev pub is_ready : Bool → Option Text → Scm → Bool
is_ready up name fields = up && not (is_empty (or_empty name)) && is_pair fields

-- The settings of a call were all written, with one refresh, or none was and nothing is scheduled, for a
-- reason.
abbrev pub IsWritten : Doubles → Bool → Text → Scm → Devices → Outcome (Devices × ℤ) → Type 0
IsWritten n ready dev fields s raised = read_settings n fields ≡ read_raised
IsWritten n ready dev fields s crashed = ⊥
IsWritten n ready dev fields s (answers (t, code)) =
    ((values : List (Text × DeviceValue)) × (read_settings n fields ≡ read values)
      × (code ≡ pos 0)
      × (t.refreshes ≡ codes "input-devices" ∷ s.refreshes)
      × ((e k : Text)
          → setting e k t.configs ≡ (
              if text_eq dev e
              then newest k values (setting e k s.configs)
              else setting e k s.configs)))
    ⊎ (((ready ≡ false) ⊎ ((why : Text) × (read_settings n fields ≡ refused why)))
        × (code ≡ negsuc 0)
        × (t.configs ≡ s.configs)
        × (t.refreshes ≡ s.refreshes))

write_settings-IsWritten :
    (n : Doubles) (ready : Bool) (dev : Text) (fields : Scm) (s : Devices)
    (r : Read (List (Text × DeviceValue)))
    → read_settings n fields ≡ r
    → IsWritten n ready dev fields s (write_settings dev r s)
unfolding write_settings
write_settings-IsWritten n ready dev fields s read_raised e = e
write_settings-IsWritten n ready dev fields s (refused why) e = inr (inr (why, e), refl, refl, refl)
write_settings-IsWritten n ready dev fields s (read values) e =
    inl (values, e, refl, refl, λ d k. setting-put_device d k dev values s.configs)

-- A call that configures a device either reads every field of the plist, and then each key of the device
-- has the last value that the plist gives it, or its earlier one, every other device is as it was, and
-- one refresh of the input devices is scheduled; or it writes nothing and schedules nothing: it answers
-- -1 without an interpreter, a name or a plist or with a field that is refused, or ends in a Scheme
-- error in which reading the fields ends.
pub device_add-IsWritten :
    (n : Doubles) (up : Bool) (name : Option Text) (fields : Scm) (s : Devices)
    → IsWritten n
        (is_ready up name fields)
        (dashed (or_empty name))
        fields
        s
        (device_add n up name fields s)
unfolding device_add
device_add-IsWritten n up name fields s =
    if_either (IsWritten n (is_ready up name fields) (dashed (or_empty name)) fields s)
      (not up || is_empty (or_empty name))
      (λ missing. inr (inl (ground (arith, missing)), refl, refl, refl))
      (λ given.
        if_either (IsWritten n (is_ready up name fields) (dashed (or_empty name)) fields s)
          (not (is_pair fields)) (λ empty. inr (inl (ground (arith, empty)), refl, refl, refl))
          (λ some_fields.
            write_settings-IsWritten n (is_ready up name fields) (dashed (or_empty name)) fields s
              (read_settings n fields) refl))
