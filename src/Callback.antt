-- ===== src/Callback.antt =====
-- What a bind's or a timer's callback answers, read into a result: `fireSchemeBindRec` of cpp/Bind.cpp
-- and `fireSchemeTimerRec` of cpp/Timer.cpp, which read it alike.
pub mod Fields
use hyprscheme.Base.{
  Bool, true, false, not, ◌&&◌, Option, none, some, [], if◌then◌else◌, Text, codes, text_eq,
}
use hyprscheme.Scm.{Scm, pair, is_symbol, is_string, is_false, is_true_value, datum_to_str}

-- `Keybinds::SBindResult`, as far as it is written here.
pub record BindResult : Type 0 where
  pub success : Bool
  pub pass_event : Bool
  pub trigger_release : Bool
  pub error : Text

abbrev pub handled : BindResult
handled = record { success = true; pass_event = false; trigger_release = false; error = [] }

abbrev pub failed : Text → BindResult
failed message = record handled { success = false; error = message }

abbrev pub text_of : Scm → Text
text_of (Scm.string t) = t
text_of _ = []

-- One field of the answer.
unfoldable pub read_field : Text → Scm → BindResult → BindResult
read_field k v res =
    if text_eq k (codes "ok")
    then (if is_false v then record res { success = false } else res)
    else if text_eq k (codes "pass-event")
    then (if is_true_value v then record res { pass_event = true } else res)
    else if text_eq k (codes "request-release")
    then (if is_true_value v then record res { trigger_release = true } else res)
    else if text_eq k (codes "error") && is_string v
    then record res { error = text_of v }
    else res

-- The loop over the plist; `none` is the Scheme error that a key which is no string and no symbol
-- raises.
unfoldable pub read_fields : Scm → BindResult → Option BindResult
read_fields (pair k (pair v rest)) res = elim (datum_to_str k) [
  | none ↦ none
  | some key ↦ read_fields rest (read_field key v res)
]
read_fields _ res = some res

abbrev pub head_is_symbol : Scm → Bool
head_is_symbol (pair a d) = is_symbol a
head_is_symbol _ = false

-- The result of a callback, from whether the interpreter is up and what the trampoline returned.
unfoldable pub fire_result : Bool → Scm → Option BindResult
unfolding read_fields
fire_result up r =
    if not up
    then some (failed (codes "scheme interpreter not initialized"))
    else if is_false r
    then some (failed (codes "scheme keybind callback declined"))
    else if not (head_is_symbol r)
    then some handled
    else read_fields r handled

-- The timer's callback is read in the same way, with the same texts.
unfoldable pub timer_result : Bool → Scm → Option BindResult
unfolding fire_result
timer_result up r = fire_result up r
