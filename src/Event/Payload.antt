-- ===== src/Event/Payload.antt =====
-- What a handler is called with: the `fireScheme...` helpers of cpp/Event.cpp and the closures that
-- call them. An object behind a pointer or a weak reference is a number, a null pointer `none`.
use hyprscheme.Base.{
  ℕ, ◌+◌, ◌≡◌, refl, Bool, true, false, Option, none, some, List, [], ◌∷◌, if◌then◌else◌, Text,
  codes, not,
}
use hyprscheme.Base.Int.{pos}
use hyprscheme.Scm.{Scm, bool, int, string, handle, Family, window, workspace, monitor, list_of}

-- A call of a Scheme procedure, by its name.
pub record Fire : Type 0 where
  pub procedure : Text
  pub arguments : List Scm

abbrev pub call_of : Bool → Text → List Scm → List Fire
call_of up p vs = if not up then [] else record { procedure = p; arguments = vs } ∷ []

-- A handle, or `#f` for a null pointer.
abbrev pub handle_or_false : Family → Option ℕ → Scm
handle_or_false f none = bool false
handle_or_false f (some o) = handle f o

unfoldable pub fire_scheme : Bool → Scm → List Fire
fire_scheme up r = call_of up (codes "hl--event-fire") (r ∷ [])

unfoldable pub fire_scheme_str : Bool → Scm → Text → List Fire
fire_scheme_str up r arg = call_of up (codes "hl--fire-str-rec") (r ∷ string arg ∷ [])

unfoldable pub fire_scheme_bool : Bool → Scm → Bool → List Fire
fire_scheme_bool up r arg = call_of up (codes "hl--fire-bool-rec") (r ∷ bool arg ∷ [])

unfoldable pub fire_scheme_win : Bool → Scm → Option ℕ → List Fire
fire_scheme_win up r w = call_of up (codes "hl--fire-win-rec") (r ∷ handle_or_false window w ∷ [])

unfoldable pub fire_scheme_win_ref : Bool → Scm → ℕ → List Fire
fire_scheme_win_ref up r w = call_of up (codes "hl--fire-win-rec") (r ∷ handle window w ∷ [])

unfoldable pub fire_scheme_win_ws : Bool → Scm → Option ℕ → Option ℕ → List Fire
fire_scheme_win_ws up r w ws =
    call_of up (codes "hl--fire-win-ws-rec")
      (r ∷ handle_or_false window w ∷ handle_or_false workspace ws ∷ [])

unfoldable pub fire_scheme_str_or_null : Bool → Scm → Option Text → List Fire
fire_scheme_str_or_null up r none = call_of up (codes "hl--fire-str-rec") (r ∷ bool false ∷ [])
fire_scheme_str_or_null up r (some t) = call_of up (codes "hl--fire-str-rec") (r ∷ string t ∷ [])

unfoldable pub fire_scheme_ws : Bool → Scm → Option ℕ → List Fire
fire_scheme_ws up r ws =
    call_of up (codes "hl--fire-ws-rec") (r ∷ handle_or_false workspace ws ∷ [])

unfoldable pub fire_scheme_ws_ref : Bool → Scm → ℕ → List Fire
fire_scheme_ws_ref up r ws = call_of up (codes "hl--fire-ws-rec") (r ∷ handle workspace ws ∷ [])

unfoldable pub fire_scheme_mon : Bool → Scm → Option ℕ → List Fire
fire_scheme_mon up r m = call_of up (codes "hl--fire-mon-rec") (r ∷ handle_or_false monitor m ∷ [])

unfoldable pub fire_scheme_ws_mon : Bool → Scm → Option ℕ → Option ℕ → List Fire
fire_scheme_ws_mon up r ws m =
    call_of up (codes "hl--fire-ws-mon-rec")
      (r ∷ handle_or_false workspace ws ∷ handle_or_false monitor m ∷ [])

unfoldable pub fire_scheme_list_rec : Bool → Scm → List Scm → List Fire
unfolding list_of
fire_scheme_list_rec up r vs = call_of up (codes "hl--fire-list-rec") (r ∷ list_of vs ∷ [])

-- The closure of `hlSchemeWindowMinimizeListen`.
unfoldable pub fire_minimized : Bool → Scm → Option ℕ → Bool → List Fire
fire_minimized up r w state =
    call_of up (codes "hl--fire-win-state-rec") (r ∷ handle_or_false window w ∷ bool state ∷ [])

-- What a signal carries. A locked weak reference is `none` when its object is gone.
pub data Emission : Type 0 where
  plain : Emission
  of_window : Option ℕ → Emission
  of_window_ref : ℕ → Emission
  of_window_and_workspace : Option ℕ → Option ℕ → Emission
  of_minimized : Option ℕ → Bool → Emission
  of_monitor : Option ℕ → Emission
  of_workspace : Option ℕ → Emission
  of_workspace_ref : ℕ → Emission
  of_workspace_and_monitor : Option ℕ → Option ℕ → Emission
  of_flag : Bool → Emission
  of_name : Text → Emission
  of_layer : Option Text → Emission
  of_screenshare : Bool → ℕ → Text → Emission
  of_key : ℕ → ℕ → ℕ → Emission

-- The closures. A key's code is the compositor's plus 8; the numbers are small enough for an `int`.
unfoldable pub fire_emission : Bool → Scm → Emission → List Fire
unfolding fire_scheme fire_scheme_str fire_scheme_bool fire_scheme_win fire_scheme_win_ref
    fire_scheme_win_ws fire_scheme_str_or_null fire_scheme_ws fire_scheme_ws_ref fire_scheme_mon
    fire_scheme_ws_mon fire_scheme_list_rec fire_minimized
fire_emission up r plain = fire_scheme up r
fire_emission up r (of_window w) = fire_scheme_win up r w
fire_emission up r (of_window_ref w) = fire_scheme_win_ref up r w
fire_emission up r (of_window_and_workspace w ws) = fire_scheme_win_ws up r w ws
fire_emission up r (of_minimized w state) = fire_minimized up r w state
fire_emission up r (of_monitor m) = fire_scheme_mon up r m
fire_emission up r (of_workspace ws) = fire_scheme_ws up r ws
fire_emission up r (of_workspace_ref ws) = fire_scheme_ws_ref up r ws
fire_emission up r (of_workspace_and_monitor ws m) = fire_scheme_ws_mon up r ws m
fire_emission up r (of_flag b) = fire_scheme_bool up r b
fire_emission up r (of_name t) = fire_scheme_str up r t
fire_emission up r (of_layer t) = fire_scheme_str_or_null up r t
fire_emission up r (of_screenshare state kind name) =
    fire_scheme_list_rec up r (bool state ∷ int (pos kind) ∷ string name ∷ [])
fire_emission up r (of_key code time state) =
    fire_scheme_list_rec up r (int (pos (code + 8)) ∷ int (pos time) ∷ int (pos state) ∷ [])

-- The payload rule, as it is written down: an object crosses as its handle, and one that is missing
-- as `#f`; nothing else depends on what is missing.
abbrev pub object_crosses : Family → Option ℕ → Scm
object_crosses f o = elim o [ none ↦ bool false | some a ↦ handle f a ]

abbrev pub text_crosses : Option Text → Scm
text_crosses t = elim t [ none ↦ bool false | some s ↦ string s ]

abbrev pub payload_of : Emission → List Scm
payload_of plain = []
payload_of (of_window w) = object_crosses window w ∷ []
payload_of (of_window_ref w) = handle window w ∷ []
payload_of (of_window_and_workspace w ws) =
    object_crosses window w ∷ object_crosses workspace ws ∷ []
payload_of (of_minimized w state) = object_crosses window w ∷ bool state ∷ []
payload_of (of_monitor m) = object_crosses monitor m ∷ []
payload_of (of_workspace ws) = object_crosses workspace ws ∷ []
payload_of (of_workspace_ref ws) = handle workspace ws ∷ []
payload_of (of_workspace_and_monitor ws m) =
    object_crosses workspace ws ∷ object_crosses monitor m ∷ []
payload_of (of_flag b) = bool b ∷ []
payload_of (of_name t) = string t ∷ []
payload_of (of_layer t) = text_crosses t ∷ []
payload_of (of_screenshare state kind name) =
    list_of (bool state ∷ int (pos kind) ∷ string name ∷ []) ∷ []
payload_of (of_key code time state) =
    list_of (int (pos (code + 8)) ∷ int (pos time) ∷ int (pos state) ∷ []) ∷ []

abbrev pub arguments_of : List Fire → List (List Scm)
arguments_of [] = []
arguments_of (f ∷ fs) = f.arguments ∷ arguments_of fs

null_crosses : (f : Family) (o : Option ℕ) → handle_or_false f o ≡ object_crosses f o
null_crosses f none = refl
null_crosses f (some a) = refl

-- The payload rule: with the interpreter up, each notification makes exactly one call, which passes the
-- handler's record and the notification's payload, an object that is missing as `#f`; with the
-- interpreter down it makes no call.
pub payload_rule :
    (r : Scm) (e : Emission)
    → (arguments_of (fire_emission true r e) ≡ (r ∷ payload_of e) ∷ [])
      × (fire_emission false r e ≡ [])
unfolding fire_emission fire_scheme fire_scheme_str fire_scheme_bool fire_scheme_win
    fire_scheme_win_ref fire_scheme_win_ws fire_scheme_str_or_null fire_scheme_ws fire_scheme_ws_ref
    fire_scheme_mon fire_scheme_ws_mon fire_scheme_list_rec fire_minimized
payload_rule r plain = (refl, refl)
payload_rule r (of_window w) = (rw (null_crosses window w) refl, refl)
payload_rule r (of_window_ref w) = (refl, refl)
payload_rule r (of_window_and_workspace w ws) =
    (rw (null_crosses window w, null_crosses workspace ws) refl, refl)
payload_rule r (of_minimized w state) = (rw (null_crosses window w) refl, refl)
payload_rule r (of_monitor m) = (rw (null_crosses monitor m) refl, refl)
payload_rule r (of_workspace ws) = (rw (null_crosses workspace ws) refl, refl)
payload_rule r (of_workspace_ref ws) = (refl, refl)
payload_rule r (of_workspace_and_monitor ws m) =
    (rw (null_crosses workspace ws, null_crosses monitor m) refl, refl)
payload_rule r (of_flag b) = (refl, refl)
payload_rule r (of_name t) = (refl, refl)
payload_rule r (of_layer none) = (refl, refl)
payload_rule r (of_layer (some t)) = (refl, refl)
payload_rule r (of_screenshare state kind name) = (refl, refl)
payload_rule r (of_key code time state) = (refl, refl)
