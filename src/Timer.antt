-- ===== src/Timer.antt =====
-- The timer family: cpp/Timer.cpp. The event loop and its timers are the compositor's: what is done to
-- them is the log `calls`, the newest call first.
pub mod Lifetime
pub mod Histories
mod Tests
use hyprscheme.Base.{
  ℕ, suc, ◌≡◌, Bool, true, false, not, ◌||◌, ◌&&◌, Option, none, some, List, [], ◌∷◌, ◌++◌,
  if◌then◌else◌, find, emplace, erase, assign,
}
use hyprscheme.Base.Int.{ℤ, pos, negsuc, is_negative, pos_part}

pub data LoopCall : Type 0 where
  make_timer : ℕ → ℕ → LoopCall
  add_timer : ℕ → LoopCall
  remove_timer : ℕ → LoopCall
  cancel_timer : ℕ → LoopCall
  update_timeout : ℕ → Option ℕ → LoopCall

-- `STimerEntry`: `repeat` is read as a truth value.
pub record Entry : Type 0 where
  pub timer : ℕ
  pub repeats : Bool
  pub ms : ℕ

-- `g_timerIndex`, the number of the next timer object, and the log.
pub record Timers : Type 0 where
  pub index : List (ℕ × Entry)
  pub next : ℕ
  pub calls : List LoopCall

-- What the entry points answer: 0 or -1.
abbrev pub done : ℤ
done = pos 0

abbrev pub refused : ℤ
refused = negsuc 0

-- `hlSchemeTimer`, given whether the interpreter is up and the event loop there.
unfoldable pub scheme_timer : Bool → Bool → ℕ → ℤ → Bool → Timers → Timers × ℤ
scheme_timer up loop r ms repeats s =
    if not up || not loop || is_negative ms then (s, refused) else (
      record {
        index = emplace r (record { timer = s.next; repeats = repeats; ms = pos_part ms }) s.index;
        next = suc s.next;
        calls = add_timer s.next ∷ make_timer s.next (pos_part ms) ∷ s.calls;
      },
      done,
    )

-- The interval to re-arm with: the entry's current one, or that of the closure.
unfoldable pub current_ms : ℕ → ℕ → Timers → ℕ
current_ms r ms s = elim (find r s.index) [ none ↦ ms | some e ↦ e.ms ]

-- The timer's closure once the callback has returned: `t`, `ms` and `repeats` are what it captured.
unfoldable pub after_fire : Bool → ℕ → ℕ → ℕ → Bool → Bool → Timers → Timers
unfolding current_ms
after_fire loop r t ms repeats success s =
    if repeats && success
    then record s { calls = update_timeout t (some (current_ms r ms s)) ∷ s.calls }
    else record s {
      index = erase r s.index;
      calls = if loop then remove_timer t ∷ cancel_timer t ∷ s.calls else cancel_timer t ∷ s.calls;
    }

unfoldable pub timer_set_enabled : Bool → ℕ → Bool → Timers → Timers × ℤ
timer_set_enabled up r enabled s = if not up then (s, refused) else elim (find r s.index) [
  | none ↦ (s, refused)
  | some e ↦ (
    record s { calls = update_timeout e.timer (if enabled then some e.ms else none) ∷ s.calls },
    done,
  )
]

-- `armed` is the compositor's `CEventLoopTimer::armed`.
unfoldable pub timer_enabled : (ℕ → Bool) → ℕ → Timers → ℤ
timer_enabled armed r s = elim (find r s.index) [
  | none ↦ pos 0
  | some e ↦ if armed e.timer then pos 1 else pos 0
]

-- The double that is passed is its bit pattern: `below_one` compares it with 1, and `whole` is its cast
-- to a number of milliseconds.
unfoldable pub timer_set_timeout : (ℕ → Bool) → (ℕ → ℕ) → Bool → ℕ → ℕ → Timers → Timers × ℤ
timer_set_timeout below_one whole up r ms s =
    if not up then (s, refused) else elim (find r s.index) [
      | none ↦ (s, refused)
      | some e ↦ if below_one ms then (s, refused) else (
        record s {
          index = assign r (record e { ms = whole ms }) s.index;
          calls = update_timeout e.timer (some (whole ms)) ∷ s.calls;
        },
        done,
      )
    ]

unfoldable pub timer_cancel : Bool → Bool → ℕ → Timers → Timers × ℤ
timer_cancel up loop r s = if not up || not loop then (s, refused) else elim (find r s.index) [
  | none ↦ (s, refused)
  | some e ↦ (
    record s {
      index = erase r s.index;
      calls = remove_timer e.timer ∷ cancel_timer e.timer ∷ s.calls;
    },
    done,
  )
]

unfoldable pub cancel_each : List (ℕ × Entry) → List LoopCall → List LoopCall
cancel_each [] cs = cs
cancel_each ((r, e) ∷ m) cs = cancel_each m (remove_timer e.timer ∷ cancel_timer e.timer ∷ cs)

-- `cancelAllTimers`, at the reload boundary.
unfoldable pub cancel_all_timers : Bool → Timers → Timers
unfolding cancel_each
cancel_all_timers loop s =
    if not loop then s else record s { index = []; calls = cancel_each s.index s.calls }
