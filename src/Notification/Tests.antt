-- ===== src/Notification/Tests.antt =====
-- The theorems on notifications at a notification that is added and paused.
use hyprscheme.Base.{◌≡◌, refl, true, false, codes, find, assign, leb, ltb, text_eq}
use hyprscheme.Base.Int.{pos, pos_part}
use hyprscheme.Scm.{Scm, nil, pair, symbol, string, int, datum_to_str}
use hyprscheme.Scm.Reads.{number_of}
use hyprscheme.Notification.Store.{Icons, Numbers, Note, Notes}
use hyprscheme.Notification.Reading.{
  read_note, read_note_field, read_timeout, add_reading, add_draft, notification_add,
}
use hyprscheme.Notification.Setters.{notification_paused_set}
use hyprscheme.Notification.Pausing.{holders}
use hyprscheme.Notification.Histories.{
  Reach, here, then_step, add_step, pause_step, no_notes, Reach-locked,
}

abbrev icons : Icons
icons = record {
  icon_warning = 0;
  icon_info = 1;
  icon_hint = 2;
  icon_error = 3;
  icon_confused = 4;
  icon_ok = 5;
  icon_none = 6;
}

-- Whole numbers, 1000 standing for a number below zero.
abbrev numbers : Numbers
numbers = record {
  reals = record { to_double = pos_part; of_ratio = λ i k. 1; is_whole = λ d. false };
  below_zero = λ n. leb 1000 n;
  above_zero = λ n. ltb 0 n;
  minus_one = 1000;
  thirteen = 13;
  color_of = λ n. n;
  hex_of = λ n. n;
}

abbrev hello : Note
hello = record {
  text = codes "hi";
  color = 0;
  timeout = 5;
  icon = 6;
  font_size = 13;
  locks = 1;
  elapsed = 0;
  age = 0;
}

abbrev fields : Scm
fields =
    pair (symbol (codes "text"))
      (pair (string (codes "hi")) (pair (symbol (codes "time")) (pair (int (pos 5)) nil)))

abbrev shown : Notes
shown = (notification_add icons numbers true true 10 fields (no_notes icons numbers)).0

abbrev held_paused : Notes
held_paused = (notification_paused_set true 10 true shown).0

held_paused-Reach : Reach icons numbers (no_notes icons numbers) held_paused
unfolding find
held_paused-Reach =
    then_step (then_step here (add_step true true 10 fields refl)) (pause_step true 10 true)

Reach-locked_example : hello.locks ≡ holders 0 held_paused.handles
unfolding find notification_add read_note read_note_field read_timeout add_reading add_draft
    notification_paused_set assign datum_to_str text_eq number_of
Reach-locked_example = Reach-locked icons numbers held_paused 0 hello held_paused-Reach refl
