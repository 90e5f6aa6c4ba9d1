-- ===== src/Config/MonitorRules/Sessions.antt =====
-- What a commit of cpp/Config.cpp adds after a begin and any fields.
use hyprscheme.Base.{◌≡◌, refl, ap, ◌∙◌, true, false, none, some, List, [], ◌∷◌, Text, is_empty}
use hyprscheme.Base.Int.{ℤ, pos}
use hyprscheme.Config.MonitorRules.{
  MonitorRule, Parser, MonitorRules, existing_rule, seed, monitor_begin, FieldResult, field_set,
  field_refused, FieldCall, field_result, set_field, monitor_field, monitor_commit,
}

-- The rule after a field: what the field sets, or what the parser left of it.
abbrev pub rule_after : FieldResult → MonitorRule
rule_after (field_set r) = r
rule_after (field_refused code why r) = r

abbrev pub built : Parser → List FieldCall → MonitorRule → MonitorRule
built p [] r = r
built p (c ∷ cs) r = built p cs (rule_after (field_result p c r))

-- Calls of fields, one after another.
abbrev pub fields_of : Parser → List FieldCall → MonitorRules → MonitorRules
fields_of p [] s = s
fields_of p (c ∷ cs) s = fields_of p cs (monitor_field p true c s).0

set_field-building :
    (s : MonitorRules) (x : FieldResult) → (set_field s x).0.building ≡ some (rule_after x)
set_field-building s (field_set r) = refl
set_field-building s (field_refused code why r) = refl

set_field-rules : (s : MonitorRules) (x : FieldResult) → (set_field s x).0.rules ≡ s.rules
set_field-rules s (field_set r) = refl
set_field-rules s (field_refused code why r) = refl

monitor_field-building :
    (p : Parser) (c : FieldCall) (s : MonitorRules) (r : MonitorRule)
    → s.building ≡ some r
    → monitor_field p true c s ≡ set_field s (field_result p c r)
unfolding monitor_field
monitor_field-building p c s r b = rw (b, monitor_field) refl

fields_of-built :
    (p : Parser) (cs : List FieldCall) (s : MonitorRules) (r : MonitorRule)
    → s.building ≡ some r
    → ((fields_of p cs s).building ≡ some (built p cs r)) × ((fields_of p cs s).rules ≡ s.rules)
fields_of-built p [] s r b = (b, refl)
fields_of-built p (c ∷ cs) s r b =
    let one = monitor_field-building p c s r b in
    let more = fields_of-built p cs (monitor_field p true c s).0 (rule_after (field_result p c r)) (
      ap (λ (x : MonitorRules × ℤ). x.0.building) one
      ∙ set_field-building s (field_result p c r)) in
    (
      more.0,
      more.1
          ∙ (ap (λ (x : MonitorRules × ℤ). x.0.rules) one ∙ set_field-rules s (field_result p c r)),
    )

-- The calls of one rule.
abbrev pub session : Parser → Text → List FieldCall → MonitorRules → MonitorRules × ℤ
session p output cs s =
    monitor_commit p true (fields_of p cs (monitor_begin p true (some output) s).0)

monitor_begin-building :
    (p : Parser) (output : Text) (s : MonitorRules)
    → is_empty output ≡ false
    → (monitor_begin p true (some output) s).0
      ≡ record s { building = some (seed p output (existing_rule output s.rules)) }
unfolding monitor_begin
monitor_begin-building p output s e = rw (e, monitor_begin) refl

monitor_commit-building :
    (p : Parser) (s : MonitorRules) (r : MonitorRule)
    → s.building ≡ some r
    → ((monitor_commit p true s).1 ≡ pos 0)
      × ((monitor_commit p true s).0.rules ≡ p.with_rule r s.rules)
      × ((monitor_commit p true s).0.building ≡ none)
unfolding monitor_commit
monitor_commit-building p s r b = rw (b, monitor_commit) (refl, refl, refl)

-- A begin for an output with a name, any calls of fields, refused ones among them, and a commit, the
-- interpreter up: the commit answers 0, the manager is given exactly one rule, made of the output's
-- earlier rule, if it has one, and else of a fresh one, with the fields in their order, and no rule is
-- being built.
pub session-built :
    (p : Parser) (output : Text) (cs : List FieldCall) (s : MonitorRules)
    → is_empty output ≡ false
    → ((session p output cs s).1 ≡ pos 0)
      × ((session p output cs s).0.rules
          ≡ p.with_rule (built p cs (seed p output (existing_rule output s.rules))) s.rules)
      × ((session p output cs s).0.building ≡ none)
session-built p output cs s e =
    let begun = (monitor_begin p true (some output) s).0 in
    let first = monitor_begin-building p output s e in
    let all =
      fields_of-built p cs begun (seed p output (existing_rule output s.rules))
        (ap (λ (x : MonitorRules). x.building) first) in
    let done =
      monitor_commit-building p (fields_of p cs begun)
        (built p cs (seed p output (existing_rule output s.rules))) all.0 in
    (
      done.0,
      done.1
          ∙ ap (p.with_rule (built p cs (seed p output (existing_rule output s.rules))))
              (all.1 ∙ ap (λ (x : MonitorRules). x.rules) first),
      done.2,
    )
