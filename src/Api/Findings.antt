-- ===== src/Api/Findings.antt =====
-- Validation findings as the log carries them.
use rda_data_director.Prelude.{
  String, true, false, List, [], ◌∷◌, ◌++◌, Option, Result, ok, err, ◌>>=◌, value_error,
  if◌then◌else◌, Bool,
}
use rda_data_director.Contracts.Payload.{
  Json, object, get, truthy, python_list, a_text, text_or_null,
}
use rda_data_director.Contracts.Events.{Event, EventKind}

-- plugins.py
pub record ValidationFinding : Type 0 where
  pub severity : String
  pub subject : Option String
  pub message : String
  pub rule : Option String

-- `ValidationFinding.model_validate(raw)`; the field `subject` is spelled `field` in the source.
unfoldable pub validate_finding : Json → Result ValidationFinding
validate_finding (object fs) = do
  severity ← a_text (get "severity" fs)
  subject ← text_or_null (get "field" fs)
  message ← a_text (get "message" fs)
  rule ← text_or_null (get "rule" fs)
  ok (record { severity = severity; subject = subject; message = message; rule = rule })
validate_finding _ = err value_error

abbrev readable : Result ValidationFinding → List ValidationFinding
readable (err e) = []
readable (ok f) = f ∷ []

-- `try: ... except Exception: continue`
abbrev readable_findings : List Json → List ValidationFinding
readable_findings [] = []
readable_findings (raw ∷ more) = readable (validate_finding raw) ++ readable_findings more

abbrev is_validation : EventKind → Bool
is_validation EventKind.validation_completed = true
is_validation _ = false

-- `event.payload.get("findings") or []`
abbrev findings_of : Json → Result (List ValidationFinding)
findings_of raw =
    if truthy raw then (do raws ← python_list raw; ok (readable_findings raws)) else ok []

-- `for event in reversed(...)`: the newest event of the kind, with what the older ones hold.
unfoldable pub latest_findings :
    List Event → Result (List ValidationFinding) → Result (List ValidationFinding)
latest_findings [] older = older
latest_findings (ev ∷ events) older = latest_findings events (elim (is_validation ev.kind) [
  | true ↦ findings_of (get "findings" ev.payload)
  | false ↦ older
])
