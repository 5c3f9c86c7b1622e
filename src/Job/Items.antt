-- ===== src/Job/Items.antt =====
-- How gate items are written to a log and read from it: the fields of `GateItem` and of
-- `RedactionProposal` in gate.py as JSON, `model_dump_json` and `model_validate`, and the values of
-- the enumerations. Validation reads a field that is missing as its default.
pub mod Roundtrip
use rda_data_director.Prelude.{
  String, List, [], ◌∷◌, Option, none, some, Result, ok, err, ◌>>=◌, value_error, str_eq,
  if◌then◌else◌,
}
use rda_data_director.Contracts.Payload.{
  Json, null, text, array, object, Items, nil, cons, Fields, end, field, get, find, a_text,
  text_or_null, null_or,
}
use rda_data_director.Contracts.Gate.{
  GateItemKind, care_referral, uninspected_file, redaction_proposal, declaration_discrepancy,
  dmp_discrepancy, llm_output, Treatment, suppress, generalise, pseudonymise, coarsen, ReasonCode,
  personal_data, third_party_rights, embargo, indigenous_governance, commercial, ItemDecision,
  approve, reject, consulted, not_applicable, acknowledge, inspected_externally, publish_as_is,
  exclude_from_deposit, classify_sensitive, edited, request_rerun, RedactionProposal, GateItem,
  construct_item,
}
use rda_data_director.Gate.Items.{decision_text, reason_text}

abbrev pub kind_text : GateItemKind → String
kind_text care_referral = "care-referral"
kind_text uninspected_file = "uninspected-file"
kind_text redaction_proposal = "redaction-proposal"
kind_text declaration_discrepancy = "declaration-discrepancy"
kind_text dmp_discrepancy = "dmp-discrepancy"
kind_text llm_output = "llm-output"

abbrev pub treatment_text : Treatment → String
treatment_text suppress = "suppress"
treatment_text generalise = "generalise"
treatment_text pseudonymise = "pseudonymise"
treatment_text coarsen = "coarsen"

abbrev pub kinds : List GateItemKind
kinds =
    care_referral ∷ uninspected_file ∷ redaction_proposal ∷ declaration_discrepancy
    ∷ dmp_discrepancy ∷ llm_output ∷ []

abbrev pub treatments : List Treatment
treatments = suppress ∷ generalise ∷ pseudonymise ∷ coarsen ∷ []

abbrev pub reason_codes : List ReasonCode
reason_codes =
    personal_data ∷ third_party_rights ∷ embargo ∷ indigenous_governance ∷ commercial ∷ []

abbrev pub decisions : List ItemDecision
decisions =
    approve ∷ reject ∷ consulted ∷ not_applicable ∷ acknowledge ∷ inspected_externally
    ∷ publish_as_is ∷ exclude_from_deposit ∷ classify_sensitive ∷ edited ∷ request_rerun ∷ []

module _ {A : Type 0} where
  -- The member of an enumeration with a value: `ItemDecision(value)`.
  abbrev pub member : (A → String) → List A → String → Result A
  member value [] s = err value_error
  member value (a ∷ more) s = if str_eq (value a) s then ok a else member value more s

  abbrev pub member_of : (A → String) → List A → Json → Result A
  member_of value members (text s) = member value members s
  member_of value members _ = err value_error

  abbrev pub dump_list : (A → Json) → List A → Items
  dump_list dump [] = nil
  dump_list dump (a ∷ more) = cons (dump a) (dump_list dump more)

  abbrev pub validate_items : (Json → Result A) → Items → Result (List A)
  validate_items validate nil = ok []
  validate_items validate (cons v vs) = do
    a ← validate v
    more ← validate_items validate vs
    ok (a ∷ more)

  abbrev pub validate_list : (Json → Result A) → Json → Result (List A)
  validate_list validate (array vs) = validate_items validate vs
  validate_list validate _ = err value_error

unfoldable pub decision_of : Json → Result ItemDecision
decision_of v = member_of decision_text decisions v

unfoldable pub dump_proposal : Option RedactionProposal → Json
dump_proposal none = null
dump_proposal (some p) = object (
    field "artefact" (text p.artefact) (
      field "location" (text p.location) (
        field "reason_code" (text (reason_text p.reason_code)) (
          field "treatment" (text (treatment_text p.treatment))
            (field "evidence" (text p.evidence) end)))))

unfoldable pub validate_proposal : Json → Result (Option RedactionProposal)
validate_proposal null = ok none
validate_proposal (object fs) = do
  artefact ← a_text (get "artefact" fs)
  location ← a_text (get "location" fs)
  reason ← member_of reason_text reason_codes (get "reason_code" fs)
  treatment ← member_of treatment_text treatments (get "treatment" fs)
  evidence ← a_text (get "evidence" fs)
  ok (
      some (record {
        artefact = artefact;
        location = location;
        reason_code = reason;
        treatment = treatment;
        evidence = evidence;
      }))
validate_proposal _ = err value_error

abbrev pub detail_of : Option Json → Result (List String)
detail_of none = ok []
detail_of (some v) = validate_list a_text v

-- `json.loads(item.model_dump_json())`
unfoldable pub dump_item : GateItem → Json
unfolding dump_proposal
dump_item item = object (
    field "item_id" (text item.item_id) (
      field "kind" (text (kind_text item.kind)) (
        field "artefact" (null_or item.artefact) (
          field "summary" (text item.summary) (
            field "detail" (array (dump_list text item.detail)) (
              field "proposal" (dump_proposal item.proposal) (
                field "permitted_decisions"
                  (array (dump_list (λ d. text (decision_text d)) item.permitted_decisions))
                  end)))))))

-- `GateItem.model_validate(raw)`
unfoldable pub validate_item : Json → Result GateItem
unfolding validate_proposal decision_of construct_item
validate_item (object fs) = do
  item_id ← a_text (get "item_id" fs)
  kind ← member_of kind_text kinds (get "kind" fs)
  artefact ← text_or_null (get "artefact" fs)
  summary ← a_text (get "summary" fs)
  detail ← detail_of (find "detail" fs)
  proposal ← validate_proposal (get "proposal" fs)
  permitted ← validate_list decision_of (get "permitted_decisions" fs)
  construct_item (record {
    item_id = item_id;
    kind = kind;
    artefact = artefact;
    summary = summary;
    detail = detail;
    proposal = proposal;
    permitted_decisions = permitted;
  })
validate_item _ = err value_error
