-- ===== src/Gate/Items.antt =====
-- gate/items.py: the items that each source raises, and the gate that holds and resolves them.
pub mod Resolve
pub mod Closing
use Prim.Native.String.{String, ◌++◌ as ◌<>◌}
use rda_data_director.Prelude.{
  ℕ, Bool, true, false, not, ◌&&◌, List, [], ◌∷◌, ◌++◌, map, Option, none, some, Result, ok, err,
  Error, key_error, authority_error, str_eq, contains, keep_if, any, ◌==◌, if◌then◌else◌,
}
use rda_data_director.Contracts.Primitives.{Orcid, is_blank}
use rda_data_director.Contracts.Payload.{text, bool, end, field}
use rda_data_director.Contracts.Events.{Event, EventKind}
use rda_data_director.Contracts.Gate.{
  GateItemKind, care_referral, uninspected_file, redaction_proposal, llm_output, Treatment,
  ReasonCode, personal_data, third_party_rights, embargo, indigenous_governance, commercial,
  suppress, generalise, pseudonymise, coarsen, ItemDecision, approve, reject, consulted,
  not_applicable, acknowledge, inspected_externally, publish_as_is, exclude_from_deposit,
  classify_sensitive, edited, request_rerun, RedactionProposal, GateItem, Resolution, GateState,
}

abbrev pub uninspected_decisions : List ItemDecision
uninspected_decisions =
    inspected_externally ∷ publish_as_is ∷ exclude_from_deposit ∷ classify_sensitive ∷ []

abbrev pub redaction_decisions : List ItemDecision
redaction_decisions = approve ∷ reject ∷ []

abbrev pub care_decisions : List ItemDecision
care_decisions = consulted ∷ not_applicable ∷ exclude_from_deposit ∷ []

abbrev pub discrepancy_decisions : List ItemDecision
discrepancy_decisions = approve ∷ classify_sensitive ∷ exclude_from_deposit ∷ []

abbrev pub proposal_words : Treatment → String
proposal_words suppress = "a redaction made outside this tool would remove the values"
proposal_words generalise =
    "a redaction made outside this tool would replace the values with a broader category"
proposal_words pseudonymise =
    "a redaction made outside this tool would replace the values with a stable non-identifying code"
proposal_words coarsen =
    "a redaction made outside this tool would reduce the precision of the values"

-- `reason_code.value`
abbrev pub reason_text : ReasonCode → String
reason_text personal_data = "personal-data"
reason_text third_party_rights = "third-party-rights"
reason_text embargo = "embargo"
reason_text indigenous_governance = "indigenous-governance"
reason_text commercial = "commercial"

-- What `from_media_findings` reads of a `MediaFinding`: whether the tier is NONE, and its texts.
pub record MediaFinding : Type 0 where
  pub artefact : String
  pub not_inspected : Bool
  pub metadata_findings : List String
  pub uninspected_reason : String
  pub sensitivity_label : String

abbrev uninspected_item : MediaFinding → GateItem
uninspected_item f = record {
  item_id = "uninspected:" <> f.artefact;
  kind = uninspected_file;
  artefact = some f.artefact;
  summary =
      f.artefact <> " was not inspected (" <> f.uninspected_reason <> "). Treated as "
      <> f.sensitivity_label <> " by presumption.";
  detail =
      f.metadata_findings
      ++ ("not inspected: " <> f.uninspected_reason)
        ∷ ("presumed " <> f.sensitivity_label <> " on the basis of medium alone, not on inspection")
        ∷ [];
  proposal = none;
  permitted_decisions = uninspected_decisions;
}

unfoldable pub from_media_findings : List MediaFinding → List GateItem
from_media_findings findings = map uninspected_item (keep_if (λ f. f.not_inspected) findings)

-- What `care_referral_item` reads of an assessment; a signal is its category with its terms.
pub record CareAssessment : Type 0 where
  pub may_apply : Bool
  pub guidance : List String
  pub signals : List (String × List String)
  pub declared_by_depositor : Bool

-- `", ".join(terms)`
abbrev join_terms : List String → String
join_terms [] = ""
join_terms (t ∷ []) = t
join_terms (t ∷ u ∷ terms) = t <> ", " <> join_terms (u ∷ terms)

unfoldable pub care_referral_item : CareAssessment → Option GateItem
care_referral_item a =
    if a.may_apply
    then some (record {
      item_id = "care:referral";
      kind = care_referral;
      artefact = none;
      summary =
          "This material may engage the CARE Principles. The tool cannot assess that; a person must "
          <> "consult the community or governance body concerned before deposit.";
      detail =
          a.guidance
          ++ map (λ s. "signal — " <> s.0 <> ": " <> join_terms s.1) a.signals
          ++ (if a.declared_by_depositor
              then "the depositor's own statement indicated Indigenous data" ∷ []
              else []);
      proposal = none;
      permitted_decisions = care_decisions;
    })
    else none

unfoldable pub from_redaction_proposals : List RedactionProposal → List GateItem
from_redaction_proposals proposals =
    map
      (λ p. record {
        item_id = "redaction:" <> p.artefact <> ":" <> p.location;
        kind = redaction_proposal;
        artefact = some p.artefact;
        summary =
            "Proposal for "
            <> p.artefact
            <> " · "
            <> p.location
            <> ": "
            <> proposal_words p.treatment
            <> " (reason: "
            <> reason_text p.reason_code
            <> "). This tool edits no file; the decision you record is your answer to the proposal";
        detail = p.evidence ∷ [];
        proposal = some p;
        permitted_decisions = redaction_decisions;
      })
      proposals

unfoldable pub discrepancy_item : String → String → List String → GateItemKind → GateItem
discrepancy_item item_id summary detail kind = record {
  item_id = item_id;
  kind = kind;
  artefact = none;
  summary = summary;
  detail = detail;
  proposal = none;
  permitted_decisions = discrepancy_decisions;
}

-- `Gate.add`: an item whose id is there already is left out.
unfoldable pub add : GateState → List GateItem → GateState
add state items = record state {
  items =
      state.items
      ++ keep_if (λ i. not (contains (map (λ j. j.item_id) state.items) i.item_id)) items;
}

-- The first item of an id.
abbrev pub find_item : String → List GateItem → Option GateItem
find_item id [] = none
find_item id (item ∷ items) = if str_eq item.item_id id then some item else find_item id items

abbrev decision_index : ItemDecision → ℕ
decision_index approve = 0
decision_index reject = 1
decision_index consulted = 2
decision_index not_applicable = 3
decision_index acknowledge = 4
decision_index inspected_externally = 5
decision_index publish_as_is = 6
decision_index exclude_from_deposit = 7
decision_index classify_sensitive = 8
decision_index edited = 9
decision_index request_rerun = 10

-- `decision in item.permitted_decisions`
abbrev pub permits : List ItemDecision → ItemDecision → Bool
permits ds d = any (λ e. decision_index e == decision_index d) ds

-- `not (reason or "").strip()`
abbrev pub no_reason : Option String → Bool
no_reason none = true
no_reason (some s) = is_blank s

abbrev pub is_acknowledgement : ItemDecision → Bool
is_acknowledgement acknowledge = true
is_acknowledgement _ = false

abbrev pub is_model_output : GateItemKind → Bool
is_model_output llm_output = true
is_model_output _ = false

-- The decisions that a reason belongs to.
abbrev pub wants_reason : ItemDecision → Bool
wants_reason consulted = true
wants_reason publish_as_is = true
wants_reason _ = false

abbrev pub refusal : GateItem → ItemDecision → Option String → Option Error
refusal item decision reason =
    if not (permits item.permitted_decisions decision)
    then some authority_error
    else if is_acknowledgement decision && is_model_output item.kind
    then some authority_error
    else if wants_reason decision && no_reason reason
    then some authority_error
    else none

abbrev pub record_decision : GateState → Resolution → Option Error → Result Resolution × GateState
record_decision state r (some e) = (err e, state)
record_decision state r none = (ok r, record state { resolutions = state.resolutions ++ r ∷ [] })

abbrev pub resolve_item : GateState → Resolution → Option GateItem → Result Resolution × GateState
resolve_item state r none = (err key_error, state)
resolve_item state r (some item) = record_decision state r (refusal item r.decision r.reason)

-- `Gate.resolve`, with the time that `Resolution` takes for its own.
unfoldable pub resolve :
    GateState → String → ItemDecision → Orcid → Option String → ℕ → Result Resolution × GateState
resolve state item_id decision human reason now =
    resolve_item state
      (record {
        item_id = item_id;
        decision = decision;
        decided_by = human;
        reason = reason;
        decided_at = now;
      })
      (find_item item_id state.items)

-- The payload values of decisions and of kinds.
abbrev pub decision_text : ItemDecision → String
decision_text approve = "approve"
decision_text reject = "reject"
decision_text consulted = "consulted"
decision_text not_applicable = "not-applicable"
decision_text acknowledge = "acknowledge"
decision_text inspected_externally = "inspected-externally"
decision_text publish_as_is = "publish-as-is"
decision_text exclude_from_deposit = "exclude-from-deposit"
decision_text classify_sensitive = "classify-sensitive"
decision_text edited = "edited"
decision_text request_rerun = "request-rerun"

abbrev not_empty : Option String → Bool
not_empty none = false
not_empty (some s) = not (str_eq s "")

abbrev resolution_event : String → String → ℕ → Resolution → Event
resolution_event job agent now r = record {
  sequence = 1;
  job_id = job;
  kind = EventKind.redaction_decided;
  occurred_at = now;
  agent = agent;
  human = some r.decided_by;
  payload = field "item_id" (text r.item_id) (
      field "decision" (text (decision_text r.decision))
        (field "reason_recorded" (bool (not_empty r.reason)) end));
  prev_digest = none;
}

-- `Gate.resolution_events`, at the time that `Event` takes for its own
unfoldable pub resolution_events : GateState → String → String → ℕ → List Event
resolution_events state job agent now = map (resolution_event job agent now) state.resolutions
