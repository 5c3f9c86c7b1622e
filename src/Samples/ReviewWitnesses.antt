-- ===== src/Samples/ReviewWitnesses.antt =====
-- The review of model output at a concrete log: a draft of the metadata agent and a proposal on one
-- column, the proposal decided.
use rda_data_director.Prelude.{
  Error, err, ◌>>=◌, ◌≡◌, refl, true, false, List, [], ◌∷◌, ◌++◌, none, some, ok, String, contains,
  keep_if, All,
}
use rda_data_director.Contracts.Primitives.{is_job_id}
use rda_data_director.Contracts.Payload.{Json, text, field, end}
use rda_data_director.Contracts.Events.{Event, EventKind}
use rda_data_director.Contracts.Gate.{
  GateItem, GateState, approve, edited, request_rerun, llm_output, counts_as_validation,
  review_agent, review_agent_id, superseded_ids, unresolved,
}
use rda_data_director.Contracts.Gate.Open.{ids}
use rda_data_director.State.Store.{placed, load}
use rda_data_director.Job.Items.{validate_item, dump_item}
use rda_data_director.Job.Log.{build_gate, log_items}
use rda_data_director.Api.Service.{items_payload, decision_payload, items_event}
use rda_data_director.Gate.Review.Claim.{
  LlmOutput, Outcome, claimed_review, review_item, agent_name, drafted, item_id_for,
}
use rda_data_director.Gate.Review.{
  review_gate, is_draft, pending, rerun_request, decision_event, review_decision,
  review_resolutions, pending_agents,
}
use rda_data_director.Gate.Review.Named.{IsAgentName}
use rda_data_director.Gate.Review.Fresh.{fresh_draft-waits}
use rda_data_director.Gate.Review.Folds.{MarksProposal}
use rda_data_director.Gate.Review.Drafts.{IsNamedDraft}
use rda_data_director.Gate.Review.Same.{pending-eq-unresolved}
use rda_data_director.Gate.Review.Hold.{decision_event-holds}
use rda_data_director.Samples.Logs.{job, ada, sample_event, sample_digest, born}
use rda_data_director.Gate.Items.{resolve}
use rda_data_director.Agents.Pipeline.{resolve_review}
use rda_data_director.Agents.Pipeline.Refines.{resolve_review-refines}
use rda_data_director.Samples.ServiceWitnesses.{
  draft_item, column_item, job_is_named, gated_store, gated_log, gated_store-Holds,
}

abbrev raised_both : Event
raised_both =
    sample_event 2 EventKind.redaction_proposed none (items_payload (draft_item ∷ column_item ∷ []))
      (some (sample_digest born))

abbrev column_decided : Event
column_decided =
    sample_event 3 EventKind.redaction_decided (some ada)
      (decision_payload column_item.item_id approve none) (some (sample_digest raised_both))

abbrev review_log : List Event
review_log = born ∷ raised_both ∷ column_decided ∷ []

abbrev review_gate_state : GateState
review_gate_state = record {
  items = draft_item ∷ column_item ∷ [];
  resolutions =
      record {
        item_id = column_item.item_id;
        decision = approve;
        decided_by = ada;
        reason = none;
        decided_at = column_decided.occurred_at;
      }
      ∷ [];
}

review_log-gate : build_gate review_log ≡ ok review_gate_state
unfolding build_gate validate_item dump_item
review_log-gate = refl

review_log-proposals : All MarksProposal review_log
review_log-proposals = (λ h. cc, (λ h. refl, (λ h. cc, tt)))

draft_named : All IsNamedDraft review_gate_state.items
draft_named = (λ h. refl, (λ h. cc, tt))

pending-eq-unresolved_example :
    pending review_log ≡ ok (keep_if is_draft (unresolved review_gate_state))
pending-eq-unresolved_example =
    pending-eq-unresolved review_log review_gate_state review_log-gate review_log-proposals
      draft_named

abbrev again : Event
again =
    review_decision job draft_item.item_id request_rerun (some ada) (some "the year is invented")
      "orchestrator" 130

again-made :
    decision_event job draft_item.item_id request_rerun
      (some ada)
      (some "the year is invented")
      "orchestrator"
      130
    ≡ ok again
unfolding decision_event is_job_id
again-made = refl

review_log-pending : pending review_log ≡ ok (draft_item ∷ [])
unfolding pending unresolved validate_item dump_item superseded_ids review_agent review_agent_id
review_log-pending = refl

decision_event-holds_example :
    let after = review_log ++ placed sample_digest review_log again ∷ [] in
    (request_rerun ≡ request_rerun
      → (pending after ≡ ok (draft_item ∷ []))
        × ((name : String)
            → review_agent_id draft_item.item_id ≡ some name
            → rerun_request after name ≡ ok (some "the year is invented")))
    × ((left : List GateItem) × (pending after ≡ ok left)
        × (counts_as_validation request_rerun ≡ true
            → contains (ids left) draft_item.item_id ≡ false)
        × ((s : String) → contains (ids left) s ≡ true → contains (ids (draft_item ∷ [])) s ≡ true))
decision_event-holds_example =
    decision_event-holds sample_digest review_log job draft_item.item_id request_rerun ada
      (some "the year is invented") "orchestrator" 130 again refl again-made review_log-pending

abbrev short_digest : Json → String
short_digest payloads = "77c1"

abbrev abstract_claim : LlmOutput
abstract_claim = record {
  label = "the abstract";
  produces = EventKind.metadata_drafted ∷ [];
  editable = true;
  edit_note = "";
}

abbrev metadata_outcome : Outcome
metadata_outcome = record {
  review = end;
  events =
      sample_event 1 EventKind.metadata_drafted none (field "abstract" (text "Counts of birds") end)
        none
      ∷ [];
}

abbrev second_draft : GateItem
second_draft = record {
  item_id = "llm-output:metadata:77c1";
  kind = llm_output;
  artefact = none;
  summary = "Check what metadata wrote: the abstract";
  detail =
      "written by metadata/2; this item is bound to what it wrote (77c1), not to whatever the field holds later"
      ∷ "nothing downstream reads this until you validate it, edit it, or ask for another attempt"
      ∷ [];
  proposal = none;
  permitted_decisions = approve ∷ edited ∷ request_rerun ∷ [];
}

second_draft-raised :
    claimed_review short_digest "metadata/2" (some abstract_claim) metadata_outcome
    ≡ ok (some second_draft)
unfolding claimed_review review_item
second_draft-raised = refl

review_log-items : log_items review_log ≡ ok (draft_item ∷ column_item ∷ [])
unfolding log_items validate_item dump_item
review_log-items = refl

review_log-resolutions : review_resolutions review_log ≡ ok []
unfolding review_resolutions
review_log-resolutions = refl

agent_named : IsAgentName (agent_name "metadata/2")
unfolding agent_name
agent_named = (refl, refl)

fresh_draft-waits_example :
    let after =
      review_log
      ++ placed sample_digest review_log (items_event "orchestrator" job 130 (second_draft ∷ []))
        ∷ [] in
    (names : List String) × (pending_agents after ≡ ok names)
    × (contains names (agent_name "metadata/2") ≡ true)
    × ((payloads : Json) × (drafted abstract_claim metadata_outcome ≡ ok payloads)
        × (second_draft.item_id ≡ item_id_for (agent_name "metadata/2") (short_digest payloads)))
fresh_draft-waits_example =
    fresh_draft-waits short_digest "metadata/2" abstract_claim metadata_outcome second_draft
      sample_digest review_log job "orchestrator" 130 second_draft-raised agent_named
      review_log-items review_log-resolutions refl refl

gated-review_gate :
    review_gate gated_log ≡ ok (record { items = draft_item ∷ []; resolutions = [] })
unfolding review_gate validate_item dump_item
gated-review_gate = refl

resolve_review-refines_example :
    let decided' =
      resolve
        (record { items = draft_item ∷ []; resolutions = [] })
        draft_item.item_id
        edited
        ada
        none
        300 in
    let after = resolve_review sample_digest gated_store job draft_item.item_id edited ada none in
    (after.0 ≡ decided'.0)
    × ((load sample_digest job after.1 >>= λ events. review_gate events) ≡ ok decided'.1)
    × ((e : Error) → decided'.0 ≡ err e → after.1 ≡ gated_store)
resolve_review-refines_example =
    resolve_review-refines sample_digest job job_is_named gated_store gated_log gated_store-Holds
      gated-review_gate draft_item.item_id edited ada none refl
