-- ===== src/Gate/Review/Claim.antt =====
-- gate/review.py: the item that puts the output of a model before a person. `digest_of`, a SHA-256
-- over canonical JSON, is the parameter `payload_digest`.
use Prim.Native.String.{String, ◌++◌ as ◌<>◌}
use rda_data_director.Prelude.{
  ℕ, Bool, true, false, not, ◌&&◌, List, [], ◌∷◌, ◌++◌, Option, none, some, Result, ok, err, ◌>>=◌,
  configuration_error, str_eq, ◌==◌, any, keep_if, split_on, if◌then◌else◌,
}
use rda_data_director.Contracts.Payload.{
  Json, array, object, Items, nil, cons, Fields, get, truthy, is_null, python_list, a_text,
}
use rda_data_director.Contracts.Events.{Event, EventKind, is_none}
use rda_data_director.Contracts.Gate.{
  llm_output, ItemDecision, approve, edited, request_rerun, GateItem, construct_item,
}

abbrev pub item_prefix : String
item_prefix = "llm-output"

-- `REVIEW_DECISIONS`, as `review_item` offers them.
abbrev pub offered : Bool → List ItemDecision
offered true = approve ∷ edited ∷ request_rerun ∷ []
offered false = approve ∷ request_rerun ∷ []

unfoldable pub item_id_for : String → String → String
item_id_for agent digest = item_prefix <> ":" <> agent <> ":" <> digest

-- `agent.split("/")[0]`
abbrev head_or : String → List String → String
head_or s [] = s
head_or s (part ∷ parts) = part

unfoldable pub agent_name : String → String
agent_name agent = head_or agent (split_on b'/' agent)

abbrev what_follows : Bool → String
what_follows true =
    "nothing downstream reads this until you validate it, edit it, or ask for another attempt"
what_follows false =
    "nothing downstream reads this until you validate it, or ask for another attempt saying what is "
    <> "wrong with it"

abbrev edit_note_lines : Bool → String → List String
edit_note_lines editable note = if not editable && not (str_eq note "") then note ∷ [] else []

-- `detail` is checked to be texts where `GateItem(...)` takes it.
unfoldable pub all_texts : List Json → Result (List String)
all_texts [] = ok []
all_texts (v ∷ more) = do s ← a_text v; rest ← all_texts more; ok (s ∷ rest)

-- `LlmOutput` of agents/base.py
pub record LlmOutput : Type 0 where
  pub label : String
  pub produces : List EventKind
  pub editable : Bool
  pub edit_note : String

-- What `claimed_review` reads of an `Outcome`: the draft in `review`, `end` for None, and the events.
pub record Outcome : Type 0 where
  pub review : Fields
  pub events : List Event

-- The members of `EventKind` in their order, for `kind in claim.produces`.
abbrev kind_index : EventKind → ℕ
kind_index EventKind.step_started = 0
kind_index EventKind.step_completed = 1
kind_index EventKind.step_failed = 2
kind_index EventKind.step_reconciled = 3
kind_index EventKind.gate_items_displayed = 4
kind_index EventKind.owner_added = 5
kind_index EventKind.access_audited = 6
kind_index EventKind.metadata_drafted = 7
kind_index EventKind.documentation_drafted = 8
kind_index EventKind.workflow_created = 9
kind_index EventKind.material_registered = 10
kind_index EventKind.declaration_parsed = 11
kind_index EventKind.declaration_confirmed = 12
kind_index EventKind.classification_completed = 13
kind_index EventKind.classification_contradicted = 14
kind_index EventKind.redaction_proposed = 15
kind_index EventKind.redaction_decided = 16
kind_index EventKind.dmp_commitments_read = 17
kind_index EventKind.dmp_discrepancy_flagged = 18
kind_index EventKind.instructions_received = 19
kind_index EventKind.repository_selected = 20
kind_index EventKind.metadata_generated = 21
kind_index EventKind.metadata_approved = 22
kind_index EventKind.validation_completed = 23
kind_index EventKind.deposit_completed = 24
kind_index EventKind.workflow_halted = 25
kind_index EventKind.workflow_closed_not_shared = 26
kind_index EventKind.compensated = 27

abbrev pub is_among : List EventKind → EventKind → Bool
is_among kinds kind = any (λ k. kind_index k == kind_index kind) kinds

abbrev pub payloads_of : List Event → Items
payloads_of [] = nil
payloads_of (ev ∷ events) = cons (object ev.payload) (payloads_of events)

-- The payloads that the agent's own events assert.
abbrev pub asserted : LlmOutput → List Event → Json
asserted claim events =
    array (payloads_of (keep_if (λ ev. is_among claim.produces ev.kind && is_none ev.human) events))

abbrev declares_nothing : LlmOutput → Bool
declares_nothing claim = elim claim.produces [ [] ↦ true | k ∷ ks ↦ false ]

-- `review.get("payloads")`, or what the events assert.
unfoldable pub drafted : LlmOutput → Outcome → Result Json
drafted claim outcome =
    let given = get "payloads" outcome.review in
    if not (is_null given)
    then ok given
    else if declares_nothing claim
    then err configuration_error
    else ok (asserted claim outcome.events)

-- `list(review.get("detail") or [])`
abbrev pub detail_of : Json → Result (List Json)
detail_of v = if truthy v then python_list v else ok []

module _ (payload_digest : Json → String) where
  unfoldable pub review_item : String → String → Json → Bool → String → List Json → Result GateItem
  unfolding item_id_for agent_name all_texts construct_item
  review_item agent label payloads editable edit_note detail =
      let digest = payload_digest payloads in
      let name = agent_name agent in
      do
        texts ← all_texts detail
        construct_item (record {
          item_id = item_id_for name digest;
          kind = llm_output;
          artefact = none;
          summary = "Check what " <> name <> " wrote: " <> label;
          detail =
              texts
              ++ ("written by " <> agent <> "; this item is bound to what it wrote (" <> digest
                  <> "), not to whatever the field holds later")
                ∷ what_follows editable
                ∷ edit_note_lines editable edit_note;
          proposal = none;
          permitted_decisions = offered editable;
        })

  abbrev pub full_item : String → LlmOutput → Fields → Json → Result (Option GateItem)
  full_item agent claim review payloads = do
    detail ← detail_of (get "detail" review)
    item ← review_item agent claim.label payloads claim.editable claim.edit_note detail
    ok (some item)

  abbrev pub item_of : String → LlmOutput → Fields → Json → Result (Option GateItem)
  item_of agent claim review payloads =
      if truthy payloads then full_item agent claim review payloads else ok none

  -- `claimed_review`, with the identity of the agent and the claim of its capabilities.
  unfoldable pub claimed_review : String → Option LlmOutput → Outcome → Result (Option GateItem)
  unfolding drafted
  claimed_review agent none outcome = ok none
  claimed_review agent (some claim) outcome = do
    payloads ← drafted claim outcome
    item_of agent claim outcome.review payloads
