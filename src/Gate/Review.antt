-- ===== src/Gate/Review.antt =====
-- gate/review.py: the decisions on the output of models as the log states them, which agents wait,
-- and the entries that people make; the items are in `Claim`.
pub mod Claim
pub mod Folds
pub mod Drafts
pub mod Same
pub mod Hold
pub mod Named
pub mod Fresh
use Prim.Native.String.{String, ◌++◌ as ◌<>◌}
use rda_data_director.Prelude.{
  take_chars, ℕ, zero, suc, Bool, true, false, not, ◌&&◌, List, [], ◌∷◌, ◌++◌, map, Option, none,
  some, Result, ok, err, ◌>>=◌, configuration_error, other_exception, str_eq, ◌==◌, any, keep_if,
  split_on, starts_with, if◌then◌else◌,
}
use rda_data_director.Contracts.Primitives.{Orcid}
use rda_data_director.Contracts.Payload.{
  Json, null, bool, text, array, object, Items, nil, cons, Fields, end, field, get, truthy, is_text,
  is_null, python_list, a_text, text_or_null, null_or,
}
use rda_data_director.Contracts.Events.{Event, EventKind, construct, is_none}
use rda_data_director.Contracts.Gate.{
  llm_output, ItemDecision, approve, edited, request_rerun, GateItem, construct_item, Resolution,
  GateState, review_agent_id, unresolved,
}
use rda_data_director.Gate.Items.{is_model_output, decision_text}
use rda_data_director.Job.Items.{decision_of}
use rda_data_director.Job.Log.{log_items}

-- `event.payload.get("item_id") or ""`, which is asked for its start: AttributeError if it has none.
abbrev pub named_item : Json → Result String
named_item (text s) = ok s
named_item v = if truthy v then err other_exception else ok ""

-- A `Resolution` that cannot be made is passed over.
abbrev pub one_or_none : Result Resolution → List Resolution
one_or_none (ok r) = r ∷ []
one_or_none (err e) = []

unfoldable pub resolution_by : String → Orcid → Event → Result Resolution
resolution_by item_id human ev = do
  decision ← decision_of (get "decision" ev.payload)
  reason ← text_or_null (get "reason" ev.payload)
  ok (record {
    item_id = item_id;
    decision = decision;
    decided_by = human;
    reason = reason;
    decided_at = ev.occurred_at;
  })

abbrev pub is_review_id : String → Bool
is_review_id item_id = starts_with item_id "llm-output:"

abbrev pub on_review : Event → Option Orcid → Result (List Resolution)
on_review ev none = ok []
on_review ev (some human) = do
  item_id ← named_item (get "item_id" ev.payload)
  ok (if is_review_id item_id then one_or_none (resolution_by item_id human ev) else [])

unfoldable pub decided_in : EventKind → Event → Result (List Resolution)
unfolding resolution_by
decided_in EventKind.redaction_decided ev = on_review ev ev.human
decided_in _ ev = ok []

unfoldable pub review_resolutions : List Event → Result (List Resolution)
unfolding decided_in
review_resolutions [] = ok []
review_resolutions (ev ∷ events) = do
  first ← decided_in ev.kind ev
  rest ← review_resolutions events
  ok (first ++ rest)

abbrev pub is_draft : GateItem → Bool
is_draft item = is_model_output item.kind

unfoldable pub review_gate : List Event → Result GateState
unfolding review_resolutions log_items
review_gate events = do
  items ← log_items events
  rs ← review_resolutions events
  ok (record { items = keep_if is_draft items; resolutions = rs })

unfoldable pub pending : List Event → Result (List GateItem)
unfolding review_gate
pending events = do gate ← review_gate events; ok (unresolved gate)

-- `agent_of`, and the names that a set of items gives.
abbrev pub agents_of : List GateItem → List String
agents_of [] = []
agents_of (item ∷ items) = elim (review_agent_id item.item_id) [
  | none ↦ agents_of items
  | some agent ↦ agent ∷ agents_of items
]

-- A set, as the list that it is made from.
unfoldable pub pending_agents : List Event → Result (List String)
unfolding pending
pending_agents events = do items ← pending events; ok (agents_of items)

abbrev is_rerun : ItemDecision → Bool
is_rerun request_rerun = true
is_rerun _ = false

abbrev is_agent : String → Option String → Bool
is_agent agent none = false
is_agent agent (some a) = str_eq a agent

-- The newest request about a draft of the agent: from the oldest on, a later one wins.
unfoldable pub newest_request : String → List Resolution → Option Resolution
newest_request agent [] = none
newest_request agent (r ∷ rs) = elim (newest_request agent rs) [
  | some later ↦ some later
  | none ↦
      (if is_rerun r.decision && is_agent agent (review_agent_id r.item_id) then some r else none)
]

abbrev pub reason_of : Option Resolution → Option String
reason_of none = none
reason_of (some r) = r.reason

unfoldable pub rerun_request : List Event → String → Result (Option String)
unfolding review_resolutions newest_request
rerun_request events agent = do
  rs ← review_resolutions events
  ok (reason_of (newest_request agent rs))

unfoldable pub review_note_event :
    String → String → String → Option Orcid → String → ℕ → Result Event
unfolding construct
review_note_event job about note human agent now = construct (record {
  sequence = 1;
  job_id = job;
  kind = EventKind.instructions_received;
  occurred_at = now;
  agent = agent;
  human = human;
  payload = field "instruction" (text (take_chars 2000 note)) (
      field "channel" (text "authenticated-depositor")
        (field "purpose" (text "output-review-note") (field "about" (text about) end)));
  prev_digest = none;
})

abbrev is_instruction : EventKind → Bool
is_instruction EventKind.instructions_received = true
is_instruction _ = false

abbrev is_note : Event → Bool
is_note ev =
    is_instruction ev.kind
    && is_text "output-review-note" (get "purpose" ev.payload)
    && truthy (get "instruction" ev.payload)

-- The newest note, before `str(...)`, which leaves a text as it is.
unfoldable pub review_note : List Event → Option Json
review_note [] = none
review_note (ev ∷ events) = elim (review_note events) [
  | some later ↦ some later
  | none ↦ if is_note ev then some (get "instruction" ev.payload) else none
]

abbrev is_given : Option String → Bool
is_given none = false
is_given (some s) = not (str_eq s "")

abbrev pub review_decision :
    String → String → ItemDecision → Option Orcid → Option String → String → ℕ → Event
review_decision job item_id decision human reason agent now = record {
  sequence = 1;
  job_id = job;
  kind = EventKind.redaction_decided;
  occurred_at = now;
  agent = agent;
  human = human;
  payload = field "item_id" (text item_id) (
      field "decision" (text (decision_text decision))
        (field "reason" (null_or reason) (field "reason_recorded" (bool (is_given reason)) end)));
  prev_digest = none;
}

unfoldable pub decision_event :
    String → String → ItemDecision → Option Orcid → Option String → String → ℕ → Result Event
unfolding construct
decision_event job item_id decision human reason agent now =
    construct (review_decision job item_id decision human reason agent now)
