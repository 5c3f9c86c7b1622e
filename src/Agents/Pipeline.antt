-- ===== src/Agents/Pipeline.antt =====
-- pipeline.py, what the orchestrator writes for people: the entry that puts items at the gate, and
-- the answers to drafts of models. Running agents is not here.
pub mod Refines
use rda_data_director.Prelude.{
  ℕ, ◌≡◌, refl, String, Bool, true, false, not, List, [], ◌∷◌, Option, none, some, Result, ok, err,
  ◌>>=◌, contains, keep_if, map,
}
use rda_data_director.Contracts.Primitives.{Orcid, Digest}
use rda_data_director.Contracts.Events.{Event}
use rda_data_director.Contracts.Gate.{
  GateItem, ItemDecision, Resolution, GateState, review_agent_id,
}
use rda_data_director.Contracts.Gate.Open.{ids}
use rda_data_director.State.Store.{Store, load, append}
use rda_data_director.Gate.Items.{resolve}
use rda_data_director.Gate.Review.{review_gate, pending, decision_event}
use rda_data_director.Job.Log.{log_items}
use rda_data_director.Api.Service.{items_event}
use rda_data_director.Workflow.Effects.{then_return}

abbrev pub some_items : String → String → ℕ → List GateItem → List Event
some_items job agent now [] = []
some_items job agent now (item ∷ items) = items_event agent job now (item ∷ items) ∷ []

abbrev pub unknown : List GateItem → List GateItem → List GateItem
unknown known items = keep_if (λ item. not (contains (ids known) item.item_id)) items

-- `agent_of(item_id) or "pipeline/0.1.0"`
abbrev pub author : Option String → String
author none = "pipeline/0.1.0"
author (some agent) = agent

module _ (digest_of : Event → Digest) where
  unfoldable pub gate_item_events : Store → String → String → List GateItem → Result (List Event)
  gate_item_events store job agent [] = ok []
  gate_item_events store job agent (item ∷ items) = do
    events ← load digest_of job store
    known ← log_items events
    ok (some_items job agent store.clock (unknown known (item ∷ items)))

  -- `for event in events: store.append(event)`
  unfoldable pub append_all : List Event → Store → Result (Unit {0}) × Store
  append_all [] store = (ok tt, store)
  append_all (ev ∷ events) store = elim (append digest_of ev store).0 [
    | err e ↦ (err e, (append digest_of ev store).1)
    | ok written ↦ append_all events (append digest_of ev store).1
  ]

  abbrev items_after : String → Result (Unit {0}) × Store → Result (List GateItem) × Store
  items_after job (err e, store) = (err e, store)
  items_after job (ok u, store) = (load digest_of job store >>= λ events. log_items events, store)

  abbrev record_events : String → Store → Result (List Event) → Result (List GateItem) × Store
  record_events job store (err e) = (err e, store)
  record_events job store (ok events) = items_after job (append_all events store)

  unfoldable pub record_gate_items :
      Store → String → String → List GateItem → Result (List GateItem) × Store
  unfolding gate_item_events append_all
  record_gate_items store job agent items =
      record_events job store (gate_item_events store job agent items)

  unfoldable pub pending_reviews : Store → String → Result (List GateItem)
  pending_reviews store job = do events ← load digest_of job store; pending events

  abbrev pub write_decision : Store → Resolution → Result Event → Result Resolution × Store
  write_decision store r (err e) = (err e, store)
  write_decision store r (ok ev) = then_return (append digest_of ev store) (ok r)

  abbrev pub resolved_review :
      Store → String → Orcid → Result Resolution × GateState → Result Resolution × Store
  resolved_review store job human (err e, gate) = (err e, store)
  resolved_review store job human (ok r, gate) = write_decision store r (
      decision_event job r.item_id r.decision (some human) r.reason
        (author (review_agent_id r.item_id)) store.clock)

  abbrev pub answer_review :
      Store
      → String
      → String
      → ItemDecision
      → Orcid
      → Option String
      → Result GateState
      → Result Resolution × Store
  answer_review store job item_id decision human reason (err e) = (err e, store)
  answer_review store job item_id decision human reason (ok gate) =
      resolved_review store job human (resolve gate item_id decision human reason store.clock)

  unfoldable pub resolve_review :
      Store → String → String → ItemDecision → Orcid → Option String → Result Resolution × Store
  resolve_review store job item_id decision human reason =
      answer_review store job item_id decision human reason
        (load digest_of job store >>= λ events. review_gate events)
