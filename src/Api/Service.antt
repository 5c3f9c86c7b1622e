-- ===== src/Api/Service.antt =====
-- api/service.py, `JobService` but for `deposit`, which is in `Publish`: the entries that it writes
-- for people, and what it reads back from the log.
pub mod Gate
pub mod Rerun
use rda_data_director.Prelude.{
  ℕ, String, Bool, true, false, not, List, [], ◌∷◌, ◌++◌, Option, none, some, Result, ok, err,
  ◌>>=◌, value_error, authority_error, str_eq, map, all, if◌then◌else◌,
}
use rda_data_director.Paths.{PurePath, pure_path, join_path}
use rda_data_director.Contracts.Primitives.{Orcid, Digest}
use rda_data_director.Contracts.Payload.{
  Json, null, bool, nat, text, array, Fields, end, field, get, truthy, python_list, a_text,
  text_or_null, null_or, object,
}
use rda_data_director.Contracts.Sensitivity.{SensitivityClass, sensitive, level_value}
use rda_data_director.Contracts.Events.{Event, EventKind, is_none}
use rda_data_director.Contracts.Gate.{ItemDecision, GateItem, Resolution, GateState}
use rda_data_director.State.Store.{Store, load, append}
use rda_data_director.State.Projection.{JobState, fold}
use rda_data_director.Gate.Items.{resolve, decision_text}
use rda_data_director.Job.Items.{dump_list, dump_item}
use rda_data_director.Job.Log.{build_gate}
use rda_data_director.Api.Findings.{ValidationFinding, latest_findings}
use rda_data_director.Workflow.Effects.{then_return, step_event as service_event}

abbrev pub items_payload : List GateItem → Fields
items_payload items =
    field "marker" (text "gate.items-added") (field "items" (array (dump_list dump_item items)) end)

abbrev pub is_given : Option String → Bool
is_given none = false
is_given (some s) = not (str_eq s "")

abbrev pub decision_payload : String → ItemDecision → Option String → Fields
decision_payload item_id decision reason = field "item_id" (text item_id) (
    field "decision" (text (decision_text decision))
      (field "reason" (null_or reason) (field "reason_recorded" (bool (is_given reason)) end)))

abbrev pub items_event : String → String → ℕ → List GateItem → Event
items_event agent job now items =
    service_event job EventKind.redaction_proposed agent now none (items_payload items)

abbrev pub decision_event :
    String → String → ℕ → Orcid → String → ItemDecision → Option String → Event
decision_event agent job now human item_id decision reason =
    service_event job EventKind.redaction_decided agent now (some human)
      (decision_payload item_id decision reason)

abbrev level_or : Option SensitivityClass → SensitivityClass
level_or none = sensitive
level_or (some level) = level

-- `[root / name for name in names]`: a name that is no text raises TypeError.
unfoldable pub paths_under : PurePath → List Json → Result (List PurePath)
paths_under root [] = ok []
paths_under root (name ∷ names) = do
  s ← a_text name
  more ← paths_under root names
  ok (join_path root (pure_path s) ∷ more)

module _ (digest_of : Event → Digest) where
  unfoldable pub gate_of : Store → String → Result GateState
  gate_of store job = do events ← load digest_of job store; build_gate events

  unfoldable pub state_in : Store → String → Result JobState
  state_in store job = do events ← load digest_of job store; fold events

  -- `_validation_findings`
  unfoldable pub validation_findings : Store → String → Result (List ValidationFinding)
  unfolding latest_findings
  validation_findings store job = do
    events ← load digest_of job store
    latest_findings events (ok [])

  -- `artefacts`: the directory that the deployment knows, and what is a file there, are parameters.
  unfoldable pub artefacts :
      Option (String → PurePath) → (PurePath → Bool) → Store → String → Result (List PurePath)
  unfolding state_in paths_under
  artefacts none is_file store job = err authority_error
  artefacts (some unpacked_root) is_file store job = do
    state ← state_in store job
    paths ← paths_under (unpacked_root job) state.material
    if all is_file paths then ok paths else err authority_error

  module _ (agent : String) where
    -- `create`, with the identifier that `new_job_id` draws at random
    unfoldable pub create : Store → String → Option String → Orcid → Result String × Store
    create store job config_digest human =
        then_return
          (append digest_of
            (service_event job EventKind.workflow_created agent store.clock none (
              field "config_digest" (null_or config_digest)
                (field "created_by" (text human.value) end)))
            store)
          (ok job)

    unfoldable pub add_gate_items : Store → String → List GateItem → Result (Unit {0}) × Store
    add_gate_items store job items =
        then_return (append digest_of (items_event agent job store.clock items) store) (ok tt)

    abbrev pub record_resolution :
        Store → String → Orcid → Result Resolution × GateState → Result Resolution × Store
    record_resolution store job human (err e, gate) = (err e, store)
    record_resolution store job human (ok r, gate) =
        then_return
          (append digest_of
            (decision_event agent job store.clock human r.item_id r.decision r.reason) store)
          (ok r)

    abbrev pub resolve_at :
        Store
        → String
        → String
        → ItemDecision
        → Orcid
        → Option String
        → Result GateState
        → Result Resolution × Store
    resolve_at store job item_id decision human reason (err e) = (err e, store)
    resolve_at store job item_id decision human reason (ok gate) =
        record_resolution store job human (resolve gate item_id decision human reason store.clock)

    -- `JobService.resolve`
    unfoldable pub resolve_in_log :
        Store → String → String → ItemDecision → Orcid → Option String → Result Resolution × Store
    unfolding gate_of
    resolve_in_log store job item_id decision human reason =
        resolve_at store job item_id decision human reason (gate_of store job)

    unfoldable pub confirm_declaration :
        Store
        → String
        → Orcid
        → Option SensitivityClass
        → Option String
        → Result SensitivityClass × Store
    confirm_declaration store job human sensitivity note =
        then_return
          (append digest_of
            (service_event job EventKind.declaration_confirmed agent store.clock (some human) (
              field "sensitivity" (nat (level_value (level_or sensitivity))) (
                field "note" (null_or note)
                  (field "assumed_most_restrictive" (bool (is_none sensitivity)) end))))
            store)
          (ok (level_or sensitivity))

    unfoldable pub approve_metadata : Store → String → Orcid → Result (Unit {0}) × Store
    approve_metadata store job human =
        then_return
          (append digest_of
            (service_event job EventKind.metadata_approved agent store.clock (some human) end)
            store)
          (ok tt)

    -- `revise_metadata`, with the record as JSON
    unfoldable pub revise_metadata : Store → String → Json → Orcid → Result (Unit {0}) × Store
    revise_metadata store job revised human =
        then_return
          (append digest_of
            (service_event job EventKind.metadata_drafted agent store.clock (some human)
              (field "record" revised end))
            store)
          (ok tt)
