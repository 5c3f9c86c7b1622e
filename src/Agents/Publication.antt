-- ===== src/Agents/Publication.antt =====
-- agents/publication.py: what must be true before a deposit, and the deposit itself inside an intent
-- and an outcome. Decision records are left out. The driver of a repository is a parameter.
pub mod Ready
use Prim.Native.String.{◌++◌ as ◌<>◌}
use rda_data_director.Prelude.{
  ℕ, String, Bool, true, false, not, List, [], ◌∷◌, ◌++◌, map, Option, none, some, Result, ok, err,
  Error, authority_error, reconciliation_required, str_eq, keep_if, contains, if◌then◌else◌,
}
use rda_data_director.Paths.{PurePath, last_part, join_path}
use rda_data_director.Contracts.Primitives.{Orcid, Digest}
use rda_data_director.Contracts.Payload.{
  Json, text, array, object, Fields, end, field, null_or, Items, nil, cons,
}
use rda_data_director.Contracts.Intents.{StepIntent, repository_publish}
use rda_data_director.Contracts.Events.{Event, EventKind}
use rda_data_director.Contracts.Gate.{GateItem, GateState, unresolved, excluded_artefacts}
use rda_data_director.State.Store.{Store, insert_text}
use rda_data_director.State.Projection.{JobState}
use rda_data_director.Gate.Upload.{artefacts_to_upload}
use rda_data_director.Job.Items.{dump_list}
use rda_data_director.Workflow.Effects.{
  UnfinishedAttempt, unfinished, attempt, step_event, idempotency_key,
}
use rda_data_director.Api.Findings.{ValidationFinding}

-- plugins.py
pub record DepositReceipt : Type 0 where
  pub pid : String
  pub concept_pid : Option String
  pub landing_page : Option String

-- `driver.deposit(job_id, record, files, on_behalf_of=human)`
abbrev pub Driver : Type 0 → Type 0
Driver R = String → R → List PurePath → Orcid → Result DepositReceipt

-- The agent is built with the store or without one.
pub record PublicationAgent (R : Type 0) : Type 0 where
  pub driver : Driver R
  pub base_url : String
  pub root : PurePath
  pub has_store : Bool

-- What `deposit` answers, or carries in `NothingToDeposit`, with the events to append.
pub data Publication : Type 0 where
  published : DepositReceipt → List Event → Publication
  nothing_to_deposit : List Event → Publication

abbrev field_or_record : Option String → String
field_or_record none = "record"
field_or_record (some s) = if str_eq s "" then "record" else s

abbrev pub is_error : ValidationFinding → Bool
is_error f = str_eq f.severity "error"

unfoldable pub check_ready : GateState → List ValidationFinding → List String
check_ready gate findings =
    map (λ i. "unresolved: " <> i.summary) (unresolved gate)
    ++ map (λ f. "validation error on " <> field_or_record f.subject <> ": " <> f.message)
        (keep_if is_error findings)

-- `sorted(excluded)` of a set
abbrev pub sorted_set : List String → List String
sorted_set [] = []
sorted_set (s ∷ ss) = if contains ss s then sorted_set ss else insert_text s (sorted_set ss)

abbrev pub names_json : List String → Json
names_json names = array (dump_list text names)

abbrev pub file_names : List PurePath → List String
file_names paths = map (λ p. last_part p.parts) paths

abbrev pub deposit_payload : DepositReceipt → List PurePath → List String → Fields
deposit_payload r files excluded = field "pid" (text r.pid) (
    field "concept_pid" (null_or r.concept_pid) (
      field "landing_page" (null_or r.landing_page) (
        field "files" (names_json (file_names files))
          (field "excluded" (names_json (sorted_set excluded)) end))))

abbrev pub agent_identity : String
agent_identity = "publication/0.1.0"

abbrev pub driver_body : Result DepositReceipt → Store → Result Fields × Store
driver_body (err e) store = (err e, store)
driver_body (ok r) store =
    (ok (field "pid" (text r.pid) (field "concept_pid" (null_or r.concept_pid) end)), store)

-- The receipt that the body of the attempt got, if the attempt ends well.
abbrev pub receipt_after :
    Result DepositReceipt → Result Fields × Store → Result DepositReceipt × Store
receipt_after receipt (err e, store) = (err e, store)
receipt_after receipt (ok result, store) = (receipt, store)

abbrev pub completion :
    String
    → Orcid
    → List PurePath
    → List String
    → Result DepositReceipt × Store
    → Result Publication × Store
completion job human files excluded (err e, store) = (err e, store)
completion job human files excluded (ok r, store) = (
  ok (
      published r (
        step_event job EventKind.deposit_completed agent_identity store.clock (some human)
          (deposit_payload r files excluded)
        ∷ [])),
  store,
)

abbrev pub closure : String → Orcid → ℕ → Event
closure job human now =
    step_event job EventKind.workflow_closed_not_shared agent_identity now (some human)
      (field "reason" (text "all artefacts excluded at the approval gate") end)

abbrev pub to_upload :
    {R : Type 0} → PublicationAgent R → String → List PurePath → List String → List PurePath
to_upload self job artefacts excluded =
    artefacts_to_upload artefacts excluded
      (some (join_path self.root (record { absolute = false; parts = job ∷ "unpacked" ∷ [] })))

abbrev pub intent_of :
    {R : Type 0} → (String → String) → PublicationAgent R → String → List PurePath → StepIntent
intent_of hash self job files = record {
  step = "deposit";
  effect = repository_publish;
  target = self.base_url;
  idempotency_key = idempotency_key hash job "deposit" "repository" "";
  detail = field "job_id" (text job) (field "files" (names_json (file_names files)) end);
}

module _ {R : Type 0} (digest_of : Event → Digest) (hash : String → String)
    (words : Error → String) where
  unfoldable pub call_driver :
      PublicationAgent R
      → Store
      → String
      → R
      → List PurePath
      → Orcid
      → Result DepositReceipt × Store
  call_driver self store job drafted files human =
      let receipt = self.driver job drafted files human in
      if self.has_store
      then receipt_after receipt (
          attempt digest_of words store job "effects/0.1.0" (intent_of hash self job files)
            (driver_body receipt))
      else (receipt, store)

  abbrev pub upload_or_close :
      PublicationAgent R
      → Store
      → String
      → R
      → Orcid
      → List String
      → List PurePath
      → Result Publication × Store
  upload_or_close self store job drafted human excluded [] =
      (ok (nothing_to_deposit (closure job human store.clock ∷ [])), store)
  upload_or_close self store job drafted human excluded (p ∷ ps) =
      completion job human (p ∷ ps) excluded (call_driver self store job drafted (p ∷ ps) human)

  abbrev pub deposit_if_ready :
      PublicationAgent R
      → Store
      → String
      → R
      → List PurePath
      → GateState
      → Orcid
      → List String
      → Result Publication × Store
  deposit_if_ready self store job drafted artefacts gate human (b ∷ blocking) =
      (err authority_error, store)
  deposit_if_ready self store job drafted artefacts gate human [] =
      let excluded = excluded_artefacts gate.items gate.resolutions in
      upload_or_close self store job drafted human excluded (to_upload self job artefacts excluded)

  abbrev pub deposit_if_settled :
      PublicationAgent R
      → Store
      → String
      → R
      → List PurePath
      → GateState
      → List ValidationFinding
      → Orcid
      → Result (List UnfinishedAttempt)
      → Result Publication × Store
  deposit_if_settled self store job drafted artefacts gate findings human (err e) = (err e, store)
  deposit_if_settled self store job drafted artefacts gate findings human (ok (a ∷ outstanding)) =
      (err reconciliation_required, store)
  deposit_if_settled self store job drafted artefacts gate findings human (ok []) =
      deposit_if_ready self store job drafted artefacts gate human (check_ready gate findings)

  -- `PublicationAgent.deposit`, for the job of the state
  unfoldable pub publish :
      PublicationAgent R
      → Store
      → String
      → R
      → List PurePath
      → GateState
      → List ValidationFinding
      → Orcid
      → Result Publication × Store
  unfolding check_ready call_driver
  publish self store job drafted artefacts gate findings human =
      deposit_if_settled self store job drafted artefacts gate findings human
        (if self.has_store then unfinished digest_of store job else ok [])
