-- ===== src/Samples/ServiceWitnesses.antt =====
-- The job handle, the gate behind the service and the closing of a gate at a concrete job.
use rda_data_director.Prelude.{
  ◌≡◌, refl, true, false, List, [], ◌∷◌, none, some, ok, err, Error, contains,
}
use rda_data_director.Contracts.Primitives.{is_job_id, digest_eq}
use rda_data_director.Contracts.Payload.{text, array, cons, nil, end, field, nat}
use rda_data_director.Contracts.Sensitivity.{internal}
use rda_data_director.Contracts.Events.{Event, EventKind, construct, verify_chain}
use rda_data_director.Contracts.Gate.{
  approve, edited, request_rerun, reject, llm_output, redaction_proposal, GateItem, GateState,
  construct_item, unresolved, blocks_deposit,
}
use rda_data_director.Contracts.Gate.Open.{ids}
use rda_data_director.State.Store.{Store, event_file, whole, load}
use rda_data_director.State.Store.Tail.{Holds}
use rda_data_director.State.Projection.{fold}
use rda_data_director.Gate.Items.{add, resolve}
use rda_data_director.Gate.Items.Closing.{Offers, Given, decide_all, gate_can_close}
use rda_data_director.Job.Items.{validate_item, dump_item}
use rda_data_director.Job.Log.{JobStatus, job_status, build_gate, unique_items}
use rda_data_director.Job.Log.Gate.{IsConstructed}
use rda_data_director.Job.Handle.{JobHandle, material}
use rda_data_director.Job.Handle.Material.{Entitled, material-Entitled}
use rda_data_director.Api.Service.{items_payload, add_gate_items, gate_of, resolve_in_log}
use rda_data_director.Api.Service.Gate.{gate_of-add_gate_items, resolve_in_log-refines}
use rda_data_director.Api.Service.Rerun.{with_request, rerun_splits_readers}
use rda_data_director.Samples.Logs.{job, ada, sample_event, sample_digest, born}

abbrev pub draft_item : GateItem
draft_item = record {
  item_id = "llm-output:metadata:0f3a";
  kind = llm_output;
  artefact = none;
  summary = "Check what metadata wrote";
  detail = [];
  proposal = none;
  permitted_decisions = approve ∷ edited ∷ request_rerun ∷ [];
}

abbrev pub column_item : GateItem
column_item = record {
  item_id = "redaction:data/obs.csv:village";
  kind = redaction_proposal;
  artefact = some "data/obs.csv";
  summary = "Proposal for data/obs.csv";
  detail = "names one village" ∷ [];
  proposal = none;
  permitted_decisions = approve ∷ reject ∷ [];
}

abbrev pub raised : Event
raised =
    sample_event 2 EventKind.redaction_proposed none (items_payload (draft_item ∷ []))
      (some (sample_digest born))

abbrev pub gated_log : List Event
gated_log = born ∷ raised ∷ []

abbrev pub gated_store : Store
gated_store = record {
  dirs =
      record {
        job_id = job;
        held = false;
        entries = event_file 1 100 (whole born) ∷ event_file 2 100 (whole raised) ∷ [];
      }
      ∷ [];
  clock = 300;
  pid = 9;
}

abbrev gated : GateState
gated = record { items = draft_item ∷ []; resolutions = [] }

pub job_is_named : is_job_id job ≡ true
unfolding is_job_id
job_is_named = refl

gated_loads : load sample_digest job gated_store ≡ ok gated_log
unfolding load construct is_job_id verify_chain digest_eq
gated_loads = refl

pub gated_store-Holds : Holds sample_digest job gated_store gated_log
gated_store-Holds = record { free = refl; filed = (refl, (refl, tt)); loads = gated_loads }

gated_built : build_gate gated_log ≡ ok gated
unfolding build_gate validate_item dump_item
gated_built = refl

column_item-IsConstructed : IsConstructed column_item
unfolding construct_item
column_item-IsConstructed = refl

-- One more item, written to the log and read back behind the one that was there.
gate_of-add_gate_items_example :
    ((add_gate_items sample_digest "core-api/0.1.0" gated_store job (column_item ∷ [])).0 ≡ ok tt)
    × (gate_of sample_digest
          (add_gate_items sample_digest "core-api/0.1.0" gated_store job (column_item ∷ [])).1
          job
        ≡ ok (add gated (unique_items (column_item ∷ []))))
gate_of-add_gate_items_example =
    gate_of-add_gate_items sample_digest "core-api/0.1.0" job job_is_named gated_store gated_log
      gated_store-Holds gated_built (column_item ∷ []) (column_item-IsConstructed, tt)

both_items :
    add gated (unique_items (column_item ∷ []))
    ≡ record gated { items = draft_item ∷ column_item ∷ [] }
unfolding add unique_items
both_items = refl

-- Ada approves the draft through the service.
resolve_in_log-refines_example :
    ((resolve_in_log sample_digest "core-api/0.1.0" gated_store job draft_item.item_id approve ada
        none).0
      ≡ (resolve gated draft_item.item_id approve ada none 300).0)
    × (gate_of sample_digest
          (resolve_in_log sample_digest "core-api/0.1.0" gated_store job draft_item.item_id approve
            ada none).1
          job
        ≡ ok (resolve gated draft_item.item_id approve ada none 300).1)
    × ((e : Error)
        → (resolve gated draft_item.item_id approve ada none 300).0 ≡ err e
        → (resolve_in_log sample_digest "core-api/0.1.0" gated_store job draft_item.item_id approve
            ada none).1
          ≡ gated_store)
resolve_in_log-refines_example =
    resolve_in_log-refines sample_digest "core-api/0.1.0" job job_is_named gated_store gated_log
      gated_store-Holds gated_built draft_item.item_id approve ada none

abbrev after_request : List Event
after_request =
    with_request sample_digest "core-api/0.1.0" job 300 gated_log ada draft_item.item_id
      (some "wrong year")

abbrev status_after : JobStatus
status_after = record {
  blocked = true;
  reasons = "the depositor's statement is not yet confirmed" ∷ [];
  unresolved = [];
}

status_read : job_status after_request ≡ ok status_after
unfolding job_status validate_item dump_item
status_read = refl

rerun_splits_readers_example :
    (contains (ids status_after.unresolved) draft_item.item_id ≡ false)
    × ((g : GateState) × (build_gate after_request ≡ ok g) × (unresolved g ≡ unresolved gated))
rerun_splits_readers_example =
    rerun_splits_readers sample_digest "core-api/0.1.0" job 300 gated_log ada draft_item.item_id
      (some "wrong year") status_after gated_built refl status_read

draft_item-Offers : Offers draft_item
draft_item-Offers = record {
  decision = approve;
  permitted = refl;
  validates = refl;
  judged = λ e. cc;
}

gate_can_close_example :
    (given : List Given) × (final : GateState) × (decide_all ada 300 gated given ≡ ok final)
    × (blocks_deposit final ≡ false)
gate_can_close_example = gate_can_close ada 300 gated (draft_item-Offers, tt)

abbrev registered : Event
registered =
    sample_event 2 EventKind.material_registered none
      (field "artefacts" (array (cons (text "data/obs.csv") nil)) end) (some (sample_digest born))

abbrev agreed : Event
agreed =
    sample_event 3 EventKind.declaration_confirmed (some ada) (field "sensitivity" (nat 1) end)
      (some (sample_digest registered))

abbrev open_store : Store
open_store = record {
  dirs =
      record {
        job_id = job;
        held = false;
        entries =
            event_file 1 100 (whole born)
            ∷ event_file 2 100 (whole registered)
            ∷ event_file 3 100 (whole agreed)
            ∷ [];
      }
      ∷ [];
  clock = 300;
  pid = 9;
}

abbrev handle : JobHandle
handle = record { job_id = job; store = open_store; ceiling = internal; inspects = true }

shown_material : material sample_digest handle ≡ ok (text "data/obs.csv" ∷ [])
unfolding material load construct is_job_id verify_chain digest_eq job_status fold validate_item
shown_material = refl

material-Entitled_example : Entitled sample_digest handle (text "data/obs.csv" ∷ [])
material-Entitled_example =
    material-Entitled sample_digest handle (text "data/obs.csv" ∷ []) shown_material
