-- ===== src/Samples/EngineWitnesses.antt =====
-- The theorems on the engine at concrete inputs.
use rda_data_director.Prelude.{
  ℕ, ◌≡◌, refl, String, false, [], ◌∷◌, none, some, ok, Error, ◌>>=◌, take, arith, ◌++◌,
}
use rda_data_director.Contracts.Primitives.{is_job_id, digest_eq}
use rda_data_director.Contracts.Payload.{text, field, end}
use rda_data_director.Contracts.Events.{Event, EventKind, construct, verify_chain}
use rda_data_director.State.Store.{Store, event_file, whole, load, placed}
use rda_data_director.State.Store.Tail.{Holds}
use rda_data_director.State.Projection.{JobState, new_state, fold, with_seen}
use rda_data_director.Workflow.Engine.{
  WorkflowEngine, construct_engine, state_of, advance, run_until_blocked, compensate,
}
use rda_data_director.Workflow.Engine.Compensate.{undoing, compensate_restores, over_runs_nothing}
use rda_data_director.Samples.Logs.{
  job, ada, sample_digest, sample_event, created, confirmed, scanned, sample_log,
}
use rda_data_director.Samples.EffectWitnesses.{job_named}
use rda_data_director.Samples.StateWitnesses.{scanned_state, fold-sample_log}

abbrev words : Error → String
words e = "it failed"

abbrev number : ℕ → String
number n = "3"

abbrev engine : WorkflowEngine
engine = construct_engine [] "workflow-engine/0.1.0" 3 2

abbrev sample_store : Store
sample_store = record {
  dirs =
      record {
        job_id = job;
        held = false;
        entries =
            event_file 1 100 (whole created)
            ∷ event_file 2 100 (whole confirmed)
            ∷ event_file 3 100 (whole scanned)
            ∷ [];
      }
      ∷ [];
  clock = 300;
  pid = 7;
}

sample_store_loads : load sample_digest job sample_store ≡ ok sample_log
unfolding load construct is_job_id verify_chain digest_eq
sample_store_loads = refl

sample_store-Holds : Holds sample_digest job sample_store sample_log
sample_store-Holds = record {
  free = refl;
  filed = (refl, (refl, (refl, tt)));
  loads = sample_store_loads;
}

-- The scan is undone.
compensate_restores_example :
    let ev : Event = placed sample_digest sample_log (
      undoing sample_digest words number engine job job_named sample_store sample_log 2 "wrong scan"
        ada) in
    ((compensate sample_digest words number engine sample_store job 2 "wrong scan" ada).0
      ≡ (fold (take 2 sample_log) >>= λ before. ok (with_seen (sample_log ++ ev ∷ []) before)))
    × Holds sample_digest job
        (compensate sample_digest words number engine sample_store job 2 "wrong scan" ada).1
        (sample_log ++ ev ∷ [])
compensate_restores_example =
    (compensate_restores sample_digest words number engine job job_named sample_store created
        (confirmed ∷ scanned ∷ []) 2 "wrong scan" ada scanned_state sample_store-Holds
        (λ n c r. cc, (λ n c r. cc, (λ n c r. cc, tt))) fold-sample_log).0
      (omega arith) (omega arith)

abbrev halted : Event
halted =
    sample_event 2 EventKind.workflow_halted none (field "reason" (text "the model is down") end)
      (some (sample_digest created))

abbrev halted_store : Store
halted_store = record {
  dirs =
      record {
        job_id = job;
        held = false;
        entries = event_file 1 100 (whole created) ∷ event_file 2 100 (whole halted) ∷ [];
      }
      ∷ [];
  clock = 300;
  pid = 7;
}

abbrev halted_state : JobState
halted_state = record (new_state job) {
  step = "created";
  halted_reason = text "the model is down";
  seen_kinds = EventKind.workflow_created ∷ EventKind.workflow_halted ∷ [];
}

halted_store_state : state_of sample_digest words number halted_store job ≡ ok halted_state
unfolding state_of load construct is_job_id verify_chain digest_eq fold
halted_store_state = refl

over_runs_nothing_example :
    (advance sample_digest words number engine halted_store job ≡ (ok halted_state, halted_store))
    × (run_until_blocked sample_digest words number engine halted_store job 50
        ≡ (ok halted_state, halted_store))
over_runs_nothing_example =
    over_runs_nothing sample_digest words number engine halted_store job halted_state 50
      halted_store_state refl
