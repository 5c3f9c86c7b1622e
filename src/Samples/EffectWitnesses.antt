-- ===== src/Samples/EffectWitnesses.antt =====
-- The theorems on external effects at concrete inputs.
use rda_data_director.Prelude.{
  ◌≡◌, refl, String, true, List, [], ◌∷◌, none, some, ok, Error, ◌&&◌, not, contains, ◌++◌, inl,
}
use rda_data_director.Contracts.Primitives.{is_job_id}
use rda_data_director.Contracts.Payload.{end}
use rda_data_director.Contracts.Intents.{
  repository_publish, StepIntent, dump_intent, dump_reconciliation, validate_intent,
}
use rda_data_director.Contracts.Events.{Event, EventKind}
use rda_data_director.State.Store.{placed}
use rda_data_director.State.Store.Tail.{Holds}
use rda_data_director.Workflow.Effects.{
  took_effect, UnfinishedAttempt, step_event, completed_payload, failed_payload, found,
  unfinished_in, scan_log, note_event, attempt, reconcile, settle,
}
use rda_data_director.Workflow.Effects.Unfinished.{
  starts, concludes, attempt_keys, unfinished_exact,
}
use rda_data_director.Workflow.Effects.Attempt.{
  with_intent, attempt_brackets, reconcile_never_guesses, settle_names_person,
}
use rda_data_director.Samples.Logs.{job, ada, sample_digest, sample_event, born, born_store}
use rda_data_director.Samples.AccessWitnesses.{born_store-Holds}

abbrev publish : StepIntent
publish = record {
  step = "deposit";
  effect = repository_publish;
  target = "zenodo";
  idempotency_key = "k1";
  detail = end;
}

-- An attempt fails, and its retry under the same key never ends.
abbrev retried : List Event
retried =
    sample_event 1 EventKind.step_started none (dump_intent publish) none
    ∷ sample_event 2 EventKind.step_failed none (failed_payload publish "timeout") none
    ∷ sample_event 3 EventKind.step_started none (dump_intent publish) none
    ∷ []

retried_unreported : unfinished_in retried ≡ ok []
unfolding unfinished_in scan_log note_event validate_intent
retried_unreported = refl

unfinished_exact_example :
    contains (attempt_keys []) "k1" ≡ (starts "k1" retried && not (concludes "k1" retried))
unfinished_exact_example = unfinished_exact retried [] "k1" retried_unreported

pub job_named : is_job_id job ≡ true
unfolding is_job_id
job_named = refl

abbrev words : Error → String
words e = "it failed"

abbrev opening : Event
opening = step_event job EventKind.step_started "effects/0.1.0" 100 none (dump_intent publish)

abbrev after_opening : List Event
after_opening = born ∷ placed sample_digest (born ∷ []) opening ∷ []

-- A body that does nothing but return.
attempt_brackets_example :
    ((attempt sample_digest words born_store job "effects/0.1.0" publish (λ t. (ok end, t))).0
      ≡ ok end)
    × Holds sample_digest job
        (attempt sample_digest words born_store job "effects/0.1.0" publish (λ t. (ok end, t))).1
        (after_opening
          ++ placed sample_digest after_opening (
              step_event job EventKind.step_completed "effects/0.1.0"
                (with_intent sample_digest job job_named words born_store "effects/0.1.0" publish
                  (λ t. (ok end, t))).clock
                none
                (completed_payload publish end))
            ∷ [])
attempt_brackets_example =
    (attempt_brackets sample_digest job job_named words born_store "effects/0.1.0" publish
        (λ t. (ok end, t)) (born ∷ []) born_store-Holds).1
      end
      (with_intent sample_digest job job_named words born_store "effects/0.1.0" publish
        (λ t. (ok end, t)))
      after_opening refl
      (attempt_brackets sample_digest job job_named words born_store "effects/0.1.0" publish
        (λ t. (ok end, t)) (born ∷ []) born_store-Holds).0

abbrev open_attempt : UnfinishedAttempt
open_attempt = record { sequence = 2; intent = publish }

-- Nobody can be asked.
reconcile_never_guesses_example :
    (reconcile sample_digest words born_store job open_attempt (λ e. none) "effects/0.1.0").1
    ≡ born_store
reconcile_never_guesses_example =
    (reconcile_never_guesses sample_digest job job_named words born_store open_attempt
        "effects/0.1.0" (born ∷ []) born_store-Holds (λ e. none)).1
      refl

settle_names_person_example :
    ((settle sample_digest born_store job open_attempt took_effect ada "I looked" "effects/0.1.0").0
      ≡ ok (found publish (took_effect, "I looked") (some ada)))
    × Holds sample_digest job
        (settle sample_digest born_store job open_attempt took_effect ada "I looked"
          "effects/0.1.0").1
        (born
          ∷ placed sample_digest (born ∷ []) (
              step_event job EventKind.step_reconciled "effects/0.1.0" 100
                (some ada)
                (dump_reconciliation (found publish (took_effect, "I looked") (some ada))))
          ∷ [])
settle_names_person_example =
    (settle_names_person sample_digest job job_named words born_store open_attempt "effects/0.1.0"
        (born ∷ []) born_store-Holds took_effect "I looked" ada).0
      (inl refl)
