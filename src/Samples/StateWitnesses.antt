-- ===== src/Samples/StateWitnesses.antt =====
-- The theorems on the event log and its fold at the sample log.
use rda_data_director.Prelude.{
  ◌<◌, ◌≤◌, String, ◌≡◌, ◌≢◌, refl, [], ◌∷◌, ◌++◌, none, some, true, false, ok, err, ◌>>=◌, arith,
  inr, ◌⊎◌, eq_iff, take, concurrent_append_error, value_error,
}
use rda_data_director.Contracts.Primitives.{is_job_id, digest_eq}
use rda_data_director.Contracts.Payload.{null}
use rda_data_director.Contracts.Sensitivity.{
  Classification, public, internal, sensitive, tighten, level_value,
}
use rda_data_director.Contracts.Sensitivity.Asymmetry.{tighten_exact}
use rda_data_director.Contracts.Events.{EventKind, construct, verify_chain}
use rda_data_director.Contracts.Events.Chain.{IsChain, verify_chain_iff, tail_unprotected}
use rda_data_director.Contracts.Events.Tamper.{tamper_evident}
use rda_data_director.State.Store.{Store, atomic_write, find_dir, load, append, event_files}
use rda_data_director.State.Store.Tail.{Holds}
use rda_data_director.State.Store.Directory.{after_steps}
use rda_data_director.State.Store.Append.{append-Holds}
use rda_data_director.State.Store.Crash.{crash_safe, append_refused}
use rda_data_director.State.Projection.{JobState, fold, fold_step, with_seen, restores_state_at}
use rda_data_director.State.Projection.Fuel.{IsCompensable}
use rda_data_director.State.Projection.Rollback.{fold-snoc, rollback}
use rda_data_director.State.Projection.Asymmetry.{AtLeast, automated_never_lowers}
use rda_data_director.State.Projection.Total.{IsReadable, fold_total}
use rda_data_director.Samples.Logs.{
  job, ada, sample_digest, created, confirmed, scanned, undone, sample_log, empty_store,
}

tighten_exact_example :
    let c : Classification = record {
      level = public;
      established_by = some ada;
      established_by_agent = none;
      rationale = none;
    } in
    (level_value public < level_value sensitive
      → (c' : Classification) × (tighten c sensitive "scan" none ≡ ok c')
        × (c'.level ≡ sensitive)
        × (c'.established_by ≡ some ada)
        × (c'.established_by_agent ≡ some "scan"))
    × (level_value sensitive ≤ level_value public
        → tighten c sensitive "scan" none ≡ err value_error)
tighten_exact_example =
    tighten_exact
      (record {
        level = public;
        established_by = some ada;
        established_by_agent = none;
        rationale = none;
      })
      sensitive "scan" none

sample_log_verifies : verify_chain sample_digest sample_log ≡ ok tt
unfolding verify_chain digest_eq
sample_log_verifies = refl

verify_chain_iff_example : IsChain sample_digest sample_log
verify_chain_iff_example = (verify_chain_iff sample_digest sample_log).0 sample_log_verifies

tamper_evident_example : created ∷ confirmed ∷ [] ≡ created ∷ confirmed ∷ []
tamper_evident_example =
    tamper_evident sample_digest (created ∷ confirmed ∷ []) (created ∷ confirmed ∷ []) scanned
      sample_log_verifies sample_log_verifies
      (
        (λ h. refl, (λ h. ground (arith, eq_iff "1" "2"), tt)),
        ((λ h. ground (arith, eq_iff "2" "1"), (λ h. refl, tt)), tt),
      )

tail_unprotected_example :
    (verify_chain sample_digest (created ∷ []) ≡ ok tt)
    × (verify_chain sample_digest (created ∷ confirmed ∷ []) ≡ ok tt)
tail_unprotected_example =
    tail_unprotected sample_digest (created ∷ []) (scanned ∷ []) confirmed confirmed
      sample_log_verifies refl refl

created_constructs : construct created ≡ ok created
unfolding construct is_job_id
created_constructs = refl

empty_store-Holds : Holds sample_digest job empty_store []
unfolding load verify_chain
empty_store-Holds = record { free = refl; filed = tt; loads = refl }

append-Holds_example :
    ((append sample_digest created empty_store).0 ≡ ok created)
    × Holds sample_digest job (append sample_digest created empty_store).1 (created ∷ [])
    × ((other : String)
        → other ≢ job
        → find_dir other (append sample_digest created empty_store).1.dirs ≡ none)
append-Holds_example =
    append-Holds sample_digest created empty_store [] created_constructs empty_store-Holds

crash_safe_example :
    let crashed = after_steps created empty_store (take 1 atomic_write) created in
    (load sample_digest job crashed ≡ ok []) ⊎ (load sample_digest job crashed ≡ ok (created ∷ []))
crash_safe_example =
    crash_safe sample_digest created empty_store [] 1 created_constructs empty_store-Holds

abbrev locked_store : Store
locked_store = record empty_store { dirs = record { job_id = job; held = true; entries = [] } ∷ [] }

locked_append : (append sample_digest created locked_store).0 ≡ err concurrent_append_error
unfolding append
locked_append = refl

append_refused_example :
    event_files job (append sample_digest created locked_store).1 ≡ event_files job locked_store
append_refused_example =
    append_refused sample_digest created locked_store concurrent_append_error job locked_append

undone_restores : restores_state_at undone.payload ≡ ok 2
unfolding restores_state_at
undone_restores = refl

rolled_back-IsCompensable : IsCompensable (sample_log ++ undone ∷ [])
unfolding restores_state_at
rolled_back-IsCompensable = (λ n c r. cc, (λ n c r. cc, (λ n c r. cc, (λ n c r. ground arith, tt))))

fold-snoc_example : fold (sample_log ++ undone ∷ []) ≡ (
    fold sample_log >>= λ state. fold_step (λ n. fold (take n sample_log)) state undone >>= λ next.
    ok (with_seen (sample_log ++ undone ∷ []) next))
fold-snoc_example = fold-snoc created (confirmed ∷ scanned ∷ []) undone rolled_back-IsCompensable

created-IsReadable : IsReadable created
created-IsReadable = record {
  level = λ k. ground arith;
  rationale = λ k. cc;
  artefacts = λ k. cc;
  restores = λ k. cc;
}

confirmed-IsReadable : IsReadable confirmed
confirmed-IsReadable = record {
  level = λ k. inr (internal, refl);
  rationale = λ k. cc;
  artefacts = λ k. cc;
  restores = λ k. cc;
}

scanned-IsReadable : IsReadable scanned
scanned-IsReadable = record {
  level = λ k. inr (sensitive, refl);
  rationale = λ k. (some "classification scan", refl);
  artefacts = λ k. cc;
  restores = λ k. cc;
}

undone-IsReadable : IsReadable undone
unfolding restores_state_at
undone-IsReadable = record {
  level = λ k. ground arith;
  rationale = λ k. cc;
  artefacts = λ k. cc;
  restores = λ k. (1, refl);
}

fold_total_example : (state : JobState) × (fold (sample_log ++ undone ∷ []) ≡ ok state)
fold_total_example =
    fold_total created (confirmed ∷ scanned ∷ undone ∷ []) rolled_back-IsCompensable
      (created-IsReadable, (confirmed-IsReadable, (scanned-IsReadable, (undone-IsReadable, tt))))

abbrev pub base_state : JobState
base_state = record {
  job_id = job;
  step = "classification";
  classification = some (record {
    level = internal;
    established_by = some ada;
    established_by_agent = none;
    rationale = some "confirmed declaration";
  });
  material = [];
  confirmed_sets = ("declaration", confirmed.payload) ∷ [];
  pending = [];
  halted_reason = null;
  terminal = none;
  config_digest = null;
  deposit_pid = null;
  has_statement = false;
  seen_kinds = EventKind.workflow_created ∷ EventKind.declaration_confirmed ∷ [];
}

abbrev pub scanned_state : JobState
scanned_state = record base_state {
  step = "dmp";
  classification = some (record {
    level = sensitive;
    established_by = some ada;
    established_by_agent = some "tester/1";
    rationale = some "classification scan";
  });
  seen_kinds =
      EventKind.workflow_created ∷ EventKind.declaration_confirmed
      ∷ EventKind.classification_completed ∷ [];
}

fold-base : fold (created ∷ confirmed ∷ []) ≡ ok base_state
unfolding fold
fold-base = refl

pub fold-sample_log : fold sample_log ≡ ok scanned_state
unfolding fold tighten
fold-sample_log = refl

-- The roll-back to sequence 2 brings the lower classification back.
rollback_example : fold (sample_log ++ undone ∷ []) ≡ (
    fold (created ∷ confirmed ∷ []) >>= λ before. ok (with_seen (sample_log ++ undone ∷ []) before))
rollback_example =
    rollback created (confirmed ∷ scanned ∷ []) undone 2 scanned_state rolled_back-IsCompensable
      refl undone_restores fold-sample_log

scanned_constructs : construct scanned ≡ ok scanned
unfolding construct is_job_id
scanned_constructs = refl

automated_never_lowers_example : AtLeast base_state.classification scanned_state.classification
automated_never_lowers_example =
    automated_never_lowers created (confirmed ∷ []) scanned base_state scanned_state
      (λ n c r. cc, (λ n c r. cc, (λ n c r. cc, tt))) scanned_constructs refl refl fold-base
      fold-sample_log
