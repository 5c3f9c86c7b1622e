-- ===== src/Samples/RetentionWitnesses.antt =====
-- The theorem on retention at a published job.
use mathlib.Core.List.Memᴰ.{head}
use rda_data_director.Prelude.{◌≡◌, refl, String, true, false, [], ◌∷◌, none, some, ok, Error}
use rda_data_director.Contracts.Primitives.{is_job_id, digest_eq}
use rda_data_director.Contracts.Payload.{text, field, end}
use rda_data_director.Contracts.Events.{Event, EventKind, construct, verify_chain}
use rda_data_director.Contracts.Retention.{
  RetentionCategory, released, RetentionCandidate, deletable_automatically,
}
use rda_data_director.State.Store.{Store, event_file, whole, load, list_jobs}
use rda_data_director.State.Projection.{JobState, fold}
use rda_data_director.Retention.Sweeper.{
  RetentionSweeper, default_grace, check_survival, candidate_of, candidates, assess,
}
use rda_data_director.Retention.Sweeper.Safe.{IsPublished, IsHeld, automatic_is_safe}
use rda_data_director.Samples.Logs.{job, ada, sample_digest, sample_event, created}

abbrev deposited : Event
deposited =
    sample_event 2 EventKind.deposit_completed (some ada) (field "pid" (text "10.5281/1") end)
      (some (sample_digest created))

abbrev deposited_store : Store
deposited_store = record {
  dirs =
      record {
        job_id = job;
        held = false;
        entries = event_file 1 100 (whole created) ∷ event_file 2 100 (whole deposited) ∷ [];
      }
      ∷ [];
  clock = 300;
  pid = 7;
}

abbrev sweeper : RetentionSweeper
sweeper = record {
  root = record { name = job; files = ("obs.csv", 12) ∷ []; mark = none } ∷ [];
  grace = default_grace;
  idle_after_days = 30;
  probers = λ effect. some (λ intent. ok ("took-effect", "the record is public"));
}

abbrev explain : RetentionCategory → JobState → String
explain category state = "published"

abbrev words : Error → String
words e = "it failed"

abbrev hash : String → String
hash s = s

abbrev published_candidate : RetentionCandidate
published_candidate = record {
  job_id = some job;
  path = job;
  category = released;
  byte_size = 12;
  file_count = 1;
  last_event_at = some 100;
  pid = some "10.5281/1";
  reason = "published";
  survival =
      some (record { checked = true; survives = some true; detail = "the record is public" });
}

assessed :
    assess sample_digest explain words hash sweeper deposited_store 900
    ≡ ok (published_candidate ∷ [])
unfolding assess candidates candidate_of check_survival list_jobs load construct is_job_id
    verify_chain digest_eq fold
assessed = refl

safe_to_delete : deletable_automatically published_candidate ≡ true
unfolding deletable_automatically
safe_to_delete = refl

automatic_is_safe_example :
    IsPublished sample_digest explain deposited_store published_candidate
    × IsHeld hash sweeper published_candidate
automatic_is_safe_example =
    automatic_is_safe sample_digest explain words hash sweeper deposited_store 900
      (published_candidate ∷ []) published_candidate assessed (head refl) safe_to_delete
