-- ===== src/Samples/PublishWitnesses.antt =====
-- A deposit of a small job, by the publication agent with the store.
use rda_data_director.Prelude.{
  ◌≡◌, refl, Bool, String, true, [], ◌∷◌, none, some, Result, ok, Error,
}
use rda_data_director.Paths.{PurePath}
use rda_data_director.Contracts.Primitives.{is_job_id, digest_eq}
use rda_data_director.Contracts.Payload.{Json, text}
use rda_data_director.Contracts.Events.{construct, verify_chain}
use rda_data_director.Contracts.Gate.{blocks_deposit, unresolved, excluded_artefacts}
use rda_data_director.State.Store.{Store, load, append}
use rda_data_director.State.Projection.{fold}
use rda_data_director.Gate.Upload.{artefacts_to_upload}
use rda_data_director.Workflow.Effects.{unfinished, attempt, note_event}
use rda_data_director.Agents.Publication.{DepositReceipt, PublicationAgent, publish}
use rda_data_director.Job.Log.{build_gate}
use rda_data_director.Api.Service.{gate_of, state_in, validation_findings}
use rda_data_director.Api.Publish.{JobService, DepositAnswer, already_published, deposited, deposit}
use rda_data_director.Api.Publish.Cleared.{Cleared}
use rda_data_director.Api.Publish.Once.{Running}
use rda_data_director.Api.Publish.Again.{deposited_once}
use rda_data_director.Samples.Logs.{job, ada, bob, sample_digest, born, born_store}
use rda_data_director.Samples.ServiceWitnesses.{job_is_named}
use rda_data_director.Samples.AccessWitnesses.{born_store-Holds}

abbrev receipt : DepositReceipt
receipt = record { pid = "10.5281/zenodo.7"; concept_pid = none; landing_page = none }

abbrev obs : PurePath
obs = record { absolute = true; parts = "work" ∷ job ∷ "unpacked" ∷ "obs.csv" ∷ [] }

abbrev publisher : PublicationAgent String
publisher = record {
  driver = λ j drafted files human. ok receipt;
  base_url = "https://zenodo.org";
  root = record { absolute = true; parts = "work" ∷ [] };
  has_store = true;
}

abbrev service : JobService String
service = record {
  driver = none;
  publication = some publisher;
  agent = "core-api/0.1.0";
  unpacked_root = none;
}

abbrev no_hash : String → String
no_hash s = s

abbrev no_words : Error → String
no_words e = "failed"

abbrev any_file : PurePath → Bool
any_file p = true

abbrev as_text : Json → Result String
as_text v = ok "record"

abbrev published_once : Result DepositAnswer × Store
published_once =
    deposit sample_digest no_hash no_words any_file as_text service born_store job ada "zenodo"
      (some "record") (some (obs ∷ []))

published_answer : published_once.0 ≡ ok (deposited receipt)
unfolding deposit load construct is_job_id verify_chain digest_eq fold build_gate blocks_deposit
    unresolved validation_findings publish unfinished attempt append artefacts_to_upload state_in
    gate_of note_event excluded_artefacts
published_answer = refl

born_store-Running : Running sample_digest job job_is_named born_store
unfolding fold
born_store-Running = record {
  log = born ∷ [];
  now = _;
  holds = born_store-Holds;
  folded = record {
    begun = λ e. cc;
    compensable = (λ n comp restores. cc, tt);
    folds = refl;
    named = refl;
  };
}

-- Bob presses Publish again.
deposited_once_example :
    deposit sample_digest no_hash no_words any_file as_text service published_once.1 job bob
      "zenodo" none none
    ≡ (ok (already_published (text receipt.pid)), published_once.1)
deposited_once_example =
    deposited_once sample_digest no_hash no_words any_file as_text job job_is_named born_store
      born_store-Running service service ada bob "zenodo" "zenodo" (some "record") none
      (some (obs ∷ [])) none receipt published_answer refl
