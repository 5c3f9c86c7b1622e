-- ===== src/Api/Service/Rerun.antt =====
-- A request for another attempt, as `job_status` and as the gate count it.
use rda_data_director.Prelude.{
  ℕ, ◌≡◌, refl, ap, ◌∙◌, sym, String, false, List, [], ◌∷◌, ◌++◌, Option, ok, contains, str_eq,
}
use rda_data_director.Contracts.Primitives.{Orcid, Digest}
use rda_data_director.Contracts.Events.{Event}
use rda_data_director.Contracts.Gate.{GateState, Resolution, request_rerun, unresolved}
use rda_data_director.Contracts.Gate.Open.{ids, decided, unresolved-rerun}
use rda_data_director.State.Store.{placed}
use rda_data_director.Api.Service.{decision_event}
use rda_data_director.Api.Service.Gate.{note_gate-decision}
use rda_data_director.Job.Log.{JobStatus, decided_by_kind, job_status, build_gate, unique_gate}
use rda_data_director.Job.Log.Gate.{build_gate-snoc}
use rda_data_director.Job.Log.Status.{job_status-snoc}

-- A log after the service has recorded a request for another attempt on an item.
abbrev pub with_request :
    (Event → Digest)
    → String
    → String
    → ℕ
    → List Event
    → Orcid
    → String
    → Option String
    → List Event
with_request digest_of agent job now log human item_id reason =
    log
    ++ placed digest_of log (decision_event agent job now human item_id request_rerun reason) ∷ []

-- Two readers of one log disagree on a request for another attempt: after it is recorded,
-- `job_status` no longer calls the item unresolved, while the gate has the same unresolved items as
-- before, that item among them if it was.
pub rerun_splits_readers :
    (digest_of : Event → Digest) (agent job : String) (now : ℕ) (log : List Event)
    {gate : GateState} (human : Orcid) (item_id : String) (reason : Option String) (s : JobStatus)
    → build_gate log ≡ ok gate
    → str_eq item_id "" ≡ false
    → job_status (with_request digest_of agent job now log human item_id reason) ≡ ok s
    → (contains (ids s.unresolved) item_id ≡ false)
      × ((g : GateState) × (build_gate
              (with_request digest_of agent job now log human item_id reason)
            ≡ ok g)
          × (unresolved g ≡ unresolved gate))
unfolding decided_by_kind
rerun_splits_readers digest_of agent job now log human item_id reason s built some_id known =
    let event =
      placed digest_of log (decision_event agent job now human item_id request_rerun reason) in
    let (raw, same, next) = build_gate-snoc log event built in
    let r : Resolution = record {
      item_id = item_id;
      decision = request_rerun;
      decided_by = human;
      reason = reason;
      decided_at = now;
    } in
    (
      job_status-snoc log event item_id s (rw some_id refl) known,
      (
        decided (unique_gate raw) r,
        next _
            (note_gate-decision digest_of log agent job now raw human item_id request_rerun reason),
        unresolved-rerun (unique_gate raw) r refl ∙ ap unresolved (sym same),
      ),
    )
