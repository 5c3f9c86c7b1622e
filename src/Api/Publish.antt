-- ===== src/Api/Publish.antt =====
-- api/service.py, `JobService.deposit`: the one irreversible operation of the service.
pub mod Cleared
pub mod Once
pub mod Again
use rda_data_director.Prelude.{
  ℕ, String, Bool, true, false, not, ◌&&◌, List, [], ◌∷◌, Option, none, some, Result, ok, err,
  ◌>>=◌, ◌>>◌, raise_if, Error, authority_error, other_exception, if◌then◌else◌,
}
use rda_data_director.Paths.{PurePath}
use rda_data_director.Contracts.Primitives.{Orcid, Digest}
use rda_data_director.Contracts.Payload.{Json, text, Fields, end, field, truthy, null_or}
use rda_data_director.Contracts.Events.{Event, EventKind, is_none}
use rda_data_director.Contracts.Gate.{GateState, blocks_deposit, excluded_artefacts}
use rda_data_director.State.Store.{Store, load, append}
use rda_data_director.State.Projection.{JobState}
use rda_data_director.Gate.Upload.{artefacts_to_upload}
use rda_data_director.Workflow.Effects.{then_return, step_event as service_event}
use rda_data_director.Agents.Publication.{
  DepositReceipt, Driver, PublicationAgent, Publication, published, nothing_to_deposit, publish,
  sorted_set, names_json,
}
use rda_data_director.Job.Views.{latest_drafted_record}
use rda_data_director.Api.Findings.{ValidationFinding}
use rda_data_director.Api.Service.{gate_of, state_in, validation_findings, artefacts}

-- The fields of `JobService` that `deposit` uses.
pub record JobService (R : Type 0) : Type 0 where
  pub driver : Option (Driver R)
  pub publication : Option (PublicationAgent R)
  pub agent : String
  pub unpacked_root : Option (String → PurePath)

-- The dictionary that `deposit` answers.
pub data DepositAnswer : Type 0 where
  already_published : Json → DepositAnswer
  closed_without_deposit : DepositAnswer
  deposited : DepositReceipt → DepositAnswer

-- Where the checks before the deposit leave it.
pub data Prepared (R : Type 0) : Type 0 where
  was_published : Json → Prepared R
  ready : JobState → GateState → R → List PurePath → Prepared R

abbrev pub unpacked_dir : Option (String → PurePath) → String → Option PurePath
unpacked_dir none job = none
unpacked_dir (some root) job = some (root job)

abbrev pub some_files : List PurePath → Result (List PurePath)
some_files [] = err authority_error
some_files (p ∷ ps) = ok (p ∷ ps)

abbrev pub drafted_or_refused {ℓ} : {R : Type ℓ} → Option R → Result R
drafted_or_refused none = err authority_error
drafted_or_refused (some r) = ok r

abbrev pub completed_payload : DepositReceipt → String → List String → Fields
completed_payload r repository excluded = field "pid" (text r.pid) (
    field "concept_pid" (null_or r.concept_pid) (
      field "landing_page" (null_or r.landing_page) (
        field "repository" (text repository)
          (field "excluded" (names_json (sorted_set excluded)) end))))

-- `for event in events: self.store.append(event)`, then a value
abbrev pub next_append {ℓ} :
    {A : Type ℓ} → (Store → Result A × Store) → Result Event × Store → Result A × Store
next_append more (err e, store) = (err e, store)
next_append more (ok placed, store) = more store

abbrev pub append_each {ℓ} :
    {A : Type ℓ} → (Event → Digest) → List Event → Result A → Store → Result A × Store
append_each digest_of [] answer store = (answer, store)
append_each digest_of (ev ∷ events) answer store =
    next_append (append_each digest_of events answer) (append digest_of ev store)

abbrev pub answered : (Event → Digest) → Result Publication × Store → Result DepositAnswer × Store
answered digest_of (err e, store) = (err e, store)
answered digest_of (ok (nothing_to_deposit events), store) =
    append_each digest_of events (ok closed_without_deposit) store
answered digest_of (ok (published r events), store) =
    append_each digest_of events (ok (deposited r)) store

-- The deposit of a service that has a driver and no publication agent.
abbrev pub recorded :
    (Event → Digest)
    → String
    → String
    → Orcid
    → String
    → List String
    → Store
    → Result DepositReceipt
    → Result DepositAnswer × Store
recorded digest_of agent job human repository excluded store (err e) = (err e, store)
recorded digest_of agent job human repository excluded store (ok r) =
    then_return
      (append digest_of
        (service_event job EventKind.deposit_completed agent store.clock (some human)
          (completed_payload r repository excluded))
        store)
      (ok (deposited r))

module _ {R : Type 0} (digest_of : Event → Digest) (hash : String → String) (words : Error → String)
    (is_file : PurePath → Bool) (validate : Json → Result R) where
  abbrev pub record_to_publish : Store → String → Option R → Result R
  record_to_publish store job (some given) = ok given
  record_to_publish store job none = do
    events ← load digest_of job store
    drafted ← latest_drafted_record validate events
    drafted_or_refused drafted

  abbrev pub files_to_publish :
      JobService R → Store → String → Option (List PurePath) → Result (List PurePath)
  files_to_publish self store job (some given) = ok given
  files_to_publish self store job none = do
    files ← artefacts digest_of self.unpacked_root is_file store job
    some_files files

  abbrev pub checks :
      JobService R
      → Store
      → String
      → Option R
      → Option (List PurePath)
      → JobState
      → Result (Prepared R)
  checks self store job given files state = do
    gate ← gate_of digest_of store job
    raise_if (blocks_deposit gate) authority_error
    raise_if (is_none self.driver && is_none self.publication) authority_error
    drafted ← record_to_publish store job given
    listed ← files_to_publish self store job files
    ok (ready state gate drafted listed)

  -- The checks of `deposit`, in their order, before anything is written or sent.
  unfoldable pub prepared :
      JobService R → Store → String → Option R → Option (List PurePath) → Result (Prepared R)
  prepared self store job given files = do
    state ← state_in digest_of store job
    (if truthy state.deposit_pid
        then ok (was_published state.deposit_pid)
        else checks self store job given files state)

  abbrev pub with_findings :
      PublicationAgent R
      → Store
      → Orcid
      → JobState
      → GateState
      → R
      → List PurePath
      → Result (List ValidationFinding)
      → Result Publication × Store
  with_findings agent store human state gate drafted files (err e) = (err e, store)
  with_findings agent store human state gate drafted files (ok findings) =
      publish digest_of hash words agent store state.job_id drafted files gate findings human

  abbrev pub by_driver :
      JobService R
      → Store
      → String
      → Orcid
      → String
      → GateState
      → R
      → List PurePath
      → Option (Driver R)
      → Result DepositAnswer × Store
  by_driver self store job human repository gate drafted files none = (err other_exception, store)
  by_driver self store job human repository gate drafted files (some driver) =
      let excluded = excluded_artefacts gate.items gate.resolutions in
      recorded digest_of self.agent job human repository excluded store (
        driver job drafted
          (artefacts_to_upload files excluded (unpacked_dir self.unpacked_root job)) human)

  abbrev pub send :
      JobService R
      → Store
      → String
      → Orcid
      → String
      → JobState
      → GateState
      → R
      → List PurePath
      → Option (PublicationAgent R)
      → Result DepositAnswer × Store
  send self store job human repository state gate drafted files none =
      by_driver self store job human repository gate drafted files self.driver
  send self store job human repository state gate drafted files (some agent) = answered digest_of (
      with_findings agent store human state gate drafted files
        (validation_findings digest_of store job))

  abbrev pub carried_out :
      JobService R
      → Store
      → String
      → Orcid
      → String
      → Result (Prepared R)
      → Result DepositAnswer × Store
  carried_out self store job human repository (err e) = (err e, store)
  carried_out self store job human repository (ok (was_published pid)) =
      (ok (already_published pid), store)
  carried_out self store job human repository (ok (ready state gate drafted files)) =
      send self store job human repository state gate drafted files self.publication

  -- `JobService.deposit`
  unfoldable pub deposit :
      JobService R
      → Store
      → String
      → Orcid
      → String
      → Option R
      → Option (List PurePath)
      → Result DepositAnswer × Store
  unfolding prepared
  deposit self store job human repository given files =
      carried_out self store job human repository (prepared self store job given files)
