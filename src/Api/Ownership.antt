-- ===== src/Api/Ownership.antt =====
-- api/ownership.py: ownership folded out of the log, and the checks of reads and of actions.
pub mod Access
pub mod Trace
use rda_data_director.Prelude.{
  ℕ, String, Bool, true, false, ◌||◌, List, [], ◌∷◌, ◌++◌, Option, none, some, Result, ok, err,
  ◌>>=◌, Error, value_error, key_error, authority_error, not_visible, length, ◌==◌, any, keep_if,
  if◌then◌else◌,
}
use rda_data_director.Contracts.Primitives.{Orcid, Digest}
use rda_data_director.Contracts.Primitives.Checksum.{construct_orcid}
use rda_data_director.Contracts.Payload.{
  Json, null, text, Fields, end, field, get, find, truthy, text_or_null, null_or,
}
use rda_data_director.Contracts.Events.{Event, EventKind}
use rda_data_director.Contracts.Ownership.{
  AccessRole, auditor, administrator, OwnershipGrant, Ownership, owners, owned_by, granting,
  is_sole_owned,
}
use rda_data_director.State.Store.{Store, load, append, list_jobs}

abbrev pub is_auditor : AccessRole → Bool
is_auditor auditor = true
is_auditor administrator = false

-- `roles and AccessRole.AUDITOR in roles`
abbrev pub audits : List AccessRole → Bool
audits roles = any is_auditor roles

abbrev pub owner_event : String → Orcid → Orcid → Option String → String → ℕ → Event
owner_event job owner by reason agent now = record {
  sequence = 1;
  job_id = job;
  kind = EventKind.owner_added;
  occurred_at = now;
  agent = agent;
  human = some by;
  payload = field "owner" (text owner.value) (field "reason" (null_or reason) end);
  prev_digest = none;
}

abbrev pub audit_event : String → Orcid → String → ℕ → Event
audit_event job caller agent now = record {
  sequence = 1;
  job_id = job;
  kind = EventKind.access_audited;
  occurred_at = now;
  agent = agent;
  human = some caller;
  payload = end;
  prev_digest = none;
}

-- `store.append(...)` and a value that is read after it
abbrev pub after_append {ℓ} :
    {A : Type ℓ} → Result Event × Store → (Store → Result A) → Result A × Store
after_append (err e, store) next = (err e, store)
after_append (ok ev, store) next = (next store, store)

module _ (decimal : ℕ → Option ℕ) where
  -- `Orcid(value=...)` of a value of a payload
  abbrev pub orcid_of : Json → Result Orcid
  orcid_of (text s) = construct_orcid decimal s
  orcid_of _ = err value_error

  abbrev pub created_grant : Json → ℕ → Result (List OwnershipGrant)
  created_grant created_by now =
      if truthy created_by
      then (do
        owner ← orcid_of created_by
        ok (record { owner = owner; granted_by = none; reason = none; granted_at = now } ∷ []))
      else ok []

  abbrev pub owner_value : Option Json → Result Orcid
  owner_value none = err key_error
  owner_value (some v) = orcid_of v

  abbrev pub added_grant : Option Orcid → Event → Result (List OwnershipGrant)
  added_grant none ev = ok []
  added_grant (some human) ev = do
    owner ← owner_value (find "owner" ev.payload)
    reason ← text_or_null (get "reason" ev.payload)
    ok (
        record {
          owner = owner;
          granted_by = some human;
          reason = reason;
          granted_at = ev.occurred_at;
        }
        ∷ [])

  -- The grants that one event adds; `now` is the time of the fold, which a creator's grant takes.
  unfoldable pub grants_of : ℕ → EventKind → Event → Result (List OwnershipGrant)
  grants_of now EventKind.workflow_created ev = created_grant (get "created_by" ev.payload) now
  grants_of now EventKind.owner_added ev = added_grant ev.human ev
  grants_of now _ ev = ok []

  -- The loop of `ownership_of`.
  unfoldable pub grants_in : ℕ → List Event → Result (List OwnershipGrant)
  grants_in now [] = ok []
  grants_in now (ev ∷ events) = do
    first ← grants_of now ev.kind ev
    rest ← grants_in now events
    ok (first ++ rest)

  module _ (digest_of : Event → Digest) where
    unfoldable pub ownership_of : Store → String → Result Ownership
    ownership_of store job = do
      events ← load digest_of job store
      grants ← grants_in store.clock events
      ok (record { job_id = job; grants = grants })

    abbrev add_to :
        Store
        → String
        → Orcid
        → Orcid
        → Option String
        → String
        → Ownership
        → Result Ownership
        → Result Ownership × Store
    add_to store job owner by reason agent current (err e) = (err e, store)
    add_to store job owner by reason agent current (ok updated) =
        if length (owners updated) == length (owners current)
        then (ok current, store)
        else after_append
            (append digest_of (owner_event job owner by reason agent store.clock) store)
            (λ s. ownership_of s job)

    abbrev add_owner_from :
        Store
        → String
        → Orcid
        → Orcid
        → Option String
        → String
        → Result Ownership
        → Result Ownership × Store
    add_owner_from store job owner by reason agent (err e) = (err e, store)
    add_owner_from store job owner by reason agent (ok current) =
        add_to store job owner by reason agent current
          (granting current owner by reason store.clock)

    unfoldable pub add_owner :
        Store → String → Orcid → Orcid → Option String → String → Result Ownership × Store
    add_owner store job owner by reason agent =
        add_owner_from store job owner by reason agent (ownership_of store job)

    abbrev visible_from :
        Store
        → String
        → Orcid
        → List AccessRole
        → String
        → Result Ownership
        → Result Ownership × Store
    visible_from store job caller roles agent (err e) = (err e, store)
    visible_from store job caller roles agent (ok ownership) =
        if owned_by ownership caller
        then (ok ownership, store)
        else if audits roles
        then after_append (append digest_of (audit_event job caller agent store.clock) store)
            (λ s. ok ownership)
        else (err not_visible, store)

    unfoldable pub require_visible :
        Store → String → Orcid → List AccessRole → String → Result Ownership × Store
    require_visible store job caller roles agent =
        visible_from store job caller roles agent (ownership_of store job)

    unfoldable pub require_actor : Store → String → Orcid → List AccessRole → Result Ownership
    require_actor store job caller roles = do
      ownership ← ownership_of store job
      if owned_by ownership caller
          then ok ownership
          else if audits roles
          then err authority_error
          else err not_visible

    -- `except Exception: continue`
    abbrev pub owns : Orcid → Result Ownership → Bool
    owns caller (err e) = false
    owns caller (ok ownership) = owned_by ownership caller

    abbrev pub owns_alone : Orcid → Result Ownership → Bool
    owns_alone caller (err e) = false
    owns_alone caller (ok ownership) =
        if is_sole_owned ownership then owned_by ownership caller else false

    unfoldable pub jobs_for : Store → Orcid → List AccessRole → List String
    jobs_for store caller roles =
        keep_if (λ job. audits roles || owns caller (ownership_of store job)) (list_jobs store)

    unfoldable pub sole_owned_by : Store → Orcid → List String
    sole_owned_by store caller =
        keep_if (λ job. owns_alone caller (ownership_of store job)) (list_jobs store)
