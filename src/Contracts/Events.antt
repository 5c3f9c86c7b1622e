-- ===== src/Contracts/Events.antt =====
-- events.py: the kinds of event, the event record with its construction check, and `verify_chain`.
-- The digest of an event is SHA-256 over its canonical JSON, both of which the program takes from
-- libraries: `digest_of` is a parameter wherever a digest is computed.
pub mod Chain
pub mod Tamper
use rda_data_director.Prelude.{
  ℕ, suc, String, Bool, true, false, not, ◌&&◌, ◌||◌, List, [], ◌∷◌, Option, none, some, Result, ok,
  err, value_error, ltb, ◌==◌, if◌then◌else◌,
}
use rda_data_director.Contracts.Primitives.{Orcid, Digest, digest_eq, is_job_id}
use rda_data_director.Contracts.Payload.{Fields}

pub data EventKind : Type 0 where
  step_started step_completed step_failed step_reconciled : EventKind
  gate_items_displayed owner_added access_audited : EventKind
  metadata_drafted documentation_drafted : EventKind
  workflow_created material_registered declaration_parsed declaration_confirmed : EventKind
  classification_completed classification_contradicted : EventKind
  redaction_proposed redaction_decided : EventKind
  dmp_commitments_read dmp_discrepancy_flagged instructions_received : EventKind
  repository_selected metadata_generated metadata_approved validation_completed : EventKind
  deposit_completed workflow_halted workflow_closed_not_shared compensated : EventKind

-- `kind in HUMAN_ACTS`
abbrev pub is_human_act : EventKind → Bool
is_human_act owner_added = true
is_human_act gate_items_displayed = true
is_human_act declaration_confirmed = true
is_human_act redaction_decided = true
is_human_act metadata_approved = true
is_human_act deposit_completed = true
is_human_act _ = false

pub record Event : Type 0 where
  pub sequence : ℕ
  pub job_id : String
  pub kind : EventKind
  pub occurred_at : ℕ
  pub agent : String
  pub human : Option Orcid
  pub payload : Fields
  pub prev_digest : Option Digest

abbrev pub is_none {ℓ} : {A : Type ℓ} → Option A → Bool
is_none none = true
is_none (some a) = false

-- The checks of `Event(...)`: the fields `sequence` and `job_id`, then `model_post_init`.
unfoldable pub construct : Event → Result Event
construct ev =
    if ev.sequence == 0 || not (is_job_id ev.job_id)
    then err value_error
    else if is_human_act ev.kind && is_none ev.human
    then err value_error
    else if ev.sequence == 1 && not (is_none ev.prev_digest)
    then err value_error
    else if ltb 1 ev.sequence && is_none ev.prev_digest
    then err value_error
    else ok ev

-- `ev.prev_digest != expected`, negated
abbrev pub is_digest : Option Digest → Digest → Bool
is_digest none d = false
is_digest (some p) d = digest_eq p d

module _ (digest_of : Event → Digest) where
  -- The loop of `verify_chain` from position `i`, with the event before it.
  unfoldable pub verify_from : ℕ → Option Event → List Event → Result (Unit {0})
  verify_from i before [] = ok tt
  verify_from i none (ev ∷ events) =
      let rest = verify_from (suc i) (some ev) events in
      if ev.sequence == suc i then rest else err value_error
  verify_from i (some before) (ev ∷ events) =
      let rest = verify_from (suc i) (some ev) events in
      if ev.sequence == suc i
      then (if is_digest ev.prev_digest (digest_of before) then rest else err value_error)
      else err value_error

  unfoldable pub verify_chain : List Event → Result (Unit {0})
  unfolding verify_from
  verify_chain events = verify_from 0 none events
