-- ===== src/Samples/AccessWitnesses.antt =====
-- The theorems on identifiers, ownership, policy, exposure and the gate at concrete inputs.
use mathlib.Core.List.{Memᴰ}
use rda_data_director.Prelude.{
  ◌↔◌, not_visible, ◌⊎◌, ◌≤◌, ◌≡◌, ◌≢◌, inl, inr, refl, String, true, false, List, [], ◌∷◌, none,
  some, ok, err, arith, authority_error, contains,
}
use rda_data_director.Contracts.Primitives.{on_premise, extra_jurisdiction, is_job_id, digest_eq}
use rda_data_director.Contracts.Primitives.Checksum.{
  check_digit, check_digit-catches, construct_orcid,
}
use rda_data_director.Contracts.Sensitivity.{public, internal, sensitive}
use rda_data_director.Contracts.Events.{construct, verify_chain}
use rda_data_director.Contracts.Exposure.{default_budget, full_document}
use rda_data_director.Contracts.Gate.{
  ItemDecision, approve, acknowledge, exclude_from_deposit, excluded_artefacts, request_rerun,
  llm_output, GateItem, GateState, Resolution, unresolved, resolved_ids, superseded_ids,
}
use rda_data_director.Contracts.Gate.Supersede.{replaced_ids, superseded_ids-eq-replaced_ids}
use rda_data_director.Contracts.Gate.Open.{decided, ids, unresolved-rerun, unresolved-decided}
use rda_data_director.Contracts.Ownership.{Ownership, auditor, owned_by}
use rda_data_director.Contracts.Policy.{text_generation}
use rda_data_director.State.Store.{load}
use rda_data_director.State.Store.Tail.{Holds}
use rda_data_director.Gate.Upload.{artefacts_to_upload}
use rda_data_director.Gate.Upload.Withheld.{Withheld, excluded_never_uploaded}
use rda_data_director.Paths.{PurePath}
use rda_data_director.Gate.Items.{resolve}
use rda_data_director.Gate.Items.Resolve.{IsAdmissible, resolve-IsAdmissible, resolve_exact}
use rda_data_director.Policy.Enforcement.{
  Backend, EnforcementPoint, Candidate, permitted_backends, apply_preference, candidates, rank,
  resolve_backend,
}
use rda_data_director.Policy.Enforcement.Least.{IsPermitted, resolve_least}
use rda_data_director.Exposure.Ledger.{Release, record_all}
use rda_data_director.Exposure.Ledger.Budget.{IsWithin, budget_kept}
use rda_data_director.Api.Ownership.{
  grants_of, grants_in, ownership_of, require_actor, require_visible, audits,
}
use rda_data_director.Api.Ownership.Access.{ownership_grows}
use rda_data_director.Api.Ownership.Trace.{is_owner, access_rules}
use rda_data_director.Contracts.Events.{EventKind, Event}
use rda_data_director.Samples.Logs.{
  job, ada, bob, sample_digest, born, shared, born_store, shared_store, ascii_decimal, zero_digest,
}

-- 000000021825009 and the two slips 000000021826009 and 000000021852009.
check_digit-catches_example :
    (check_digit (0 ∷ 2 ∷ 1 ∷ 8 ∷ 2 ∷ 5 ∷ 0 ∷ 9 ∷ [])
      ≢ check_digit (0 ∷ 2 ∷ 1 ∷ 8 ∷ 5 ∷ 5 ∷ 0 ∷ 9 ∷ []))
    × (check_digit (0 ∷ 2 ∷ 1 ∷ 8 ∷ 2 ∷ 5 ∷ 5 ∷ 0 ∷ 9 ∷ [])
        ≢ check_digit (0 ∷ 2 ∷ 1 ∷ 8 ∷ 5 ∷ 2 ∷ 5 ∷ 0 ∷ 9 ∷ []))
check_digit-catches_example =
    check_digit-catches (0 ∷ 2 ∷ 1 ∷ 8 ∷ []) (5 ∷ 0 ∷ 9 ∷ []) 2 5 (omega arith) (omega arith)
      (λ e. omega arith)

ada_is_well_formed : construct_orcid ascii_decimal ada.value ≡ ok ada
unfolding construct_orcid
ada_is_well_formed = refl

born_loads : load sample_digest job born_store ≡ ok (born ∷ [])
unfolding load construct is_job_id verify_chain
born_loads = refl

shared_loads : load sample_digest job shared_store ≡ ok (born ∷ shared ∷ [])
unfolding load construct is_job_id verify_chain digest_eq
shared_loads = refl

abbrev alone : Ownership
alone = record {
  job_id = job;
  grants = record { owner = ada; granted_by = none; reason = none; granted_at = 100 } ∷ [];
}

abbrev together : Ownership
together = record {
  job_id = job;
  grants =
      record { owner = ada; granted_by = none; reason = none; granted_at = 200 }
      ∷ record { owner = bob; granted_by = some ada; reason = none; granted_at = 100 }
      ∷ [];
}

born_owned : ownership_of ascii_decimal sample_digest born_store job ≡ ok alone
unfolding ownership_of load construct is_job_id verify_chain construct_orcid grants_in grants_of
born_owned = refl

shared_owned : ownership_of ascii_decimal sample_digest shared_store job ≡ ok together
unfolding ownership_of load construct is_job_id verify_chain digest_eq construct_orcid grants_in
    grants_of
shared_owned = refl

ada_owns : owned_by alone ada ≡ true
unfolding owned_by
ada_owns = refl

bob_is_no_owner : owned_by alone bob ≡ false
unfolding owned_by
bob_is_no_owner = refl

ownership_grows_example : owned_by together ada ≡ true
ownership_grows_example =
    ownership_grows ascii_decimal sample_digest born_store shared_store job (born ∷ [])
      (shared ∷ []) alone together ada born_loads shared_loads born_owned shared_owned ada_owns

pub born_store-Holds : Holds sample_digest job born_store (born ∷ [])
born_store-Holds = record { free = refl; filed = (refl, tt); loads = born_loads }

job_named : is_job_id job ≡ true
unfolding is_job_id
job_named = refl

-- Bob, an auditor, reads ada's job and may not act on it.
access_rules_example :
    let read =
      require_visible ascii_decimal sample_digest born_store job bob
        (auditor ∷ [])
        "ownership/0.1.0" in
    let acts = require_actor ascii_decimal sample_digest read.1 job bob (auditor ∷ []) in
    (ownership_of ascii_decimal sample_digest read.1 job ≡ ok alone)
    × (((is_owner (born ∷ []) bob ≡ true) × (read ≡ (ok alone, born_store)) × (acts ≡ ok alone))
        ⊎ ((is_owner (born ∷ []) bob ≡ false)
            × (audits (auditor ∷ []) ≡ true)
            × (read.0 ≡ ok alone)
            × ((ev : Event) × Holds sample_digest job read.1 (born ∷ ev ∷ [])
                × (ev.kind ≡ EventKind.access_audited)
                × (ev.human ≡ some bob))
            × (acts ≡ err authority_error))
        ⊎ ((is_owner (born ∷ []) bob ≡ false)
            × (audits (auditor ∷ []) ≡ false)
            × (read ≡ (err not_visible, born_store))
            × (acts ≡ err not_visible)))
access_rules_example =
    access_rules ascii_decimal sample_digest born_store job (born ∷ []) alone bob (auditor ∷ [])
      "ownership/0.1.0" born_store-Holds job_named born_owned

abbrev near : Backend
near = record { residency = on_premise; declared = none }

abbrev far : Backend
far = record { residency = extra_jurisdiction; declared = none }

abbrev point : EnforcementPoint
point = record {
  policy = record {
    backend_by_sensitivity =
        (public, "cloud" ∷ "local" ∷ [])
        ∷ (internal, "cloud" ∷ "local" ∷ [])
        ∷ (sensitive, "local" ∷ [])
        ∷ [];
  };
  backends = ("local", near) ∷ ("cloud", far) ∷ [];
  default_preference = none;
  resolved = [];
}

point_resolves : (resolve_backend point internal text_generation none).0 ≡ ok (near, "local")
unfolding resolve_backend candidates permitted_backends apply_preference
point_resolves = refl

resolve_least_example :
    IsPermitted point internal text_generation none (near, "local")
    × ((cs : List Candidate) (d : Candidate)
        → candidates point internal text_generation none ≡ ok cs
        → Memᴰ d cs
        → rank (near, "local") ≤ rank d)
    × ((resolve_backend point internal text_generation none).1.resolved ≡ "local" ∷ [])
resolve_least_example =
    resolve_least point internal text_generation none (near, "local") point_resolves

abbrev releases : List Release
releases =
    record {
      job_id = job;
      artefact_uri = "obs.csv";
      kind = full_document;
      content = 1 ∷ 2 ∷ 3 ∷ [];
      classification = internal;
      backend = "cloud";
      residency = extra_jurisdiction;
      detail = none;
      authorised_by = some ada;
      now = 5;
    }
    ∷ []

budget_kept_example : IsWithin default_budget (
    (record_all zero_digest releases (record { files = λ j. []; budget = default_budget })).files
      job)
budget_kept_example = budget_kept zero_digest default_budget releases job

-- Two drafts of one agent.
abbrev draft : String → GateItem
draft id = record {
  item_id = id;
  kind = llm_output;
  artefact = none;
  summary = "Check what metadata wrote";
  detail = [];
  proposal = none;
  permitted_decisions = approve ∷ request_rerun ∷ [];
}

abbrev by_ada : String → ItemDecision → Resolution
by_ada id d = record { item_id = id; decision = d; decided_by = ada; reason = none; decided_at = 9 }

abbrev two_drafts : GateState
two_drafts = record {
  items = draft "llm-output:metadata:aa" ∷ draft "llm-output:metadata:bb" ∷ [];
  resolutions = by_ada "llm-output:metadata:bb" approve ∷ [];
}

superseded_ids-eq-replaced_ids_example :
    superseded_ids two_drafts ≡ replaced_ids (resolved_ids two_drafts.resolutions) two_drafts.items
superseded_ids-eq-replaced_ids_example = superseded_ids-eq-replaced_ids two_drafts

unresolved-rerun_example :
    unresolved (decided two_drafts (by_ada "llm-output:metadata:aa" request_rerun))
    ≡ unresolved two_drafts
unresolved-rerun_example =
    unresolved-rerun two_drafts (by_ada "llm-output:metadata:aa" request_rerun) refl

unresolved-decided_example :
    contains
      (ids (unresolved (decided two_drafts (by_ada "llm-output:metadata:aa" approve))))
      "llm-output:metadata:aa"
    ≡ false
unresolved-decided_example =
    (unresolved-decided two_drafts (by_ada "llm-output:metadata:aa" approve)).0 refl

approval_IsAdmissible : IsAdmissible two_drafts "llm-output:metadata:aa" approve none
approval_IsAdmissible = record {
  item = draft "llm-output:metadata:aa";
  found = refl;
  permitted = refl;
  judged = λ e k. ground arith;
  reasoned = λ e. elim e [ inl c ↦ ground arith | inr p ↦ ground arith ];
}

resolve-IsAdmissible_example : resolve two_drafts "llm-output:metadata:aa" approve ada none 9 ≡ (
  ok (by_ada "llm-output:metadata:aa" approve),
  decided two_drafts (by_ada "llm-output:metadata:aa" approve),
)
resolve-IsAdmissible_example =
    resolve-IsAdmissible two_drafts "llm-output:metadata:aa" approve ada none 9
      approval_IsAdmissible

refused :
    (resolve two_drafts "llm-output:metadata:aa" acknowledge ada none 9).0 ≡ err authority_error
unfolding resolve
refused = refl

resolve_exact_example :
    (resolve two_drafts "llm-output:metadata:aa" acknowledge ada none 9).1 ≡ two_drafts
resolve_exact_example =
    (resolve_exact two_drafts "llm-output:metadata:aa" acknowledge ada none 9).1 authority_error
      refused

abbrev withheld_item : GateItem
withheld_item = record (draft "uninspected:data/obs.csv") { artefact = some "data/obs.csv" }

abbrev withheld : GateState
withheld = record {
  items = withheld_item ∷ [];
  resolutions = by_ada "uninspected:data/obs.csv" exclude_from_deposit ∷ [];
}

abbrev notes : PurePath
notes = record { absolute = true; parts = "work" ∷ "data" ∷ "notes.txt" ∷ [] }

abbrev obs : PurePath
obs = record { absolute = true; parts = "work" ∷ "data" ∷ "obs.csv" ∷ [] }

abbrev unpacked_root : PurePath
unpacked_root = record { absolute = true; parts = "work" ∷ [] }

-- Of the two files, the one that was not withheld.
notes_uploaded :
    artefacts_to_upload
      (obs ∷ notes ∷ [])
      (excluded_artefacts withheld.items withheld.resolutions)
      (some unpacked_root)
    ≡ notes ∷ []
unfolding artefacts_to_upload excluded_artefacts
notes_uploaded = refl

-- The item names `obs` by its path below the unpacked directory.
excluded_never_uploaded_example :
    Memᴰ obs (
      artefacts_to_upload
        (obs ∷ notes ∷ [])
        (excluded_artefacts withheld.items withheld.resolutions)
        (some unpacked_root))
    ↔ (Memᴰ obs (obs ∷ notes ∷ []) × ¬ Withheld withheld (some unpacked_root) obs)
excluded_never_uploaded_example =
    excluded_never_uploaded withheld (some unpacked_root) obs (obs ∷ notes ∷ [])
