-- ===== src/State/Projection.antt =====
-- state/projection.py: the state of a job, folded from its log. What the fold copies out of a
-- payload unchecked stays a `Json` value, where `null` is `None`.
pub mod Fuel
pub mod Rollback
pub mod Asymmetry
pub mod Total
pub mod Extend
use rda_data_director.Prelude.{
  ℕ, zero, suc, String, Bool, true, false, not, ◌&&◌, List, [], ◌∷◌, ◌++◌, map, Option, none, some,
  Result, ok, err, ◌>>=◌, Error, value_error, recursion_error, ltb, leb, str_eq, length, take,
  keep_if, if◌then◌else◌,
}
use rda_data_director.Contracts.Payload.{
  Json, null, bool, nat, text, Fields, get, find, is_null, is_text, python_list, a_text,
}
use rda_data_director.Contracts.Sensitivity.{
  SensitivityClass, public, internal, sensitive, level_value, Classification, tighten,
}
use rda_data_director.Contracts.Events
use rda_data_director.Contracts.Events.{Event, EventKind}

pub record JobState : Type 0 where
  pub job_id : String
  pub step : String
  pub classification : Option Classification
  pub material : List Json
  pub confirmed_sets : List (String × Fields)
  pub pending : List (String × Fields)
  pub halted_reason : Json
  pub terminal : Option String
  pub config_digest : Json
  pub deposit_pid : Json
  pub has_statement : Bool
  pub seen_kinds : List EventKind

abbrev pub new_state : String → JobState
new_state job = record {
  job_id = job;
  step = "created";
  classification = none;
  material = [];
  confirmed_sets = [];
  pending = [];
  halted_reason = null;
  terminal = none;
  config_digest = null;
  deposit_pid = null;
  has_statement = false;
  seen_kinds = [];
}

-- `_STEP_FOR.get(kind)`. Every kind that the fold does not treat by itself has an entry.
abbrev pub step_for : EventKind → Option String
step_for EventKind.workflow_created = some "created"
step_for EventKind.material_registered = some "awaiting-declaration"
step_for EventKind.declaration_parsed = some "awaiting-declaration-confirmation"
step_for EventKind.declaration_confirmed = some "classification"
step_for EventKind.classification_completed = some "dmp"
step_for EventKind.classification_contradicted = some "awaiting-declaration-confirmation"
step_for EventKind.redaction_proposed = some "awaiting-redaction-decision"
step_for EventKind.redaction_decided = some "dmp"
step_for EventKind.dmp_commitments_read = some "repository-selection"
step_for EventKind.dmp_discrepancy_flagged = some "awaiting-discrepancy-review"
step_for EventKind.repository_selected = some "metadata"
step_for EventKind.metadata_generated = some "validation"
step_for EventKind.validation_completed = some "awaiting-approval"
step_for EventKind.metadata_approved = some "deposit"
step_for EventKind.deposit_completed = some "complete"
step_for _ = none

-- `{**d, key: value}` and `d.pop(key, None)`
abbrev pub insert : String → Fields → List (String × Fields) → List (String × Fields)
insert k v [] = (k, v) ∷ []
insert k v ((j, w) ∷ d) = if str_eq j k then (k, v) ∷ d else (j, w) ∷ insert k v d

abbrev pub without : String → List (String × Fields) → List (String × Fields)
without k [] = []
without k ((j, w) ∷ d) = let rest = without k d in if str_eq j k then rest else (j, w) ∷ rest

-- `SensitivityClass(level)`: a truth value counts as the number that Python takes it for.
abbrev pub sensitivity_of : Json → Result SensitivityClass
sensitivity_of (nat zero) = ok public
sensitivity_of (nat (suc zero)) = ok internal
sensitivity_of (nat (suc (suc zero))) = ok sensitive
sensitivity_of (bool false) = ok public
sensitivity_of (bool true) = ok internal
sensitivity_of _ = err value_error

-- `payload.get("rationale", "classification scan")`, as `Classification` takes it.
abbrev pub rationale_of : Option Json → Result (Option String)
rationale_of none = ok (some "classification scan")
rationale_of (some null) = ok none
rationale_of (some (text s)) = ok (some s)
rationale_of (some _) = err value_error

-- `list(payload.get("artefacts", []))`
abbrev pub artefacts_of : Option Json → Result (List Json)
artefacts_of none = ok []
artefacts_of (some v) = python_list v

-- `DECLARATION_CONFIRMED`: the person's level replaces whatever stood there.
abbrev pub confirm : JobState → Event → Json → Result JobState
confirm state ev null = ok state
confirm state ev level = do
  l ← sensitivity_of level
  ok (record state {
    classification = some (record {
      level = l;
      established_by = ev.human;
      established_by_agent = none;
      rationale = some "confirmed declaration";
    });
  })

-- The guarded call of `tighten` under `CLASSIFICATION_COMPLETED`.
abbrev pub tighten_by_scan : JobState → Event → Classification → SensitivityClass → Result JobState
tighten_by_scan state ev current l =
    if ltb (level_value current.level) (level_value l)
    then (do
      r ← rationale_of (find "rationale" ev.payload)
      c ← tighten current l ev.agent r
      ok (record state { classification = some c }))
    else ok state

abbrev pub scan_level : JobState → Event → Option Classification → Json → Result JobState
scan_level state ev none level = ok state
scan_level state ev (some current) null = ok state
scan_level state ev (some current) level = do
  l ← sensitivity_of level
  tighten_by_scan state ev current l

-- The branches of `_apply` but for the step and the halt.
updated : JobState → Event → EventKind → Result JobState
updated state ev EventKind.workflow_created =
    ok (record state { config_digest = get "config_digest" ev.payload })
updated state ev EventKind.instructions_received = ok (
    if is_text "responsibility-and-compliance-statement" (get "channel" ev.payload)
    then record state { has_statement = true }
    else state)
updated state ev EventKind.material_registered = do
  artefacts ← artefacts_of (find "artefacts" ev.payload)
  ok (record state { material = state.material ++ artefacts })
updated state ev EventKind.declaration_confirmed = do
  confirmed ← confirm state ev (get "sensitivity" ev.payload)
  ok (record confirmed { confirmed_sets = insert "declaration" ev.payload state.confirmed_sets })
updated state ev EventKind.classification_completed =
    scan_level state ev state.classification (get "sensitivity" ev.payload)
updated state ev EventKind.redaction_proposed =
    ok (record state { pending = insert "redaction" ev.payload state.pending })
updated state ev EventKind.redaction_decided =
    ok (record state { pending = without "redaction" state.pending })
updated state ev EventKind.deposit_completed =
    ok (record state { deposit_pid = get "pid" ev.payload })
updated state ev EventKind.workflow_halted =
    ok (record state { halted_reason = get "reason" ev.payload })
updated state ev EventKind.workflow_closed_not_shared =
    ok (record state { terminal = some "closed-not-shared" })
updated state ev _ = ok state

abbrev pub is_halt : EventKind → Bool
is_halt EventKind.workflow_halted = true
is_halt _ = false

abbrev pub step_or : String → Option String → String
step_or current none = current
step_or current (some step) = step

-- The end of `_apply`: a step that is not halted moves on, and any event but a halt clears a halt.
abbrev pub moved : JobState → EventKind → JobState → JobState
moved before k after = record after {
  step = if is_null before.halted_reason then step_or before.step (step_for k) else before.step;
  halted_reason =
      if not (is_halt k) && not (is_null before.halted_reason) then null else after.halted_reason;
}

abbrev pub is_compensation : EventKind → Bool
is_compensation EventKind.compensated = true
is_compensation _ = false

-- `_apply`
unfoldable pub apply : JobState → Event → Result JobState
unfolding updated
apply state ev =
    if is_compensation ev.kind
    then ok state
    else do after ← updated state ev ev.kind; ok (moved state ev.kind after)

-- `CompensationPayload.model_validate(payload)`, for the sequence to restore. A number is read
-- only where the payload holds one, as `compensate` writes it.
abbrev pub positive : Json → Result ℕ
positive (nat (suc n)) = ok (suc n)
positive _ = err value_error

unfoldable pub restores_state_at : Fields → Result ℕ
restores_state_at payload = do
  _ ← positive (get "compensates_sequence" payload)
  n ← positive (get "restores_state_at_sequence" payload)
  _ ← a_text (get "reason" payload)
  ok n

-- One round of the loop of `fold`. `restore n` is the recursive call on `events[:n]`.
unfoldable pub fold_step : (ℕ → Result JobState) → JobState → Event → Result JobState
fold_step restore state ev =
    if is_compensation ev.kind
    then (do n ← restores_state_at ev.payload; restore n)
    else apply state ev

unfoldable pub fold_loop : (ℕ → Result JobState) → JobState → List Event → Result JobState
fold_loop restore state [] = ok state
fold_loop restore state (ev ∷ rest) = do
  next ← fold_step restore state ev
  fold_loop restore next rest

abbrev pub with_seen : List Event → JobState → JobState
with_seen events state = record state { seen_kinds = map (λ ev. ev.kind) events }

-- `fold` on fuel: a log whose compensation names a sequence behind itself never stops recurring.
unfoldable pub fold_fuel : ℕ → List Event → Result JobState
fold_fuel zero events = err recursion_error
fold_fuel (suc fuel) [] = err value_error
fold_fuel (suc fuel) (ev ∷ events) = do
  state ← fold_loop (λ n. fold_fuel fuel (take n (ev ∷ events))) (new_state ev.job_id) (ev ∷ events)
  ok (with_seen (ev ∷ events) state)

unfoldable pub fold : List Event → Result JobState
unfolding fold_fuel fold_loop fold_step apply restores_state_at
fold events = fold_fuel (suc (length events)) events

-- `fold_to`
unfoldable pub fold_to : List Event → ℕ → Result JobState
fold_to events sequence = fold (keep_if (λ ev. leb ev.sequence sequence) events)
