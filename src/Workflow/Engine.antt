-- ===== src/Workflow/Engine.antt =====
-- workflow/engine.py: running steps, halting, and rolling back by appending. What a step does is its
-- `run`, which may depend on the attempt, and its events; the file of decision records, which
-- nothing here reads, is left out. Delays are whole seconds; `words` is the
-- text of an exception and `number` the decimal text of a number.
pub mod Compensate
use rda_data_director.Prelude.{
  take_chars, ℕ, zero, suc, ◌-◌, ◌*◌, ◌^◌, String, Bool, true, false, not, ◌&&◌, ◌||◌, List, [],
  ◌∷◌, Option, none, some, Result, ok, err, ◌>>=◌, Error, value_error, external_service_error, min,
  max, ltb, leb, length, contains, if◌then◌else◌,
}
use Prim.Native.String.{◌++◌ as ◌<>◌}
use rda_data_director.Contracts.Primitives.{Orcid, Digest}
use rda_data_director.Contracts.Payload.{Json, null, nat, text, truthy, Fields, end, field}
use rda_data_director.Contracts.Events.{Event, EventKind}
use rda_data_director.State.Store.{Store, load, append}
use rda_data_director.State.Projection.{JobState, fold, fold_to}

pub record Step : Type 0 where
  pub name : String
  pub runnable : JobState → Bool
  pub run : ℕ → JobState → Result (List Event)

pub record WorkflowEngine : Type 0 where
  pub steps : List Step
  pub agent_id : String
  pub max_attempts : ℕ
  pub base_delay_seconds : ℕ

-- `WorkflowEngine(...)`: `max(1, max_attempts)`
abbrev pub construct_engine : List Step → String → ℕ → ℕ → WorkflowEngine
construct_engine steps agent_id max_attempts delay = record {
  steps = steps;
  agent_id = agent_id;
  max_attempts = max 1 max_attempts;
  base_delay_seconds = delay;
}

abbrev pub backoff : WorkflowEngine → ℕ → ℕ
backoff self attempt = min (self.base_delay_seconds * 2 ^ (attempt - 1)) 30

abbrev pub first_runnable : JobState → List Step → Option Step
first_runnable state [] = none
first_runnable state (step ∷ steps) =
    if step.runnable state then some step else first_runnable state steps

abbrev concluded : Option String → Bool
concluded none = false
concluded (some String.[]) = false
concluded (some (String.◌∷◌ c s)) = true

-- `state.halted_reason or state.terminal`
abbrev pub is_over : JobState → Bool
is_over state = concluded state.terminal || truthy state.halted_reason

unfoldable pub next_step : WorkflowEngine → JobState → Option Step
next_step self state = if is_over state then none else first_runnable state self.steps

-- An event of the engine, as it is handed to `append`.
abbrev pub engine_event : WorkflowEngine → String → EventKind → ℕ → Option Orcid → Fields → Event
engine_event self job kind now human payload = record {
  sequence = 1;
  job_id = job;
  kind = kind;
  occurred_at = now;
  agent = self.agent_id;
  human = human;
  payload = payload;
  prev_digest = none;
}

abbrev pub retry_payload : WorkflowEngine → String → ℕ → String → Fields
retry_payload self name attempt words = field "step" (text name) (
    field "attempt" (nat attempt) (
      field "error" (text (take_chars 300 words))
        (field "retrying_in_seconds" (nat (backoff self attempt)) end)))

abbrev pub completion_payload : String → String → Fields
completion_payload job name =
    field "step" (text name) (field "idempotency_key" (text ("step:" <> job <> ":" <> name)) end)

abbrev pub compensation_payload : ℕ → ℕ → String → Fields
compensation_payload compensates restores reason =
    field "compensates_sequence" (nat compensates)
      (field "restores_state_at_sequence" (nat restores) (field "reason" (text reason) end))

-- What happened so far, or the exception, with the store; then the rest.
abbrev pub then_do {ℓ κ} :
    {A : Type ℓ} {B : Type κ} → Result A × Store → (Store → Result B × Store) → Result B × Store
then_do (err e, store) next = (err e, store)
then_do (ok a, store) next = next store

module _ (digest_of : Event → Digest) (words : Error → String) (number : ℕ → String) where
  unfoldable pub state_of : Store → String → Result JobState
  unfolding load fold
  state_of store job = do events ← load digest_of job store; fold events

  unfoldable pub state_at : Store → String → ℕ → Result JobState
  unfolding load fold_to
  state_at store job n = do events ← load digest_of job store; fold_to events n

  -- The state, after what was appended.
  abbrev pub then_state : String → Result Event × Store → Result JobState × Store
  then_state job answer = then_do answer (λ s. (state_of s job, s))

  -- `_halt`
  unfoldable pub halt : WorkflowEngine → Store → String → String → Result JobState × Store
  unfolding append state_of
  halt self store job reason = then_state job (
      append digest_of
        (engine_event self job EventKind.workflow_halted store.clock none
          (field "reason" (text reason) end))
        store)

  abbrev append_all : List Event → Store → Result (Unit {0}) × Store
  append_all [] store = (ok tt, store)
  append_all (ev ∷ evs) store = then_do (append digest_of ev store) (append_all evs)

  -- `_append_run`
  unfoldable pub append_run :
      WorkflowEngine → Store → String → Step → List Event → Result JobState × Store
  append_run self store job step events = then_do (append_all events store) (λ s. then_state job (
      append digest_of
        (engine_event self job EventKind.step_completed s.clock none
          (completion_payload job step.name))
        s))

  abbrev run_or_raise :
      WorkflowEngine → Store → String → Step → Result (List Event) → Result JobState × Store
  run_or_raise self store job step (err e) = (err e, store)
  run_or_raise self store job step (ok events) = append_run self store job step events

  unfoldable pub run_step : WorkflowEngine → Store → String → Step → Result JobState × Store
  unfolding append_run
  run_step self store job step =
      run_or_raise self store job step (do state ← state_of store job; step.run 1 state)

  -- One attempt of `advance`: `retry` is the rest of the loop, if attempts are left.
  abbrev after_run :
      WorkflowEngine
      → Step
      → String
      → ℕ
      → Store
      → Option (Store → Result JobState × Store)
      → Result (List Event)
      → Result JobState × Store
  after_run self step job attempt store retry (ok events) = append_run self store job step events
  after_run self step job attempt store (some retry) (err external_service_error) =
      then_do
        (append digest_of
          (engine_event self job EventKind.step_failed store.clock none
            (retry_payload self step.name attempt (words external_service_error)))
          store)
        retry
  after_run self step job attempt store none (err external_service_error) = halt self store job (
      step.name
      <> ": "
      <> words external_service_error
      <> " (after "
      <> number attempt
      <> " attempts)")
  after_run self step job attempt store retry (err e) =
      halt self store job (step.name <> " failed unexpectedly: " <> words e)

  -- The loop of `advance` from an attempt, with the number of attempts after it.
  unfoldable pub attempts_from :
      WorkflowEngine → Step → JobState → String → ℕ → ℕ → Store → Result JobState × Store
  unfolding append_run halt
  attempts_from self step state job attempt zero store =
      after_run self step job attempt store none (step.run attempt state)
  attempts_from self step state job attempt (suc left) store =
      after_run self step job attempt store
        (some (λ s. attempts_from self step state job (suc attempt) left s))
        (step.run attempt state)

  abbrev advance_with :
      WorkflowEngine → Store → String → JobState → Option Step → Result JobState × Store
  advance_with self store job state none = (ok state, store)
  advance_with self store job state (some step) =
      attempts_from self step state job 1 (self.max_attempts - 1) store

  abbrev advance_from : WorkflowEngine → Store → String → Result JobState → Result JobState × Store
  advance_from self store job (err e) = (err e, store)
  advance_from self store job (ok state) = advance_with self store job state (next_step self state)

  unfoldable pub advance : WorkflowEngine → Store → String → Result JobState × Store
  unfolding state_of next_step attempts_from
  advance self store job = advance_from self store job (state_of store job)

  abbrev then_over :
      Result JobState × Store
      → (JobState → Store → Result JobState × Store)
      → Result JobState × Store
  then_over (err e, store) next = (err e, store)
  then_over (ok state, store) next = if is_over state then (ok state, store) else next state store

  abbrev ran_before : List String → Option Step → Bool
  ran_before ran none = true
  ran_before ran (some step) = contains ran step.name

  abbrev name_of : Option Step → String
  name_of none = ""
  name_of (some step) = step.name

  -- The loop of `run_until_blocked`; its rounds are the program's own limit `max_steps`.
  unfoldable pub run_rounds :
      WorkflowEngine → String → ℕ → List String → JobState → Store → Result JobState × Store
  unfolding advance next_step
  run_rounds self job zero ran state store = (ok state, store)
  run_rounds self job (suc rounds) ran state store =
      if ran_before ran (next_step self state)
      then (ok state, store)
      else then_over (advance self store job)
          (λ s t. run_rounds self job rounds (name_of (next_step self state) ∷ ran) s t)

  abbrev rounds_from :
      WorkflowEngine → Store → String → ℕ → Result JobState → Result JobState × Store
  rounds_from self store job max_steps (err e) = (err e, store)
  rounds_from self store job max_steps (ok state) = run_rounds self job max_steps [] state store

  unfoldable pub run_until_blocked : WorkflowEngine → Store → String → ℕ → Result JobState × Store
  unfolding run_rounds state_of
  run_until_blocked self store job max_steps =
      rounds_from self store job max_steps (state_of store job)

  abbrev pub compensate_log :
      WorkflowEngine
      → Store
      → String
      → ℕ
      → String
      → Orcid
      → Result (List Event)
      → Result JobState × Store
  compensate_log self store job n reason human (err e) = (err e, store)
  compensate_log self store job n reason human (ok events) =
      if leb 1 n && leb n (length events)
      then then_state job (
          append digest_of
            (engine_event self job EventKind.compensated store.clock (some human)
              (compensation_payload (length events) n reason))
            store)
      else (err value_error, store)

  unfoldable pub compensate :
      WorkflowEngine → Store → String → ℕ → String → Orcid → Result JobState × Store
  compensate self store job n reason human =
      compensate_log self store job n reason human (load digest_of job store)
