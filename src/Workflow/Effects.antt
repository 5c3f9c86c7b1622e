-- ===== src/Workflow/Effects.antt =====
-- workflow/effects.py: an intent in the log before an external effect and an outcome after it, and
-- what is done about intents without an outcome.
pub mod Unfinished
pub mod Attempt
use Prim.Native.String.{◌++◌ as ◌<>◌}
use rda_data_director.Prelude.{
  ℕ, String, Bool, true, false, not, List, [], ◌∷◌, ◌++◌, map, Option, none, some, Result, ok, err,
  ◌>>=◌, Error, value_error, other_exception, leb, str_eq, contains, keep_if, if◌then◌else◌,
}
use rda_data_director.Contracts.Primitives.{Orcid, Digest}
use rda_data_director.Contracts.Payload.{
  Json, null, text, array, object, Fields, end, field, get, truthy,
}
use rda_data_director.Contracts.Intents.{
  EffectKind, repository_upload, effect_text, StepIntent, StepOutcome, Reconciliation, dump_intent,
  dump_outcome, dump_reconciliation, validate_intent,
}
use rda_data_director.Contracts.Events.{Event, EventKind}
use rda_data_director.Contracts.Gate.{
  GateItemKind, uninspected_file, dmp_discrepancy, ItemDecision, consulted, not_applicable,
  exclude_from_deposit, GateItem,
}
use rda_data_director.State.Store.{Store, load, append}

abbrev pub took_effect : String
took_effect = "took-effect"

abbrev pub did_not : String
did_not = "did-not-take-effect"

abbrev pub indeterminate : String
indeterminate = "indeterminate"

-- `hexdigest()[:32]` of SHA-256 is the parameter `hash`.
abbrev pub idempotency_key : (String → String) → String → String → String → String → String
idempotency_key hash job step target discriminator =
    hash (job <> "|" <> step <> "|" <> target <> "|" <> discriminator)

pub record UnfinishedAttempt : Type 0 where
  pub sequence : ℕ
  pub intent : StepIntent

-- The dictionary `started`.
abbrev pub Started : Type 0
Started = List (String × UnfinishedAttempt)

abbrev pub put_started : String → UnfinishedAttempt → Started → Started
put_started key a [] = (key, a) ∷ []
put_started key a ((k, b) ∷ rest) =
    if str_eq k key then (k, a) ∷ rest else (k, b) ∷ put_started key a rest

abbrev pub Scan : Type 0
Scan = Started × List String

-- A key goes into a set if Python can hash it; a key that is no text is equal to no text.
abbrev pub conclude : Scan → Json → Result Scan
conclude (started, concluded) (text key) = ok (started, key ∷ concluded)
conclude scan (array vs) = err other_exception
conclude scan (object fs) = err other_exception
conclude scan _ = ok scan

abbrev pub start : Scan → ℕ → StepIntent → Scan
start (started, concluded) n intent = (
  put_started intent.idempotency_key (record { sequence = n; intent = intent }) started,
  concluded,
)

abbrev pub note : Scan → EventKind → ℕ → Fields → Result Scan
note scan EventKind.step_started n payload = do
  intent ← validate_intent payload
  ok (start scan n intent)
note scan EventKind.step_completed n payload = conclude scan (get "idempotency_key" payload)
note scan EventKind.step_failed n payload = conclude scan (get "idempotency_key" payload)
note scan EventKind.step_reconciled n payload = conclude scan (get "idempotency_key" payload)
note scan _ n payload = ok scan

-- One round of the loop of `unfinished`; an event without a key is passed over.
unfoldable pub note_event : Scan → Event → Result Scan
note_event scan ev =
    if truthy (get "idempotency_key" ev.payload)
    then note scan ev.kind ev.sequence ev.payload
    else ok scan

unfoldable pub scan_log : Scan → List Event → Result Scan
scan_log scan [] = ok scan
scan_log scan (ev ∷ events) = do next ← note_event scan ev; scan_log next events

-- `sorted(started.items(), key=lambda kv: kv[1][0])`, stable
abbrev pub insert_started : String × UnfinishedAttempt → Started → Started
insert_started (k, a) [] = (k, a) ∷ []
insert_started (k, a) ((l, b) ∷ rest) =
    if leb a.sequence b.sequence
    then (k, a) ∷ (l, b) ∷ rest
    else (l, b) ∷ insert_started (k, a) rest

abbrev pub sort_started : Started → Started
sort_started [] = []
sort_started (x ∷ rest) = insert_started x (sort_started rest)

abbrev pub left_open : Scan → List UnfinishedAttempt
left_open (started, concluded) =
    map (λ x. x.1) (keep_if (λ x. not (contains concluded x.0)) (sort_started started))

unfoldable pub unfinished_in : List Event → Result (List UnfinishedAttempt)
unfolding scan_log
unfinished_in events = do scan ← scan_log ([], []) events; ok (left_open scan)

-- An event of the given kind, as it is handed to `append`.
abbrev pub step_event : String → EventKind → String → ℕ → Option Orcid → Fields → Event
step_event job kind agent now human payload = record {
  sequence = 1;
  job_id = job;
  kind = kind;
  occurred_at = now;
  agent = agent;
  human = human;
  payload = payload;
  prev_digest = none;
}

abbrev pub failed_payload : StepIntent → String → Fields
failed_payload i words =
    field "step" (text i.step)
      (field "idempotency_key" (text i.idempotency_key) (field "error" (text words) end))

abbrev pub completed_payload : StepIntent → Fields → Fields
completed_payload i result =
    dump_outcome (record { step = i.step; idempotency_key = i.idempotency_key; result = result })

-- `store.append(...)`, then a value
abbrev pub then_return {ℓ} : {A : Type ℓ} → Result Event × Store → Result A → Result A × Store
then_return (err e, store) r = (err e, store)
then_return (ok ev, store) r = (r, store)

-- Asks an external service whether an attempt took effect.
abbrev pub Prober : Type 0
Prober = StepIntent → Result (String × String)

abbrev cannot_ask : StepIntent → String
cannot_ask i =
    "no way to ask " <> i.target
    <> " whether this took effect; nothing is inferred from the absence of an answer"

-- `words` is the text that the code makes of an exception.
abbrev pub answer_of : (Error → String) → StepIntent → Result (String × String) → String × String
answer_of words i (ok answer) = answer
answer_of words i (err e) = (indeterminate, i.target <> " could not be asked: " <> words e)

abbrev pub asked : (Error → String) → StepIntent → Option Prober → String × String
asked words i none = (indeterminate, cannot_ask i)
asked words i (some prober) = answer_of words i (prober i)

abbrev pub found : StepIntent → String × String → Option Orcid → Reconciliation
found i (finding, detail) human = record {
  step = i.step;
  idempotency_key = i.idempotency_key;
  finding = finding;
  detail = detail;
  resolved_by = human;
}

abbrev pub finding_settles : String → Bool
finding_settles finding = if str_eq finding took_effect then true else str_eq finding did_not

abbrev pub indeterminate_decisions : List ItemDecision
indeterminate_decisions = consulted ∷ not_applicable ∷ exclude_from_deposit ∷ []

abbrev is_upload : EffectKind → Bool
is_upload repository_upload = true
is_upload _ = false

abbrev text_of : Json → Option String
text_of (text s) = some s
text_of _ = none

-- An artefact that is neither a text nor null would raise in `GateItem(...)`; the program writes
-- texts only.
unfoldable pub gate_items_for : List UnfinishedAttempt → List GateItem
gate_items_for attempts =
    map
      (λ a.
        let i : StepIntent = a.intent in
        record {
          item_id = "unfinished:" <> i.idempotency_key;
          kind = if is_upload i.effect then uninspected_file else dmp_discrepancy;
          artefact = text_of (get "artefact" i.detail);
          summary =
              i.step <> " against " <> i.target
              <> " was interrupted and it is not known whether it took effect";
          detail =
              ("effect: " <> effect_text i.effect)
              ∷ ("idempotency key: " <> i.idempotency_key)
              ∷ ("Check the service directly before continuing. Retrying without checking risks a "
                  <> "duplicate; abandoning without checking risks believing something was published "
                  <> "when it was not.")
              ∷ [];
          proposal = none;
          permitted_decisions = indeterminate_decisions;
        })
      attempts

module _ (digest_of : Event → Digest) where
  unfoldable pub unfinished : Store → String → Result (List UnfinishedAttempt)
  unfolding unfinished_in load
  unfinished store job = do events ← load digest_of job store; unfinished_in events

  abbrev pub ended :
      (Error → String)
      → String
      → String
      → StepIntent
      → Result Fields × Store
      → Result Fields × Store
  ended words job agent i (ok result, store) =
      then_return
        (append digest_of
          (step_event job EventKind.step_completed agent store.clock none
            (completed_payload i result))
          store)
        (ok result)
  ended words job agent i (err e, store) =
      then_return
        (append digest_of
          (step_event job EventKind.step_failed agent store.clock none (failed_payload i (words e)))
          store)
        (err e)

  abbrev pub started_or_not :
      (Error → String)
      → String
      → String
      → StepIntent
      → (Store → Result Fields × Store)
      → Result Event × Store
      → Result Fields × Store
  started_or_not words job agent i body (err e, store) = (err e, store)
  started_or_not words job agent i body (ok ev, store) = ended words job agent i (body store)

  -- `attempt`: the intent, the body of the `with` block, then its outcome.
  unfoldable pub attempt :
      (Error → String)
      → Store
      → String
      → String
      → StepIntent
      → (Store → Result Fields × Store)
      → Result Fields × Store
  attempt words store job agent i body = started_or_not words job agent i body (
      append digest_of
        (step_event job EventKind.step_started agent store.clock none (dump_intent i)) store)

  abbrev pub record_finding :
      Store → String → String → Option Orcid → Reconciliation → Result Reconciliation × Store
  record_finding store job agent human r =
      then_return
        (append digest_of
          (step_event job EventKind.step_reconciled agent store.clock human (dump_reconciliation r))
          store)
        (ok r)

  unfoldable pub reconcile :
      (Error → String)
      → Store
      → String
      → UnfinishedAttempt
      → (EffectKind → Option Prober)
      → String
      → Result Reconciliation × Store
  reconcile words store job a probers agent =
      let r = found a.intent (asked words a.intent (probers a.intent.effect)) none in
      if str_eq r.finding indeterminate
      then (ok r, store)
      else record_finding store job agent none r

  unfoldable pub settle :
      Store
      → String
      → UnfinishedAttempt
      → String
      → Orcid
      → String
      → String
      → Result Reconciliation × Store
  settle store job a finding human detail agent =
      if finding_settles finding
      then record_finding store job agent (some human)
          (found a.intent (finding, detail) (some human))
      else (err value_error, store)
