-- ===== src/Contracts/Intents.antt =====
-- events.py, the payloads of attempts: what is about to be attempted, how it ended, and what was found
-- when it was investigated.
use rda_data_director.Prelude.{
  String, Option, none, some, Result, ok, err, ◌>>=◌, value_error, str_eq, ◌≡◌, ◌∙◌, ap, refl,
  bind_inversion, arith, if◌then◌else◌,
}
use rda_data_director.Contracts.Primitives.{Orcid}
use rda_data_director.Contracts.Payload.{Json, null, text, object, Fields, end, field, get, find}

pub data EffectKind : Type 0 where
  repository_create repository_upload repository_publish model_call external_fetch : EffectKind

abbrev pub effect_text : EffectKind → String
effect_text repository_create = "repository.create"
effect_text repository_upload = "repository.upload"
effect_text repository_publish = "repository.publish"
effect_text model_call = "model.call"
effect_text external_fetch = "external.fetch"

pub record StepIntent : Type 0 where
  pub step : String
  pub effect : EffectKind
  pub target : String
  pub idempotency_key : String
  pub detail : Fields

pub record StepOutcome : Type 0 where
  pub step : String
  pub idempotency_key : String
  pub result : Fields

pub record Reconciliation : Type 0 where
  pub step : String
  pub idempotency_key : String
  pub finding : String
  pub detail : String
  pub resolved_by : Option Orcid

-- `model_dump(mode="json")`
abbrev pub dump_intent : StepIntent → Fields
dump_intent i = field "step" (text i.step) (
    field "effect" (text (effect_text i.effect)) (
      field "target" (text i.target)
        (field "idempotency_key" (text i.idempotency_key) (field "detail" (object i.detail) end))))

abbrev pub dump_outcome : StepOutcome → Fields
dump_outcome o =
    field "step" (text o.step)
      (field "idempotency_key" (text o.idempotency_key) (field "result" (object o.result) end))

abbrev orcid_or_null : Option Orcid → Json
orcid_or_null none = null
orcid_or_null (some o) = object (field "value" (text o.value) end)

abbrev pub dump_reconciliation : Reconciliation → Fields
dump_reconciliation r = field "step" (text r.step) (
    field "idempotency_key" (text r.idempotency_key) (
      field "finding" (text r.finding)
        (field "detail" (text r.detail) (field "resolved_by" (orcid_or_null r.resolved_by) end))))

abbrev required_text : Option Json → Result String
required_text (some (text s)) = ok s
required_text _ = err value_error

abbrev effect_named : String → Result EffectKind
effect_named s =
    if str_eq s "repository.create"
    then ok repository_create
    else if str_eq s "repository.upload"
    then ok repository_upload
    else if str_eq s "repository.publish"
    then ok repository_publish
    else if str_eq s "model.call"
    then ok model_call
    else if str_eq s "external.fetch"
    then ok external_fetch
    else err value_error

abbrev detail_of : Option Json → Result Fields
detail_of none = ok end
detail_of (some (object fs)) = ok fs
detail_of _ = err value_error

-- `StepIntent.model_validate(payload)`
unfoldable pub validate_intent : Fields → Result StepIntent
validate_intent payload = do
  step ← required_text (find "step" payload)
  effect_value ← required_text (find "effect" payload)
  effect ← effect_named effect_value
  target ← required_text (find "target" payload)
  key ← required_text (find "idempotency_key" payload)
  detail ← detail_of (find "detail" payload)
  ok (record {
    step = step;
    effect = effect;
    target = target;
    idempotency_key = key;
    detail = detail;
  })

effect_named-text : (e : EffectKind) → effect_named (effect_text e) ≡ ok e
effect_named-text repository_create = refl
effect_named-text repository_upload = refl
effect_named-text repository_publish = refl
effect_named-text model_call = refl
effect_named-text external_fetch = refl

-- An intent that is written to the log is read back as it was.
pub validate_intent-dump : (i : StepIntent) → validate_intent (dump_intent i) ≡ ok i
unfolding validate_intent
validate_intent-dump i = rw (effect_named-text i.effect) refl

get-find : (k s : String) (fs : Fields) → find k fs ≡ some (text s) → get k fs ≡ text s
get-find k s end h = cc
get-find k s (field j v fs) h = ground (arith, get-find k s fs)

-- The key of an intent is the one that its payload shows.
pub validate_intent-key :
    (payload : Fields) (i : StepIntent)
    → validate_intent payload ≡ ok i
    → get "idempotency_key" payload ≡ text i.idempotency_key
unfolding validate_intent
validate_intent-key payload i h =
    let (step, _, h1) = bind_inversion (required_text (find "step" payload)) _ h in
    let (value, _, h2) = bind_inversion (required_text (find "effect" payload)) _ h1 in
    let (effect, _, h3) = bind_inversion (effect_named value) _ h2 in
    let (target, _, h4) = bind_inversion (required_text (find "target" payload)) _ h3 in
    let (key, k, h5) = bind_inversion (required_text (find "idempotency_key" payload)) _ h4 in
    let (detail, _, h6) = bind_inversion (detail_of (find "detail" payload)) _ h5 in
    let same : key ≡ i.idempotency_key = cc in
    get-find "idempotency_key" i.idempotency_key payload
      (by_value (find "idempotency_key" payload) k ∙ ap (λ s. some (text s)) same)
  where
    by_value : {key : String} (o : Option Json) → required_text o ≡ ok key → o ≡ some (text key)
    by_value none h = cc
    by_value (some v) h = ground arith
