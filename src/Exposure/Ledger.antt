-- ===== src/Exposure/Ledger.antt =====
-- exposure/ledger.py: one append-only file for each job, with a line for each exposure. A line is the
-- exposure that it holds: writing one as JSON and parsing it again is the work of pydantic, and
-- parsing runs the check of `Exposure(...)` again. Bytes are numbers.
pub mod Budget
use rda_data_director.Prelude.{
  ℕ, ◌+◌, String, Bool, true, false, ◌&&◌, List, [], ◌∷◌, ◌++◌, Option, none, some, Result, ok, err,
  ◌>>=◌, ◌>>◌, Error, permission_error, budget_exceeded, ltb, str_eq, length, if◌then◌else◌,
}
use rda_data_director.Contracts.Primitives.{Orcid, Digest, Residency, on_premise}
use rda_data_director.Contracts.Sensitivity.{SensitivityClass}
use rda_data_director.Contracts.Exposure.{
  ReleaseKind, structural_profile, aggregate, full_document, media_content, Exposure,
  construct_exposure, ExposureBudget,
}
use rda_data_director.Contracts.Events.{is_none}

-- `kind in WHOLE_ARTEFACT`
abbrev pub is_whole_artefact : ReleaseKind → Bool
is_whole_artefact full_document = true
is_whole_artefact media_content = true
is_whole_artefact _ = false

-- `residency is not Residency.ON_PREMISE`
abbrev pub leaves_premises : Residency → Bool
leaves_premises on_premise = false
leaves_premises _ = true

abbrev pub requires_human_authority : ReleaseKind → Residency → Bool
requires_human_authority kind residency = is_whole_artefact kind && leaves_premises residency

-- `kind in NO_PAYLOAD`
abbrev pub is_no_payload : ReleaseKind → Bool
is_no_payload structural_profile = true
is_no_payload aggregate = true
is_no_payload _ = false

pub record ExposureLedger : Type 0 where
  pub files : String → List Exposure
  pub budget : ExposureBudget

-- `[Exposure.model_validate_json(line) for line in ...]`
abbrev pub read_lines : List Exposure → Result (List Exposure)
read_lines [] = ok []
read_lines (line ∷ lines) = do e ← construct_exposure line; es ← read_lines lines; ok (e ∷ es)

abbrev pub load : ExposureLedger → String → Result (List Exposure)
load self job = read_lines (self.files job)

-- What an exposure counts in the budget of bytes.
abbrev pub charge : Exposure → ℕ
charge e = if is_no_payload e.kind then 0 else e.byte_count

abbrev pub charged : List Exposure → ℕ
charged [] = 0
charged (e ∷ es) = charge e + charged es

-- `spent`
abbrev pub spent : ExposureLedger → String → Result (ℕ × ℕ)
spent self job = do es ← load self job; ok (charged es, length es)

-- `spent_per_artefact(job_id).get(artefact_uri, 0)`
abbrev pub charged_to : String → List Exposure → ℕ
charged_to uri [] = 0
charged_to uri (e ∷ es) =
    let rest = charged_to uri es in if str_eq e.artefact_uri uri then charge e + rest else rest

abbrev pub spent_on_artefact : ExposureLedger → String → String → Result ℕ
spent_on_artefact self job uri = do es ← load self job; ok (charged_to uri es)

-- The reasons of `would_exceed`, without their words.
pub data Breach : Type 0 where
  release_limit job_limit artefact_limit : Breach

abbrev pub breach : ExposureBudget → ℕ × ℕ → ℕ → ℕ → Option Breach
breach budget (bytes, releases) per_artefact byte_count =
    if ltb budget.max_releases_per_job (releases + 1)
    then some release_limit
    else if ltb budget.max_bytes_per_job (bytes + byte_count)
    then some job_limit
    else if ltb budget.max_bytes_per_artefact (per_artefact + byte_count)
    then some artefact_limit
    else none

unfoldable pub would_exceed :
    ExposureLedger → String → String → ReleaseKind → ℕ → Result (Option Breach)
would_exceed self job uri kind byte_count = do
  so_far ← spent self job
  per_artefact ← spent_on_artefact self job uri
  ok (breach self.budget so_far per_artefact (if is_no_payload kind then 0 else byte_count))

-- `_append`
abbrev pub append : ExposureLedger → String → Exposure → ExposureLedger
append self job e = record self {
  files = λ j. if str_eq j job then self.files j ++ e ∷ [] else self.files j;
}

-- The arguments of `record`; `now` is the time that `Exposure` takes for its own.
pub record Release : Type 0 where
  pub job_id : String
  pub artefact_uri : String
  pub kind : ReleaseKind
  pub content : List ℕ
  pub classification : SensitivityClass
  pub backend : String
  pub residency : Residency
  pub detail : Option String
  pub authorised_by : Option Orcid
  pub now : ℕ

-- `0 if kind in NO_PAYLOAD else len(content)`
abbrev pub byte_count : Release → ℕ
byte_count r = if is_no_payload r.kind then 0 else length r.content

abbrev pub raise_breach : Option Breach → Result (Unit {0})
raise_breach none = ok tt
raise_breach (some b) = err budget_exceeded

abbrev pub raise_unauthorised : Release → Result (Unit {0})
raise_unauthorised r =
    if requires_human_authority r.kind r.residency && is_none r.authorised_by
    then err permission_error
    else ok tt

module _ (digest_of_bytes : List ℕ → Digest) where
  abbrev pub exposure_of : Release → Exposure
  exposure_of r = record {
    job_id = r.job_id;
    artefact_uri = r.artefact_uri;
    kind = r.kind;
    byte_count = byte_count r;
    content_digest = digest_of_bytes r.content;
    classification = r.classification;
    backend = r.backend;
    residency = r.residency;
    detail = r.detail;
    authorised_by = r.authorised_by;
    occurred_at = r.now;
  }

  -- The checks of `record`, which end with the exposure to append.
  unfoldable pub admit : Release → ExposureLedger → Result Exposure
  unfolding would_exceed construct_exposure
  admit r self = do
    raise_unauthorised r
    reason ← would_exceed self r.job_id r.artefact_uri r.kind (byte_count r)
    raise_breach reason
    construct_exposure (exposure_of r)

  abbrev pub write : ExposureLedger → String → Result Exposure → Result Exposure × ExposureLedger
  write self job (err e) = (err e, self)
  write self job (ok e) = (ok e, append self job e)

  -- `record`
  unfoldable pub record_release : Release → ExposureLedger → Result Exposure × ExposureLedger
  unfolding admit
  record_release r self = write self r.job_id (admit r self)

  -- Releases one after another, whatever each answers.
  unfoldable pub record_all : List Release → ExposureLedger → ExposureLedger
  unfolding record_release
  record_all [] self = self
  record_all (r ∷ rs) self = record_all rs (record_release r self).1
