-- ===== src/Contracts/Exposure.antt =====
-- exposure.py: one release of payload to a model, and the limits on releases.
use rda_data_director.Prelude.{
  codes, ℕ, String, Bool, false, Option, none, some, Result, ok, err, value_error, ltb, length,
  if◌then◌else◌,
}
use rda_data_director.Contracts.Primitives.{Orcid, Digest, Residency}
use rda_data_director.Contracts.Sensitivity.{SensitivityClass}

pub data ReleaseKind : Type 0 where
  structural_profile field_sample aggregate content_chunk full_document media_content : ReleaseKind

pub record Exposure : Type 0 where
  pub job_id : String
  pub artefact_uri : String
  pub kind : ReleaseKind
  pub byte_count : ℕ
  pub content_digest : Digest
  pub classification : SensitivityClass
  pub backend : String
  pub residency : Residency
  pub detail : Option String
  pub authorised_by : Option Orcid
  pub occurred_at : ℕ

-- `self.detail is not None and len(self.detail) > 256`
abbrev pub too_long : Option String → Bool
too_long none = false
too_long (some s) = ltb 256 (length (codes s))

-- The check of `Exposure(...)`.
unfoldable pub construct_exposure : Exposure → Result Exposure
construct_exposure e = if too_long e.detail then err value_error else ok e

pub record ExposureBudget : Type 0 where
  pub max_bytes_per_job : ℕ
  pub max_bytes_per_artefact : ℕ
  pub max_releases_per_job : ℕ
  pub max_sample_values : ℕ

abbrev pub default_budget : ExposureBudget
default_budget = record {
  max_bytes_per_job = 2097152;
  max_bytes_per_artefact = 262144;
  max_releases_per_job = 200;
  max_sample_values = 20;
}
