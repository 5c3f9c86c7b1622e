-- ===== src/Contracts/Retention.antt =====
-- retention.py: which working material may be deleted.
use rda_data_director.Prelude.{ℕ, String, Bool, true, false, ◌&&◌, Option, none, some}
use rda_data_director.Contracts.Primitives.{Orcid}

pub data RetentionCategory : Type 0 where
  released closed_not_shared idle unattributed active : RetentionCategory

-- `category in AUTOMATIC`
abbrev pub is_automatic : RetentionCategory → Bool
is_automatic released = true
is_automatic _ = false

-- `survives` is `none` where the repository could not be asked.
pub record SurvivalCheck : Type 0 where
  pub checked : Bool
  pub survives : Option Bool
  pub detail : String

pub record RetentionCandidate : Type 0 where
  pub job_id : Option String
  pub path : String
  pub category : RetentionCategory
  pub byte_size : ℕ
  pub file_count : ℕ
  pub last_event_at : Option ℕ
  pub pid : Option String
  pub reason : String
  pub survival : Option SurvivalCheck

abbrev pub has_survived : Option SurvivalCheck → Bool
has_survived none = false
has_survived (some check) = elim check.survives [ none ↦ false | some b ↦ b ]

-- `deletable_automatically`
unfoldable pub deletable_automatically : RetentionCandidate → Bool
deletable_automatically c = is_automatic c.category && has_survived c.survival

pub record RetentionMark : Type 0 where
  pub job_id : Option String
  pub category : RetentionCategory
  pub reason : String
  pub marked_at : ℕ
  pub delete_after : ℕ
  pub pid : Option String
  pub marked_by : Option Orcid
