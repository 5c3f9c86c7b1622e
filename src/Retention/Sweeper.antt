-- ===== src/Retention/Sweeper.antt =====
-- retention/sweeper.py: candidates from the event log, and the check that the material survives. A
-- directory of the working root is its name, which stands for its path, its files with their
-- sizes, and its mark.
pub mod Marks
pub mod Safe
use Prim.Native.String.{◌++◌ as ◌<>◌}
use rda_data_director.Prelude.{
  ℕ, ◌+◌, ◌-◌, ◌*◌, ◌/◌, String, Bool, true, false, not, List, [], ◌∷◌, Option, none, some, Result,
  ok, err, ◌>>=◌, Error, value_error, authority_error, ltb, leb, str_eq, contains, get_last?,
  keep_if, length, map, ◌&&◌, if◌then◌else◌,
}
use rda_data_director.Contracts.Primitives.{Orcid, Digest}
use rda_data_director.Contracts.Payload.{null_or, Json, null, text, truthy, Fields, end, field}
use rda_data_director.Contracts.Intents.{EffectKind, repository_publish, StepIntent}
use rda_data_director.Contracts.Events.{Event, is_none}
use rda_data_director.Contracts.Retention.{
  RetentionCategory, released, closed_not_shared, idle, unattributed, active, SurvivalCheck,
  RetentionCandidate, RetentionMark,
}
use rda_data_director.State.Store.{Store, text_leb, load, list_jobs}
use rda_data_director.State.Projection.{JobState, fold}
use rda_data_director.Workflow.Effects.{Prober, idempotency_key}

pub record Directory : Type 0 where
  pub name : String
  pub files : List (String × ℕ)
  pub mark : Option RetentionMark

-- `grace` has the days of each category; `hash` is SHA-256, cut to 32 digits, and `words` the text
-- of an exception.
pub record RetentionSweeper : Type 0 where
  pub root : List Directory
  pub grace : RetentionCategory → ℕ
  pub idle_after_days : ℕ
  pub probers : EffectKind → Option Prober

abbrev pub default_grace : RetentionCategory → ℕ
default_grace released = 30
default_grace _ = 180

-- `_measure`
abbrev measured : List (String × ℕ) → List (String × ℕ)
measured files = keep_if (λ f. not (str_eq f.0 ".retention-mark.json")) files

abbrev total_size : List (String × ℕ) → ℕ
total_size [] = 0
total_size (f ∷ fs) = f.1 + total_size fs

abbrev is_closed : Option String → Bool
is_closed none = false
is_closed (some s) = str_eq s "closed-not-shared"

-- `idle_days >= self.idle_after_days`, with days of 86,400 seconds rounded down.
abbrev pub is_idle : ℕ → ℕ → Option ℕ → Bool
is_idle now days none = leb days 0
is_idle now days (some last) = if ltb now last then false else leb days ((now - last) / 86400)

abbrev pub category_of : JobState → Bool → RetentionCategory
category_of state no_activity =
    if truthy state.deposit_pid
    then released
    else if is_closed state.terminal
    then closed_not_shared
    else if no_activity
    then idle
    else active

abbrev pub last_time : Option Event → Option ℕ
last_time none = none
last_time (some ev) = some ev.occurred_at

-- A field of type `str | None`.
abbrev pub pid_of : Json → Result (Option String)
pid_of null = ok none
pid_of (text s) = ok (some s)
pid_of _ = err value_error

abbrev pub unattributed_candidate : Directory → RetentionCandidate
unattributed_candidate d = record {
  job_id = none;
  path = d.name;
  category = unattributed;
  byte_size = total_size (measured d.files);
  file_count = length (measured d.files);
  last_event_at = none;
  pid = none;
  reason = "no job in the event log corresponds to this directory, so what it holds is unknown";
  survival = none;
}

-- The words of `reason` are the parameter `explain`.
abbrev pub job_candidate :
    (RetentionCategory → JobState → String)
    → Directory
    → RetentionCategory
    → JobState
    → Option ℕ
    → Option String
    → RetentionCandidate
job_candidate explain d category state last pid = record {
  job_id = some d.name;
  path = d.name;
  category = category;
  byte_size = total_size (measured d.files);
  file_count = length (measured d.files);
  last_event_at = last;
  pid = pid;
  reason = explain category state;
  survival = none;
}

abbrev insert_dir : Directory → List Directory → List Directory
insert_dir d [] = d ∷ []
insert_dir d (e ∷ es) = if text_leb d.name e.name then d ∷ e ∷ es else e ∷ insert_dir d es

abbrev pub sort_dirs : List Directory → List Directory
sort_dirs [] = []
sort_dirs (d ∷ ds) = insert_dir d (sort_dirs ds)

abbrev pub not_checked : String → SurvivalCheck
not_checked detail = record { checked = false; survives = none; detail = detail }

abbrev or_else : Option String → String → String
or_else none s = s
or_else (some String.[]) s = s
or_else (some (String.◌∷◌ c t)) s = String.◌∷◌ c t

abbrev pub survival_intent : (String → String) → RetentionCandidate → StepIntent
survival_intent hash c = record {
  step = "survival-check";
  effect = repository_publish;
  target = or_else c.pid "repository";
  idempotency_key = idempotency_key hash (or_else c.job_id "") "survival" (or_else c.pid "") "";
  detail = field "job_id" (null_or c.job_id) (field "pid" (null_or c.pid) end);
}

abbrev pub found_survival : String → String → SurvivalCheck
found_survival finding detail =
    if str_eq finding "took-effect"
    then record { checked = true; survives = some true; detail = detail }
    else if str_eq finding "did-not-take-effect"
    then record {
      checked = true;
      survives = some false;
      detail =
          detail
          <> ". Our log records a deposit; the repository does not. Do not delete: this may now be "
          <> "the only copy";
    }
    else record { checked = true; survives = none; detail = detail }

abbrev pub answered : (Error → String) → Result (String × String) → SurvivalCheck
answered words (ok (finding, detail)) = found_survival finding detail
answered words (err e) = record {
  checked = true;
  survives = none;
  detail = "the repository could not be asked: " <> words e;
}

abbrev pub is_released : RetentionCategory → Bool
is_released released = true
is_released _ = false

abbrev pub asked_repository :
    (Error → String) → (String → String) → RetentionCandidate → Option Prober → SurvivalCheck
asked_repository words hash c none = not_checked (
    "no way to ask the repository whether the record still exists; deletion stays a human "
    <> "decision")
asked_repository words hash c (some prober) = answered words (prober (survival_intent hash c))

unfoldable pub check_survival :
    (Error → String) → (String → String) → RetentionSweeper → RetentionCandidate → SurvivalCheck
check_survival words hash self c =
    if is_released c.category
    then asked_repository words hash c (self.probers repository_publish)
    else not_checked "survival is only checked for published material"

module _ (digest_of : Event → Digest) (explain : RetentionCategory → JobState → String) where
  -- One round of the loop of `candidates`.
  unfoldable pub candidate_of : RetentionSweeper → Store → ℕ → Directory → Result RetentionCandidate
  unfolding load fold
  candidate_of self store now d =
      if contains (list_jobs store) d.name
      then (do
        events ← load digest_of d.name store
        state ← fold events
        let last : Option ℕ = last_time (get_last? events)
        pid ← pid_of state.deposit_pid
        ok (
            job_candidate explain d (category_of state (is_idle now self.idle_after_days last))
              state last pid))
      else ok (unattributed_candidate d)

  abbrev pub candidates_in :
      RetentionSweeper → Store → ℕ → List Directory → Result (List RetentionCandidate)
  candidates_in self store now [] = ok []
  candidates_in self store now (d ∷ ds) = do
    c ← candidate_of self store now d
    cs ← candidates_in self store now ds
    ok (c ∷ cs)

  unfoldable pub candidates : RetentionSweeper → Store → ℕ → Result (List RetentionCandidate)
  unfolding candidate_of
  candidates self store now = candidates_in self store now (sort_dirs self.root)

  abbrev pub with_survival :
      (Error → String)
      → (String → String)
      → RetentionSweeper
      → List RetentionCandidate
      → List RetentionCandidate
  with_survival words hash self cs =
      map {A = RetentionCandidate}
        (λ c. record c { survival = some (check_survival words hash self c) }) cs

  unfoldable pub assess :
      (Error → String)
      → (String → String)
      → RetentionSweeper
      → Store
      → ℕ
      → Result (List RetentionCandidate)
  unfolding candidates check_survival
  assess words hash self store now = do
    cs ← candidates self store now
    ok (with_survival words hash self cs)
