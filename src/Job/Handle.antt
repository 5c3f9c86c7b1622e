-- ===== src/Job/Handle.antt =====
-- job_handle.py, the class `JobHandle`: the views that an agent has of its job, narrowed by its
-- ceiling and by the gate. The views of the log are in `Job/Log`.
pub mod Material
use rda_data_director.Prelude.{
  ℕ, String, Bool, true, false, not, List, [], ◌∷◌, Option, none, some, Result, ok, err, ◌>>=◌,
  ◌>>◌, raise_if, job_blocked, ltb,
}
use rda_data_director.Contracts.Primitives.{Digest}
use rda_data_director.Contracts.Payload.{Json}
use rda_data_director.Contracts.Sensitivity.{
  SensitivityClass, sensitive, level_value, Classification,
}
use rda_data_director.Contracts.Events.{Event}
use rda_data_director.Contracts.Gate.{GateState}
use rda_data_director.State.Store.{Store, load}
use rda_data_director.State.Projection.{JobState, fold}
use rda_data_director.Job.Log.{JobStatus, job_status, build_gate}

-- The fields that the views of material use; the log stands for the store it is loaded from.
pub record JobHandle : Type 0 where
  pub job_id : String
  pub store : Store
  pub ceiling : SensitivityClass
  pub inspects : Bool

-- `state.classification.level`, or the most restrictive class
abbrev pub level_of : Option Classification → SensitivityClass
level_of none = sensitive
level_of (some c) = c.level

abbrev pub visible : SensitivityClass → JobState → List Json
visible ceiling state =
    elim (ltb (level_value ceiling) (level_value (level_of state.classification))) [
      | true ↦ []
      | false ↦ state.material
    ]

module _ (digest_of : Event → Digest) where
  unfoldable pub events : JobHandle → Result (List Event)
  events handle = load digest_of handle.job_id handle.store

  unfoldable pub state : JobHandle → Result JobState
  unfolding events
  state handle = do log ← events handle; fold log

  unfoldable pub status : JobHandle → Result JobStatus
  unfolding events
  status handle = do log ← events handle; job_status log

  unfoldable pub gate : JobHandle → Result GateState
  unfolding events
  gate handle = do log ← events handle; build_gate log

  unfoldable pub material : JobHandle → Result (List Json)
  unfolding status state
  material handle = do
    raise_if (not handle.inspects) job_blocked
    held ← status handle
    raise_if held.blocked job_blocked
    now ← state handle
    ok (visible handle.ceiling now)
