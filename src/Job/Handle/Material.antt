-- ===== src/Job/Handle/Material.antt =====
-- What an agent is shown of the material.
use rda_data_director.Prelude.{
  ◌≤◌, ◌<◌, ◌≡◌, ◌⊎◌, inl, inr, true, not, List, [], ok, raise_if, bind_inversion, arith, subst,
  ltb, Bool-cases, job_blocked, raise_if-passes,
}
use rda_data_director.Contracts.Primitives.{Digest}
use rda_data_director.Contracts.Payload.{Json}
use rda_data_director.Contracts.Sensitivity.{level_value}
use rda_data_director.Contracts.Events.{Event}
use rda_data_director.State.Store.{load}
use rda_data_director.State.Projection.{JobState, fold}
use rda_data_director.Job.Log.{job_status, is_confirmed}
use rda_data_director.Job.Log.Status.{blocked-is_confirmed}
use rda_data_director.Job.Handle.{JobHandle, level_of, visible, events, state, status, material}

-- What an answer of `material` rests on.
pub record Entitled (digest_of : Event → Digest) (handle : JobHandle) (names : List Json)
    : Type 0 where
  pub log : List Event
  pub now : JobState
  pub read : load digest_of handle.job_id handle.store ≡ ok log
  pub stated : handle.inspects ≡ true
  pub confirmed : is_confirmed log ≡ true
  pub folded : fold log ≡ ok now
  pub shown :
      ((names ≡ now.material)
        × (level_value (level_of now.classification) ≤ level_value handle.ceiling))
      ⊎ ((names ≡ []) × (level_value handle.ceiling < level_value (level_of now.classification)))

module _ (digest_of : Event → Digest) (handle : JobHandle) where
  shown-visible :
      (now : JobState)
      → ((visible handle.ceiling now ≡ now.material)
          × (level_value (level_of now.classification) ≤ level_value handle.ceiling))
        ⊎ ((visible handle.ceiling now ≡ [])
            × (level_value handle.ceiling < level_value (level_of now.classification)))
  shown-visible now =
      let above = ltb (level_value handle.ceiling) (level_value (level_of now.classification)) in
      elim (Bool-cases above) [
        | inl e ↦ inr (ground arith, ground arith)
        | inr e ↦ inl (ground arith, ground arith)
      ]

  -- An agent is answered about material only if its capabilities say that it inspects it and the
  -- log has a confirmation of the declaration. The answer is then the material of the
  -- folded state if the classification, the most restrictive one where there is none, lies within
  -- the agent's ceiling, and is empty if it lies above.
  pub material-Entitled :
      (names : List Json) → material digest_of handle ≡ ok names → Entitled digest_of handle names
  unfolding material status state events
  material-Entitled names h =
      let (u, stated, h1) = bind_inversion (raise_if (not handle.inspects) job_blocked) _ h in
      let (held, known, h2) = bind_inversion (status digest_of handle) _ h1 in
      let (v, free, h3) = bind_inversion (raise_if held.blocked job_blocked) _ h2 in
      let (now, current, answer) = bind_inversion (state digest_of handle) _ h3 in
      let (log, read, judged) = bind_inversion (events digest_of handle) job_status known in
      let (log', read', folded) = bind_inversion (events digest_of handle) fold current in
      let passed = raise_if-passes held.blocked job_blocked v free in
      record {
        log = log;
        now = now;
        read = read;
        stated = ground (arith, raise_if-passes (not handle.inspects) job_blocked u);
        confirmed = ground (arith, blocked-is_confirmed log held judged);
        folded = cc;
        shown =
            subst
              (λ l.
                ((l ≡ now.material)
                  × (level_value (level_of now.classification) ≤ level_value handle.ceiling))
                ⊎ ((l ≡ [])
                    × (level_value handle.ceiling < level_value (level_of now.classification))))
              (cc) (shown-visible now);
      }
