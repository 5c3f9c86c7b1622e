-- ===== src/Workflow/Engine/Compensate.antt =====
-- What `compensate` leaves behind.
use rda_data_director.Prelude.{
  ℕ, zero, suc, ◌≤◌, ◌≡◌, refl, sym, ◌∙◌, String, true, false, ◌&&◌, List, [], ◌∷◌, ◌++◌, some,
  Result, ok, err, Error, ◌>>=◌, value_error, leb, length, take, arith,
}
use rda_data_director.Contracts.Primitives.{Orcid, Digest, is_job_id}
use rda_data_director.Contracts.Events.{Event, EventKind, construct}
use rda_data_director.State.Store.{Store, append, placed}
use rda_data_director.State.Store.Tail.{Holds}
use rda_data_director.State.Store.Append.{append-Holds}
use rda_data_director.State.Projection.{JobState, fold, with_seen, restores_state_at}
use rda_data_director.State.Projection.Fuel.{IsCompensable, LooksBackFrom-append}
use rda_data_director.State.Projection.Rollback.{rollback}
use rda_data_director.Workflow.Engine.{
  WorkflowEngine, engine_event, compensation_payload, is_over, next_step, advance, run_rounds,
  run_until_blocked, state_of, then_state, compensate,
}

module _ (digest_of : Event → Digest) (words : Error → String) (number : ℕ → String)
    (self : WorkflowEngine) (job : String) (named : is_job_id job ≡ true) where
  abbrev pub undoing : Store → List Event → ℕ → String → Orcid → Event
  undoing s log n reason human =
      engine_event self job EventKind.compensated s.clock (some human)
        (compensation_payload (length log) n reason)

  undoing-restores :
      (s : Store) (log : List Event) (n : ℕ) (reason : String) (human : Orcid)
      → 1 ≤ n
      → n ≤ length log
      → restores_state_at (compensation_payload (length log) n reason) ≡ ok n
  unfolding restores_state_at
  undoing-restores s [] n reason human low high = absurd (omega arith)
  undoing-restores s (x ∷ log) zero reason human low high = absurd (omega arith)
  undoing-restores s (x ∷ log) (suc n) reason human low high = refl

  undoing-constructs :
      (s : Store) (log : List Event) (n : ℕ) (reason : String) (human : Orcid)
      → construct (undoing s log n reason human) ≡ ok (undoing s log n reason human)
  unfolding construct
  undoing-constructs s log n reason human = rw named refl

  then_state-answer :
      {e : Event} (a : Result Event × Store) (log : List Event)
      → a.0 ≡ ok e
      → Holds digest_of job a.1 log
      → then_state digest_of words number job a ≡ (fold log, a.1)
  unfolding state_of
  then_state-answer (err e, t) log h holds = cc
  then_state-answer (ok e, t) log h holds = rw holds.loads refl

  undoing-IsCompensable :
      (s : Store) (log : List Event) (n : ℕ) (reason : String) (human : Orcid)
      → 1 ≤ n
      → n ≤ length log
      → IsCompensable log
      → IsCompensable (log ++ placed digest_of log (undoing s log n reason human) ∷ [])
  undoing-IsCompensable s log n reason human low high back =
      LooksBackFrom-append 0 log (placed digest_of log (undoing s log n reason human) ∷ []) back (
        λ m comp restores.
            let same : m ≡ n =
              ok_same (sym restores ∙ undoing-restores s log n reason human low high) in
            omega arith,
        tt,
      )
    where
      ok_same : {a b : ℕ} → ok a ≡ ok b → a ≡ b
      ok_same e = cc

  in_range : (n k : ℕ) → 1 ≤ n → n ≤ k → (leb 1 n && leb n k) ≡ true
  in_range n k low high = ground arith

  out_of_range : (n k : ℕ) → (1 ≤ n → n ≤ k → ⊥) → (leb 1 n && leb n k) ≡ false
  out_of_range n k out = ground (arith, out)

  -- Rolling back through the engine: for a sequence of the log, the log gets one event more, which
  -- names the person, and loses none; the answer is the state folded from the first `n` events,
  -- but for the kinds seen; for any other sequence it raises ValueError and writes nothing.
  pub compensate_restores :
      (s : Store) (first : Event) (rest : List Event) (n : ℕ) (reason : String) (human : Orcid)
      (state : JobState)
      → Holds digest_of job s (first ∷ rest)
      → IsCompensable (first ∷ rest)
      → fold (first ∷ rest) ≡ ok state
      → let log : List Event = first ∷ rest in
        let ev : Event = placed digest_of log (undoing s log n reason human) in
        (1 ≤ n
          → n ≤ length log
          → ((compensate digest_of words number self s job n reason human).0
              ≡ (fold (take n log) >>= λ before. ok (with_seen (log ++ ev ∷ []) before)))
            × Holds digest_of job
                (compensate digest_of words number self s job n reason human).1
                (log ++ ev ∷ []))
        × ((1 ≤ n → n ≤ length log → ⊥)
            → compensate digest_of words number self s job n reason human ≡ (err value_error, s))
  unfolding compensate
  compensate_restores s first rest n reason human state holds back read =
      let log : List Event = first ∷ rest in
      let (answer, after, _) =
        append-Holds digest_of (undoing s log n reason human) s log
          (undoing-constructs s log n reason human) holds in
      rw holds.loads (
        λ low high. rw (in_range n (length log) low high) (
            rw
              (then_state-answer (append digest_of (undoing s log n reason human) s)
                (log ++ placed digest_of log (undoing s log n reason human) ∷ []) answer after)
              (
                rollback first rest (placed digest_of log (undoing s log n reason human)) n state
                    (undoing-IsCompensable s log n reason human low high back) refl
                    (undoing-restores s log n reason human low high) read,
                after,
              )),
        λ out. rw (out_of_range n (length log) out) refl,
      )

-- A job that is halted or has concluded runs nothing: `advance` and `run_until_blocked`, whatever the
-- steps and the number of rounds, answer its state and write nothing.
pub over_runs_nothing :
    (digest_of : Event → Digest) (words : Error → String) (number : ℕ → String)
    (self : WorkflowEngine) (s : Store) (job : String) (state : JobState) (max_steps : ℕ)
    → state_of digest_of words number s job ≡ ok state
    → is_over state ≡ true
    → (advance digest_of words number self s job ≡ (ok state, s))
      × (run_until_blocked digest_of words number self s job max_steps ≡ (ok state, s))
unfolding advance run_until_blocked next_step run_rounds
over_runs_nothing digest_of words number self s job state zero folded over =
    (rw folded (rw over refl), rw folded refl)
over_runs_nothing digest_of words number self s job state (suc max_steps) folded over =
    (rw folded (rw over refl), rw folded (rw over refl))
