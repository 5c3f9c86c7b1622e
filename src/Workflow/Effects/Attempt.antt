-- ===== src/Workflow/Effects/Attempt.antt =====
-- In which order `attempt`, `reconcile` and `settle` write to the log.
use rda_data_director.Prelude.{
  ℕ, ◌≡◌, ◌≢◌, refl, String, true, false, List, [], ◌∷◌, ◌++◌, Option, none, some, ◌&&◌, Result, ok,
  err, Error, value_error, str_eq, arith, eq_iff, Bool-cases, inl, inr, ◌⊎◌,
}
use rda_data_director.Contracts.Primitives.{Orcid, Digest, is_job_id}
use rda_data_director.Contracts.Payload.{Fields}
use rda_data_director.Contracts.Intents.{EffectKind, StepIntent, dump_intent, dump_reconciliation}
use rda_data_director.Contracts.Events.{Event, EventKind, is_human_act, is_none, construct}
use rda_data_director.State.Store.{Store, append, placed}
use rda_data_director.State.Store.Tail.{Holds}
use rda_data_director.State.Store.Append.{append-Holds}
use rda_data_director.Workflow.Effects.{
  took_effect, did_not, indeterminate, UnfinishedAttempt, step_event, failed_payload,
  completed_payload, then_return, Prober, answer_of, asked, found, finding_settles, ended,
  started_or_not, attempt, reconcile, settle,
}

construct-step_event :
    (job : String) (kind : EventKind) (agent : String) (n : ℕ) (human : Option Orcid)
    (payload : Fields)
    → is_job_id job ≡ true
    → (is_human_act kind && is_none human) ≡ false
    → construct (step_event job kind agent n human payload)
      ≡ ok (step_event job kind agent n human payload)
unfolding construct
construct-step_event job kind agent n human payload named act = rw named (rw act refl)

asked-answer :
    (words : Error → String) (i : StepIntent) (o : Option Prober)
    → (asked words i o).0 ≢ indeterminate
    → (prober : Prober) × (detail : String) × (o ≡ some prober)
      × (prober i ≡ ok ((asked words i o).0, detail))
asked-answer words i none h = absurd (h refl)
asked-answer words i (some prober) h = by_answer (prober i) refl h
  where
    by_answer :
        (r : Result (String × String))
        → prober i ≡ r
        → (answer_of words i r).0 ≢ indeterminate
        → (p : Prober) × (detail : String) × (some prober ≡ some p)
          × (p i ≡ ok ((answer_of words i r).0, detail))
    by_answer (err e) same h = absurd (h refl)
    by_answer (ok (finding, detail)) same h = (prober, detail, refl, same)

module _ (digest_of : Event → Digest) (job : String) (named : is_job_id job ≡ true) where
  -- The store after one more step event, and the log that it holds.
  pub then_return-Holds :
      {A : Type 0} (kind : EventKind) (agent : String) (human : Option Orcid) (payload : Fields)
      (s : Store) (log : List Event) (r : Result A)
      → (is_human_act kind && is_none human) ≡ false
      → Holds digest_of job s log
      → let event = step_event job kind agent s.clock human payload in
        ((then_return (append digest_of event s) r).0 ≡ r)
        × Holds digest_of job
            (then_return (append digest_of event s) r).1
            (log ++ placed digest_of log event ∷ [])
  then_return-Holds kind agent human payload s log r act holds =
      let event = step_event job kind agent s.clock human payload in
      let (answer, after, _) =
        append-Holds digest_of event s log
          (construct-step_event job kind agent s.clock human payload named act) holds in
      by_answer (append digest_of event s) answer after
    where
      by_answer :
          {e : Event} {l : List Event} (a : Result Event × Store)
          → a.0 ≡ ok e
          → Holds digest_of job a.1 l
          → ((then_return a r).0 ≡ r) × Holds digest_of job (then_return a r).1 l
      by_answer (ok e, t) h holds = (refl, holds)
      by_answer (err e, t) h holds = cc

  module _ (words : Error → String) (s : Store) (agent : String) (i : StepIntent)
      (body : Store → Result Fields × Store) where
    abbrev intent_event : Event
    intent_event = step_event job EventKind.step_started agent s.clock none (dump_intent i)

    -- The store on which the body starts.
    abbrev pub with_intent : Store
    with_intent = (append digest_of intent_event s).1

    attempt-ended :
        {e : Event} (a : Result Event × Store)
        → a.0 ≡ ok e
        → started_or_not digest_of words job agent i body a
          ≡ ended digest_of words job agent i (body a.1)
    attempt-ended (ok e, t) h = refl
    attempt-ended (err e, t) h = cc

    -- An effect is bracketed: the body starts on a log that ends with the intent; if it returns, the
    -- completion is the next event of the log that it leaves, and if it raises, the failure is, and
    -- the exception is raised again.
    pub attempt_brackets :
        (log : List Event)
        → Holds digest_of job s log
        → Holds digest_of job with_intent (log ++ placed digest_of log intent_event ∷ [])
          × ((result : Fields) (t : Store) (more : List Event)
              → body with_intent ≡ (ok result, t)
              → Holds digest_of job t more
              → ((attempt digest_of words s job agent i body).0 ≡ ok result)
                × Holds digest_of job (attempt digest_of words s job agent i body).1 (
                    more
                    ++ placed digest_of more (
                        step_event job EventKind.step_completed agent t.clock none
                          (completed_payload i result))
                      ∷ []))
          × ((e : Error) (t : Store) (more : List Event)
              → body with_intent ≡ (err e, t)
              → Holds digest_of job t more
              → ((attempt digest_of words s job agent i body).0 ≡ err e)
                × Holds digest_of job (attempt digest_of words s job agent i body).1 (
                    more
                    ++ placed digest_of more (
                        step_event job EventKind.step_failed agent t.clock none
                          (failed_payload i (words e)))
                      ∷ []))
    unfolding attempt
    attempt_brackets log holds =
        let (answer, after, _) =
          append-Holds digest_of intent_event s log
            (construct-step_event job EventKind.step_started agent s.clock none (dump_intent i)
              named refl)
            holds in
        let same = attempt-ended (append digest_of intent_event s) answer in
        (
          after,
          λ result t more ran held. rw same (
              rw ran (
                then_return-Holds EventKind.step_completed agent none (completed_payload i result) t
                  more (ok result) refl held)),
          λ e t more ran held. rw same (
              rw ran (
                then_return-Holds EventKind.step_failed agent none (failed_payload i (words e)) t
                  more (err e) refl held)),
        )

  module _ (words : Error → String) (s : Store) (a : UnfinishedAttempt) (agent : String)
      (log : List Event) (holds : Holds digest_of job s log) where
    -- Reconciling an attempt never guesses: if nobody can be asked, or the one who is asked raises or
    -- cannot tell, the finding is indeterminate and nothing is written; any other finding is
    -- the answer of the service, and is the next event of the log.
    pub reconcile_never_guesses :
        (probers : EffectKind → Option Prober)
        → let r = found a.intent (asked words a.intent (probers a.intent.effect)) none in
          ((reconcile digest_of words s job a probers agent).0 ≡ ok r)
          × (r.finding ≡ indeterminate → (reconcile digest_of words s job a probers agent).1 ≡ s)
          × (r.finding ≢ indeterminate
              → ((prober : Prober) × (detail : String) × (probers a.intent.effect ≡ some prober)
                  × (prober a.intent ≡ ok (r.finding, detail)))
                × Holds digest_of job (reconcile digest_of words s job a probers agent).1 (
                    log
                    ++ placed digest_of log (
                        step_event job EventKind.step_reconciled agent s.clock none
                          (dump_reconciliation r))
                      ∷ []))
    unfolding reconcile
    reconcile_never_guesses probers =
        let r = found a.intent (asked words a.intent (probers a.intent.effect)) none in
        let (answer, after) =
          then_return-Holds EventKind.step_reconciled agent none (dump_reconciliation r) s log
            (ok r) refl holds in
        (
          elim (Bool-cases (str_eq r.finding indeterminate)) [
            | inl open_still ↦ rw open_still refl
            | inr closed ↦ rw closed answer
          ],
          λ h. rw ((eq_iff r.finding indeterminate).1 h) refl,
          λ h. (
            asked-answer words a.intent (probers a.intent.effect) h,
            rw (differ r.finding h) after,
          ),
        )
      where
        differ : (f : String) → f ≢ indeterminate → str_eq f indeterminate ≡ false
        differ f h = ground (arith, eq_iff f indeterminate)

    -- A person settles an attempt only by saying whether it took effect: then the next event of the log
    -- is the reconciliation, which names that person; any other finding is refused, and
    -- nothing is written.
    pub settle_names_person :
        (finding detail : String) (human : Orcid)
        → let r = found a.intent (finding, detail) (some human) in
          ((finding ≡ took_effect) ⊎ (finding ≡ did_not)
            → ((settle digest_of s job a finding human detail agent).0 ≡ ok r)
              × Holds digest_of job (settle digest_of s job a finding human detail agent).1 (
                  log
                  ++ placed digest_of log (
                      step_event job EventKind.step_reconciled agent s.clock
                        (some human)
                        (dump_reconciliation r))
                    ∷ []))
          × (finding ≢ took_effect
              → finding ≢ did_not
              → settle digest_of s job a finding human detail agent ≡ (err value_error, s))
    unfolding settle
    settle_names_person finding detail human =
        let r = found a.intent (finding, detail) (some human) in
        let written =
          then_return-Holds EventKind.step_reconciled agent (some human) (dump_reconciliation r) s
            log (ok r) refl holds in
        (λ h. rw (settles h) written, λ h k. rw (settles_not h k) refl)
      where
        settles : (finding ≡ took_effect) ⊎ (finding ≡ did_not) → finding_settles finding ≡ true
        settles (inl h) = ground (arith, eq_iff finding took_effect)
        settles (inr h) = ground (arith, eq_iff finding did_not)

        settles_not : finding ≢ took_effect → finding ≢ did_not → finding_settles finding ≡ false
        settles_not h k = ground (arith, eq_iff finding took_effect, eq_iff finding did_not)
