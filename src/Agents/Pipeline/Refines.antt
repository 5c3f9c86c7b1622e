-- ===== src/Agents/Pipeline/Refines.antt =====
-- An answer to a draft through the orchestrator, against the decision of the gate.
use rda_data_director.Prelude.{
  ℕ, ◌≡◌, refl, sym, ap, ◌∙◌, subst, String, true, List, Option, some, Result, ok, err, Error,
  bind_ok, ◌>>=◌,
}
use rda_data_director.Contracts.Primitives.{Orcid, Digest, is_job_id}
use rda_data_director.Contracts.Events.{Event, EventKind, construct}
use rda_data_director.Contracts.Gate.{GateState, ItemDecision, Resolution, review_agent_id}
use rda_data_director.Contracts.Gate.Open.{decided}
use rda_data_director.State.Store.{Store, load}
use rda_data_director.State.Store.Tail.{Holds}
use rda_data_director.Gate.Items.{resolve}
use rda_data_director.Gate.Items.Resolve.{resolve_exact, resolve-IsAdmissible}
use rda_data_director.Gate.Review.{is_review_id, review_gate, review_decision, decision_event}
use rda_data_director.Gate.Review.Hold.{review_gate-entry}
use rda_data_director.Workflow.Effects.Attempt.{then_return-Holds}
use rda_data_director.Agents.Pipeline.{
  author, write_decision, resolved_review, answer_review, resolve_review,
}

decision_event-ok :
    (job item_id : String) (decision : ItemDecision) (human : Orcid) (reason : Option String)
    (agent : String) (now : ℕ)
    → is_job_id job ≡ true
    → decision_event job item_id decision (some human) reason agent now
      ≡ ok (review_decision job item_id decision (some human) reason agent now)
unfolding decision_event construct
decision_event-ok job item_id decision human reason agent now named = rw named refl

module _ (digest_of : Event → Digest) (job : String) (named : is_job_id job ≡ true) (store : Store)
    (log : List Event) (holds : Holds digest_of job store log) {gate : GateState}
    (built : review_gate log ≡ ok gate) (item_id : String) (decision : ItemDecision) (human : Orcid)
    (reason : Option String) (is_id : is_review_id item_id ≡ true) where
  abbrev gate_in : Store → Result GateState
  gate_in s = load digest_of job s >>= λ events. review_gate events

  abbrev answer : Resolution
  answer = record {
    item_id = item_id;
    decision = decision;
    decided_by = human;
    reason = reason;
    decided_at = store.clock;
  }

  abbrev Commutes : Result Resolution × GateState → Result Resolution × Store → Type 0
  Commutes decided' after =
      (after.0 ≡ decided'.0)
      × (gate_in after.1 ≡ ok decided'.1)
      × ((e : Error) → decided'.0 ≡ err e → after.1 ≡ store)

  written-Commutes :
      Commutes
        (ok answer, decided gate answer)
        (resolved_review digest_of store job human (ok answer, decided gate answer))
  written-Commutes =
      let agent = author (review_agent_id item_id) in
      let event = review_decision job item_id decision (some human) reason agent store.clock in
      let (answered, after) =
        then_return-Holds digest_of job named EventKind.redaction_decided agent (some human)
          event.payload store log (ok answer) refl holds in
      subst
        (λ r. Commutes (ok answer, decided gate answer) (write_decision digest_of store answer r))
        (sym (decision_event-ok job item_id decision human reason agent store.clock named))
        (
          answered,
          bind_ok (load digest_of job _) review_gate after.loads
              ∙ review_gate-entry digest_of log job item_id decision human reason agent store.clock
                  is_id built,
          λ e h. cc,
        )

  by_answer :
      (a : Result Resolution × GateState)
      → resolve gate item_id decision human reason store.clock ≡ a
      → Commutes a (resolved_review digest_of store job human a)
  by_answer (err e, g) h =
      let kept : g ≡ gate =
        ap (λ (p : Result Resolution × GateState). p.1) (sym h)
        ∙ (resolve_exact gate item_id decision human reason store.clock).1 e
            (ap (λ (p : Result Resolution × GateState). p.0) h) in
      (
        refl,
        bind_ok (load digest_of job store) review_gate holds.loads ∙ built ∙ ap ok (sym kept),
        λ e h. refl,
      )
  by_answer (ok r, g) h =
      let admissible =
        (resolve_exact gate item_id decision human reason store.clock).0 r
          (ap (λ (p : Result Resolution × GateState). p.0) h) in
      subst (λ p. Commutes p (resolved_review digest_of store job human p))
        (sym (resolve-IsAdmissible gate item_id decision human reason store.clock admissible) ∙ h)
        written-Commutes

  -- For a job that the store holds with a log that is read without an error, and an identifier of
  -- a draft, an answer through the orchestrator is the decision of `Gate.resolve` on the drafts
  -- that the log describes: it answers or raises as that does, the review gate read from the log
  -- afterwards is the gate that `Gate.resolve` leaves, and nothing is written if it raises.
  pub resolve_review-refines :
      let decided' = resolve gate item_id decision human reason store.clock in
      let after = resolve_review digest_of store job item_id decision human reason in
      (after.0 ≡ decided'.0)
      × ((load digest_of job after.1 >>= λ events. review_gate events) ≡ ok decided'.1)
      × ((e : Error) → decided'.0 ≡ err e → after.1 ≡ store)
  unfolding resolve_review
  resolve_review-refines =
      subst
        (λ g.
          Commutes (resolve gate item_id decision human reason store.clock)
            (answer_review digest_of store job item_id decision human reason g))
        (sym (bind_ok (load digest_of job store) review_gate holds.loads ∙ built))
        (by_answer (resolve gate item_id decision human reason store.clock) refl)
