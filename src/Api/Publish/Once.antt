-- ===== src/Api/Publish/Once.antt =====
-- A deposit that was made is in the log, and is not made again.
use rda_data_director.Prelude.{
  ◌≡◌, refl, sym, ap, ◌∙◌, subst, String, true, false, ◌&&◌, List, [], ◌∷◌, ◌++◌, Option, none,
  some, Result, ok, err, Error, bind_ok,
}
use rda_data_director.Paths.{PurePath}
use rda_data_director.Contracts.Primitives.{Orcid, Digest, is_job_id}
use rda_data_director.Contracts.Payload.{Json, text, Fields, get, field, end, null_or}
use rda_data_director.Contracts.Events.{Event, EventKind, is_human_act, is_none}
use rda_data_director.State.Store.{Store, append, placed}
use rda_data_director.State.Store.Tail.{Holds}
use rda_data_director.State.Projection.{JobState, is_compensation, moved, apply, fold}
use rda_data_director.State.Projection.Extend.{Folded, seen_after, Folded-snoc}
use rda_data_director.Workflow.Effects.{
  then_return, step_event, attempt, completed_payload as outcome,
}
use rda_data_director.Contracts.Intents.{StepIntent, dump_intent}
use rda_data_director.Workflow.Effects.Attempt.{then_return-Holds, attempt_brackets}
use rda_data_director.Agents.Publication.{
  DepositReceipt, completion, receipt_after, driver_body, agent_identity, deposit_payload,
}
use rda_data_director.Api.Publish.Cleared.{then_return-ok}
use rda_data_director.Api.Service.{state_in}
use rda_data_director.Api.Publish.{
  next_append, append_each, answered, recorded, completed_payload, DepositAnswer, deposited,
}

module _ (digest_of : Event → Digest) (job : String) (named : is_job_id job ≡ true) where
  -- A job whose log loads and folds.
  pub record Running (s : Store) : Type 0 where
    pub log : List Event
    pub now : JobState
    pub holds : Holds digest_of job s log
    pub folded : Folded job log now

  abbrev pub event_of : Store → EventKind → String → Option Orcid → Fields → Event
  event_of s kind agent human payload = step_event job kind agent s.clock human payload

  -- One more event that neither compensates nor stops the fold, with what it makes of the state.
  next-Running :
      (s : Store) (run : Running s) (kind : EventKind) (agent : String) (human : Option Orcid)
      (payload : Fields) (next : JobState) {A : Type 0} (r : Result A)
      → (is_human_act kind && is_none human) ≡ false
      → is_compensation kind ≡ false
      → apply run.now (placed digest_of run.log (event_of s kind agent human payload)) ≡ ok next
      → next.job_id ≡ job
      → let after = then_return (append digest_of (event_of s kind agent human payload) s) r in
        (after.0 ≡ r)
        × ((again : Running after.1) × (again.now
              ≡ seen_after run.log
                  (placed digest_of run.log (event_of s kind agent human payload))
                  next))
  next-Running s run kind agent human payload next r act plain applied still =
      let (answer, after) =
        then_return-Holds digest_of job named kind agent human payload s run.log r act run.holds in
      (
        answer,
        (
          record {
            log = run.log ++ placed digest_of run.log (event_of s kind agent human payload) ∷ [];
            now =
                seen_after run.log (placed digest_of run.log (event_of s kind agent human payload))
                  next;
            holds = after;
            folded =
                Folded-snoc job run.log
                  (placed digest_of run.log (event_of s kind agent human payload)) run.now next
                  run.folded plain applied still;
          },
          refl,
        ),
      )

  -- The store holds a deposit under the identifier.
  pub record Holding (s : Store) (pid : Json) : Type 0 where
    pub state : JobState
    pub reads : state_in digest_of s job ≡ ok state
    pub has_pid : state.deposit_pid ≡ pid

  deposit-Holding :
      (s : Store) (run : Running s) (agent : String) (human : Orcid) (payload : Fields) {A : Type 0}
      (r : Result A)
      → Holding
          (then_return
            (append digest_of (event_of s EventKind.deposit_completed agent (some human) payload) s)
            r).1
          (get "pid" payload)
  unfolding apply state_in
  deposit-Holding s run agent human payload r =
      let event =
        placed digest_of run.log
          (event_of s EventKind.deposit_completed agent (some human) payload) in
      let next =
        moved run.now EventKind.deposit_completed
          (record (run.now) { deposit_pid = get "pid" payload }) in
      let (answer, (again, same)) =
        next-Running s run EventKind.deposit_completed agent (some human) payload next r refl refl
          refl run.folded.named in
      record {
        state = again.now;
        reads = bind_ok _ fold again.holds.loads ∙ again.folded.folds;
        has_pid = ap (λ (st : JobState). st.deposit_pid) same;
      }

  module _ (r : DepositReceipt) where
    -- An answer that a deposit was made leaves a store that holds it.
    abbrev pub Done : Result DepositAnswer × Store → Type 0
    Done x = x.0 ≡ ok (deposited r) → Holding x.1 (text r.pid)

    returned-Done :
        (s : Store) (run : Running s) (agent : String) (human : Orcid) (payload : Fields)
        (q : DepositReceipt)
        → get "pid" payload ≡ text q.pid
        → Done (
            then_return
              (append digest_of
                (event_of s EventKind.deposit_completed agent (some human) payload)
                s)
              (ok (deposited q)))
    returned-Done s run agent human payload q pid h =
        let same : q ≡ r = cc (then_return-ok _ (ok (deposited q)) (deposited r) h) in
        let after =
          then_return
            (append digest_of (event_of s EventKind.deposit_completed agent (some human) payload) s)
            (ok (deposited q)) in
        subst (λ v. Holding after.1 v) (pid ∙ ap (λ (x : DepositReceipt). text x.pid) same)
          (deposit-Holding s run agent human payload (ok (deposited q)))

    pub recorded-Done :
        (s : Store) (run : Running s) (agent : String) (human : Orcid) (repository : String)
        (excluded : List String) (receipt : Result DepositReceipt)
        → Done (recorded digest_of agent job human repository excluded s receipt)
    recorded-Done s run agent human repository excluded (err e) h = cc
    recorded-Done s run agent human repository excluded (ok q) h =
        returned-Done s run agent human (completed_payload q repository excluded) q refl h

    one_append :
        {A : Type 0} (answer : Result A) (a : Result Event × Store)
        → next_append (append_each digest_of [] answer) a ≡ then_return a answer
    one_append answer (err e, s) = refl
    one_append answer (ok ev, s) = refl

    pub completion-Done :
        (human : Orcid) (files : List PurePath) (excluded : List String)
        (c : Result DepositReceipt × Store)
        → ((q : DepositReceipt) → c.0 ≡ ok q → Running c.1)
        → Done (answered digest_of (completion job human files excluded c))
    completion-Done human files excluded (err e, s) runs h = cc
    completion-Done human files excluded (ok q, s) runs h =
        subst Done
          (sym (
            one_append (ok (deposited q)) (
              append digest_of
                (event_of s EventKind.deposit_completed agent_identity (some human)
                  (deposit_payload q files excluded))
                s)))
          (returned-Done s (runs q refl) agent_identity human (deposit_payload q files excluded) q
            refl)
          h

  pub receipt_after-store :
      (receipt : Result DepositReceipt) (a : Result Fields × Store)
      → (receipt_after receipt a).1 ≡ a.1
  receipt_after-store receipt (err e, s) = refl
  receipt_after-store receipt (ok fields, s) = refl

  module _ (hash : String → String) (words : Error → String) where
    -- The attempt that a driver's receipt ends well leaves a job that still loads and folds.
    pub attempt-Running :
        (s : Store) (run : Running s) (intent : StepIntent) (q : DepositReceipt)
        → Running (attempt digest_of words s job "effects/0.1.0" intent (driver_body (ok q))).1
    unfolding apply
    attempt-Running s run intent q =
        let agent : String = "effects/0.1.0" in
        let started = event_of s EventKind.step_started agent none (dump_intent intent) in
        let log' = run.log ++ placed digest_of run.log started ∷ [] in
        let s' = (append digest_of started s).1 in
        let fields = field "pid" (text q.pid) (field "concept_pid" (null_or q.concept_pid) end) in
        let completed = event_of s' EventKind.step_completed agent none (outcome intent fields) in
        let (begun, ends, _) =
          attempt_brackets digest_of job named words s agent intent (driver_body (ok q)) run.log
            run.holds in
        let (answer, after) = ends fields s' log' refl begun in
        let now' = moved run.now EventKind.step_started run.now in
        let seen = seen_after run.log (placed digest_of run.log started) now' in
        let now'' = moved seen EventKind.step_completed seen in
        record {
          log = log' ++ placed digest_of log' completed ∷ [];
          now = seen_after log' (placed digest_of log' completed) now'';
          holds = after;
          folded =
              Folded-snoc job log' (placed digest_of log' completed) seen now''
                (Folded-snoc job run.log (placed digest_of run.log started) run.now now' run.folded
                  refl refl run.folded.named)
                refl refl run.folded.named;
        }
