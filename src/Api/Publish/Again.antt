-- ===== src/Api/Publish/Again.antt =====
-- Publishing again after a deposit was made: the stages of `deposit`, each of which leaves a store
-- that holds the deposit if it answers that one was made.
use rda_data_director.Prelude.{
  ◌≡◌, ◌≢◌, refl, sym, ap, ◌∙◌, subst, String, Bool, true, false, List, [], ◌∷◌, Option, none, some,
  Result, ok, err, Error, bind_ok, if◌then◌else◌,
}
use rda_data_director.Paths.{PurePath}
use rda_data_director.Contracts.Primitives.{Orcid, Digest, is_job_id}
use rda_data_director.Contracts.Payload.{Json, text, truthy, Fields}
use rda_data_director.Contracts.Events.{Event}
use rda_data_director.Contracts.Gate.{GateState, excluded_artefacts}
use rda_data_director.State.Store.{Store}
use rda_data_director.State.Projection.{JobState, fold}
use rda_data_director.Gate.Upload.{artefacts_to_upload}
use rda_data_director.Workflow.Effects.{UnfinishedAttempt, unfinished, attempt}
use rda_data_director.Agents.Publication.{
  DepositReceipt, Driver, PublicationAgent, closure, check_ready, call_driver, receipt_after,
  driver_body, intent_of, to_upload, upload_or_close, deposit_if_ready, deposit_if_settled, publish,
}
use rda_data_director.Agents.Publication.Ready.{receipt_after-ok}
use rda_data_director.Api.Findings.{ValidationFinding}
use rda_data_director.Api.Service.{state_in, validation_findings}
use rda_data_director.Api.Publish.{
  JobService, already_published, deposited, closed_without_deposit, Prepared, was_published, ready,
  unpacked_dir, answered, with_findings, by_driver, send, carried_out, prepared, deposit,
}
use rda_data_director.Api.Publish.Cleared.{append_each-ok, prepared-ok}
use rda_data_director.Api.Publish.Once.{
  Running, Holding, Done, recorded-Done, completion-Done, receipt_after-store, attempt-Running,
}

closed-ne : (r : DepositReceipt) → ok closed_without_deposit ≢ ok (deposited r)
closed-ne r e = cc

-- Where a deposit is held, the service answers it and writes nothing.
again-Holding :
    {R : Type 0} (digest_of : Event → Digest) (hash : String → String) (words : Error → String)
    (is_file : PurePath → Bool) (validate : Json → Result R) (job : String)
    (named : is_job_id job ≡ true) (s : Store) (pid : Json)
    → Holding digest_of job named s pid
    → truthy pid ≡ true
    → (self : JobService R) (human : Orcid) (repository : String) (given : Option R)
      (files : Option (List PurePath))
    → deposit digest_of hash words is_file validate self s job human repository given files
      ≡ (ok (already_published pid), s)
unfolding deposit prepared
again-Holding {R = R} digest_of hash words is_file validate job named s pid held real self human
      repository given files =
    ap (carried_out digest_of hash words is_file validate self s job human repository) (
      bind_ok (state_in digest_of s job) _ held.reads ∙ known held.state.deposit_pid held.has_pid _)
  where
    known :
        (v : Json)
        → v ≡ pid
        → (m : Result (Prepared R))
        → (if truthy v then ok (was_published v) else m) ≡ ok (was_published pid)
    known v same m = rw same (rw real refl)

module _ {R : Type 0} (digest_of : Event → Digest) (hash : String → String) (words : Error → String)
    (job : String) (named : is_job_id job ≡ true) (store : Store)
    (run : Running digest_of job named store) (human : Orcid) (r : DepositReceipt) where
  module _ (self : PublicationAgent R) (drafted : R) (artefacts : List PurePath)
      (gate : GateState) where
    abbrev attempted : List PurePath → Result DepositReceipt → Result Fields × Store
    attempted files receipt =
        attempt digest_of words store job "effects/0.1.0" (intent_of hash self job files)
          (driver_body receipt)

    driver-Running :
        (files : List PurePath) (q : DepositReceipt)
        → (call_driver digest_of hash words self store job drafted files human).0 ≡ ok q
        → Running digest_of job named
            (call_driver digest_of hash words self store job drafted files human).1
    unfolding call_driver
    driver-Running files q = by_store self.has_store (self.driver job drafted files human)
      where
        by_store :
            (b : Bool) (receipt : Result DepositReceipt)
            → (if b then receipt_after receipt (attempted files receipt) else (receipt, store)).0
              ≡ ok q
            → Running digest_of job named
                (if b then receipt_after receipt (attempted files receipt) else (receipt, store)).1
        by_store false receipt h = run
        by_store true (err e) h = cc (receipt_after-ok (err e) (attempted files (err e)) q h)
        by_store true (ok x) h =
            subst (Running digest_of job named)
              (sym (receipt_after-store digest_of job named (ok x) (attempted files (ok x))))
              (attempt-Running digest_of job named hash words store run
                (intent_of hash self job files) x)

    upload-Made :
        (excluded : List String) (files : List PurePath)
        → Done digest_of job named r (
            answered digest_of
              (upload_or_close digest_of hash words self store job drafted human excluded files))
    upload-Made excluded [] h = absurd (
        closed-ne r (
          append_each-ok digest_of (closure job human store.clock ∷ []) (ok closed_without_deposit)
            store (deposited r) h))
    upload-Made excluded (p ∷ ps) h =
        completion-Done digest_of job named r human (p ∷ ps) excluded
          (call_driver digest_of hash words self store job drafted (p ∷ ps) human)
          (driver-Running (p ∷ ps)) h

    ready-Made :
        (blocking : List String)
        → Done digest_of job named r (
            answered digest_of (
              deposit_if_ready digest_of hash words self store job drafted artefacts gate human
                blocking))
    ready-Made (b ∷ bs) h = cc
    ready-Made [] h =
        let excluded = excluded_artefacts gate.items gate.resolutions in
        upload-Made excluded (to_upload self job artefacts excluded) h

    module _ (findings : List ValidationFinding) where
      settled-Made :
          (open' : Result (List UnfinishedAttempt))
          → Done digest_of job named r (
              answered digest_of (
                deposit_if_settled digest_of hash words self store job drafted artefacts gate
                  findings human open'))
      settled-Made (err e) h = cc
      settled-Made (ok (a ∷ more)) h = cc
      settled-Made (ok []) h = ready-Made (check_ready gate findings) h

      publish-Made : Done digest_of job named r (
          answered digest_of
            (publish digest_of hash words self store job drafted artefacts gate findings human))
      unfolding publish
      publish-Made = settled-Made (if self.has_store then unfinished digest_of store job else ok [])

  module _ (is_file : PurePath → Bool) (validate : Json → Result R) (self : JobService R)
      (repository : String) where
    findings-Made :
        (agent : PublicationAgent R) (state : JobState) (gate : GateState) (drafted : R)
        (listed : List PurePath) (found : Result (List ValidationFinding))
        → state.job_id ≡ job
        → Done digest_of job named r (
            answered digest_of (
              with_findings digest_of hash words is_file validate agent store human state gate
                drafted listed found))
    findings-Made agent state gate drafted listed (err e) same h = cc
    findings-Made agent state gate drafted listed (ok findings) same h =
        subst
          (λ (j : String). Done digest_of job named r (
            answered digest_of
              (publish digest_of hash words agent store j drafted listed gate findings human)))
          (sym same) (publish-Made agent drafted listed gate findings) h

    send-Made :
        (state : JobState) (gate : GateState) (drafted : R) (listed : List PurePath)
        (o : Option (PublicationAgent R))
        → state.job_id ≡ job
        → Done digest_of job named r (
            send digest_of hash words is_file validate self store job human repository state gate
              drafted listed o)
    send-Made state gate drafted listed (some agent) same =
        findings-Made agent state gate drafted listed (validation_findings digest_of store job) same
    send-Made state gate drafted listed none same = by_driver-Made self.driver
      where
        by_driver-Made :
            (d : Option (Driver R))
            → Done digest_of job named r (
                by_driver digest_of hash words is_file validate self store job human repository gate
                  drafted listed d)
        by_driver-Made none h = cc
        by_driver-Made (some driver) h =
            let excluded = excluded_artefacts gate.items gate.resolutions in
            recorded-Done digest_of job named r store run self.agent human repository excluded
              (driver job drafted
                (artefacts_to_upload listed excluded (unpacked_dir self.unpacked_root job)) human)
              h

    module _ (given : Option R) (files : Option (List PurePath)) where
      ok_same : {A : Type 0} (a b : A) → ok a ≡ ok b → a ≡ b
      ok_same a b e = cc

      carried_out-Made :
          (p : Result (Prepared R))
          → prepared digest_of hash words is_file validate self store job given files ≡ p
          → Done digest_of job named r
              (carried_out digest_of hash words is_file validate self store job human repository p)
      carried_out-Made (err e) same h = cc
      carried_out-Made (ok (was_published pid)) same h = cc
      carried_out-Made (ok (ready state gate drafted listed)) same h =
          let (log, read, folds, _, _, _) =
            prepared-ok digest_of hash words is_file validate self store job human repository given
              files r state gate drafted listed same in
          let one : log ≡ run.log = ok_same log run.log (sym read ∙ run.holds.loads) in
          let now : state ≡ run.now =
            ok_same state run.now (sym folds ∙ ap fold one ∙ run.folded.folds) in
          send-Made state gate drafted listed self.publication
            (ap (λ (s : JobState). s.job_id) now ∙ run.folded.named) h

      deposit-Made : Done digest_of job named r (
          deposit digest_of hash words is_file validate self store job human repository given files)
      unfolding deposit
      deposit-Made = carried_out-Made _ refl

-- Publishing is idempotent: where the log of a job loads and folds, and `deposit` answers that a
-- deposit was made, then asking again, whatever is asked and by whoever, answers the identifier of
-- that deposit and writes nothing, if the identifier is not empty: that is so for every driver that
-- the second call may have.
pub deposited_once :
    {R : Type 0} (digest_of : Event → Digest) (hash : String → String) (words : Error → String)
    (is_file : PurePath → Bool) (validate : Json → Result R) (job : String)
    (named : is_job_id job ≡ true) (store : Store) (run : Running digest_of job named store)
    (self self' : JobService R) (human human' : Orcid) (repository repository' : String)
    (given given' : Option R) (files files' : Option (List PurePath)) (r : DepositReceipt)
    → (deposit digest_of hash words is_file validate self store job human repository given files).0
      ≡ ok (deposited r)
    → truthy (text r.pid) ≡ true
    → deposit digest_of hash words is_file validate self'
        (deposit digest_of hash words is_file validate self store job human repository given
          files).1
        job
        human'
        repository'
        given'
        files'
      ≡ (
        ok (already_published (text r.pid)),
        (deposit digest_of hash words is_file validate self store job human repository given
            files).1,
      )
deposited_once digest_of hash words is_file validate job named store run self self' human human'
      repository repository' given given' files files' r made real =
    again-Holding digest_of hash words is_file validate job named _ (text r.pid)
      (deposit-Made digest_of hash words job named store run human r is_file validate self
        repository given files made)
      real self' human' repository' given' files'
