-- ===== src/Api/Publish/Cleared.antt =====
-- What a deposit through the service rests on.
use rda_data_director.Prelude.{
  ◌≡◌, refl, ap, String, Bool, true, false, ◌&&◌, List, [], ◌∷◌, Option, none, some, Result, ok,
  err, Error, raise_if, authority_error, bind_inversion, bind_ok, raise_if-passes, sym, ◌∙◌,
  if◌then◌else◌,
}
use rda_data_director.Paths.{PurePath}
use rda_data_director.Contracts.Primitives.{Orcid, Digest}
use rda_data_director.Contracts.Payload.{Json, truthy}
use rda_data_director.Contracts.Events.{Event, is_none}
use rda_data_director.Contracts.Gate.{
  GateItem, GateState, unresolved, blocks_deposit, excluded_artefacts,
}
use rda_data_director.State.Store.{Store, load, append}
use rda_data_director.State.Projection.{JobState, fold}
use rda_data_director.Gate.Upload.{artefacts_to_upload}
use rda_data_director.Workflow.Effects.{then_return}
use rda_data_director.Agents.Publication.{DepositReceipt, Driver, PublicationAgent, Publication}
use rda_data_director.Agents.Publication.Ready.{Publishable}
use rda_data_director.Job.Log.{build_gate}
use rda_data_director.Api.Findings.{ValidationFinding}
use rda_data_director.Api.Service.{gate_of, state_in, validation_findings}
use rda_data_director.Api.Publish.{
  JobService, deposited, Prepared, was_published, ready, unpacked_dir, next_append, append_each,
  recorded, prepared, checks, record_to_publish, files_to_publish,
}

blocks_deposit-false : (gate : GateState) → blocks_deposit gate ≡ false → unresolved gate ≡ []
unfolding blocks_deposit
blocks_deposit-false gate h = by_list (unresolved gate) h
  where
    by_list : (l : List GateItem) → (elim l [ [] ↦ false | item ∷ items ↦ true ]) ≡ false → l ≡ []
    by_list [] h = refl
    by_list (x ∷ xs) h = cc

pub append_each-ok :
    {A : Type 0} (digest_of : Event → Digest) (events : List Event) (answer : Result A) (s : Store)
    (a : A)
    → (append_each digest_of events answer s).0 ≡ ok a
    → answer ≡ ok a
append_each-ok digest_of [] answer s a h = h
append_each-ok {A} digest_of (ev ∷ events) answer s a h =
    by_append (append digest_of ev s) h (λ t. append_each-ok digest_of events answer t a)
  where
    by_append :
        (p : Result Event × Store)
        → (next_append {A = A} (append_each digest_of events answer) p).0 ≡ ok a
        → ((t : Store) → (append_each digest_of events answer t).0 ≡ ok a → answer ≡ ok a)
        → answer ≡ ok a
    by_append (err e, t) h more = cc
    by_append (ok ev, t) h more = more t h

pub then_return-ok :
    {A : Type 0} (a : Result Event × Store) (answer : Result A) (x : A)
    → (then_return a answer).0 ≡ ok x
    → answer ≡ ok x
then_return-ok (err e, s) answer x h = cc
then_return-ok (ok ev, s) answer x h = h

pub recorded-deposited :
    (digest_of : Event → Digest) (agent job : String) (human : Orcid) (repository : String)
    (excluded : List String) (s : Store) (receipt : Result DepositReceipt) (r : DepositReceipt)
    → (recorded digest_of agent job human repository excluded s receipt).0 ≡ ok (deposited r)
    → receipt ≡ ok r
recorded-deposited digest_of agent job human repository excluded s (err e) r h = cc
recorded-deposited digest_of agent job human repository excluded s (ok q) r h =
    cc (then_return-ok _ (ok (deposited q)) (deposited r) h)

module _ {R : Type 0} (digest_of : Event → Digest) (hash : String → String) (words : Error → String)
    (is_file : PurePath → Bool) (validate : Json → Result R) (self : JobService R) (store : Store)
    (job : String) (human : Orcid) (repository : String) (given : Option R)
    (files : Option (List PurePath)) (r : DepositReceipt) where
  -- The deposit was made by the agent, or by the driver where there is no agent.
  abbrev pub Sent : Option (PublicationAgent R) → JobState → GateState → R → List PurePath → Type 0
  Sent (some agent) state gate drafted listed =
      (findings : List ValidationFinding) × (validation_findings digest_of store job ≡ ok findings)
      × Publishable digest_of hash words agent store state.job_id drafted listed gate findings human
          r
  Sent none state gate drafted listed =
      (driver : Driver R) × (self.driver ≡ some driver)
      × (driver job drafted
            (artefacts_to_upload listed (excluded_artefacts gate.items gate.resolutions)
              (unpacked_dir self.unpacked_root job))
            human
          ≡ ok r)

  pub record Cleared : Type 0 where
    pub log : List Event
    pub state : JobState
    pub gate : GateState
    pub drafted : R
    pub listed : List PurePath
    pub read : load digest_of job store ≡ ok log
    pub folded : fold log ≡ ok state
    pub fresh : truthy state.deposit_pid ≡ false
    pub built : build_gate log ≡ ok gate
    pub settled : unresolved gate ≡ []
    pub sent : Sent self.publication state gate drafted listed

  abbrev prepared_here : Result (Prepared R)
  prepared_here = prepared digest_of hash words is_file validate self store job given files

  checked :
      (log : List Event) (state state' : JobState) (gate : GateState) (drafted : R)
      (listed : List PurePath)
      → load digest_of job store ≡ ok log
      → checks digest_of hash words is_file validate self store job given files state'
        ≡ ok (ready state gate drafted listed)
      → (state' ≡ state) × (build_gate log ≡ ok gate) × (unresolved gate ≡ [])
  unfolding gate_of
  checked log state state' gate drafted listed read h =
      let (g, built, h1) = bind_inversion (gate_of digest_of store job) _ h in
      let (u, free, h2) = bind_inversion (raise_if (blocks_deposit g) authority_error) _ h1 in
      let (v, present, h3) =
        bind_inversion (raise_if (is_none self.driver && is_none self.publication) authority_error)
          _ h2 in
      let (d, e, h4) =
        bind_inversion (record_to_publish digest_of hash words is_file validate store job given) _
          h3 in
      let (l, k, final) =
        bind_inversion (files_to_publish digest_of hash words is_file validate self store job files)
          _ h4 in
      let same : g ≡ gate = cc in
      (
        cc,
        sym (bind_ok (load digest_of job store) build_gate read) ∙ built ∙ ap ok same,
        ap unresolved (sym same) ∙ blocks_deposit-false g (raise_if-passes _ _ u free),
      )

  fresh_or_published :
      (b : Bool) (pid : Json) (m : Result (Prepared R)) (state : JobState) (gate : GateState)
      (drafted : R) (listed : List PurePath)
      → (if b then ok (was_published pid) else m) ≡ ok (ready state gate drafted listed)
      → (b ≡ false) × (m ≡ ok (ready state gate drafted listed))
  fresh_or_published true pid m state gate drafted listed h = cc
  fresh_or_published false pid m state gate drafted listed h = (refl, h)

  pub prepared-ok :
      (state : JobState) (gate : GateState) (drafted : R) (listed : List PurePath)
      → prepared_here ≡ ok (ready state gate drafted listed)
      → (log : List Event) × (load digest_of job store ≡ ok log)
        × (fold log ≡ ok state)
        × (truthy state.deposit_pid ≡ false)
        × (build_gate log ≡ ok gate)
        × (unresolved gate ≡ [])
  unfolding prepared state_in
  prepared-ok state gate drafted listed same =
      let (state', st, h1) = bind_inversion (state_in digest_of store job) _ same in
      let (log, read, folded) = bind_inversion (load digest_of job store) fold st in
      let (fresh, h2) =
        fresh_or_published (truthy state'.deposit_pid) _ _ state gate drafted listed h1 in
      let (one, built, settled) = checked log state state' gate drafted listed read h2 in
      (
        log,
        read,
        folded ∙ ap ok one,
        ap (λ (s : JobState). truthy s.deposit_pid) (sym one) ∙ fresh,
        built,
        settled,
      )
