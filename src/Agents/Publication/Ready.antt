-- ===== src/Agents/Publication/Ready.antt =====
-- What holds where the publication agent answers that it published.
use Prim.Native.String.{◌++◌ as ◌<>◌}
use rda_data_director.Prelude.{
  ◌≡◌, refl, String, Bool, true, false, List, [], ◌∷◌, ◌++◌, map, Result, ok, err, Error, arith,
  keep_if, if◌then◌else◌,
}
use rda_data_director.Paths.{PurePath}
use rda_data_director.Contracts.Primitives.{Orcid, Digest}
use rda_data_director.Contracts.Payload.{Fields}
use rda_data_director.Contracts.Events.{Event}
use rda_data_director.Contracts.Gate.{GateState, unresolved, excluded_artefacts}
use rda_data_director.State.Store.{Store}
use rda_data_director.Workflow.Effects.{UnfinishedAttempt, unfinished, attempt}
use rda_data_director.Api.Findings.{ValidationFinding}
use rda_data_director.Agents.Publication.{
  DepositReceipt, PublicationAgent, published, is_error, check_ready, call_driver, receipt_after,
  completion, driver_body, intent_of, field_or_record, to_upload, upload_or_close, deposit_if_ready,
  deposit_if_settled, publish,
}

no_map {ℓ κ} :
    {A : Type ℓ} {B : Type κ} (f : A → B) (xs : List A) (ys : List B)
    → map f xs ++ ys ≡ []
    → (xs ≡ []) × (ys ≡ [])
no_map f [] ys h = (refl, h)
no_map f (x ∷ xs) ys h = cc

-- Nothing blocks a deposit only if every item is settled and no finding is an error.
pub check_ready-nil :
    (gate : GateState) (findings : List ValidationFinding)
    → check_ready gate findings ≡ []
    → (unresolved gate ≡ []) × (keep_if is_error findings ≡ [])
unfolding check_ready
check_ready-nil gate findings h =
    let (settled, rest) = no_map _ (unresolved gate) _ h in
    (settled, errors (keep_if is_error findings) rest)
  where
    line : ValidationFinding → String
    line f = "validation error on " <> field_or_record f.subject <> ": " <> f.message

    errors : (xs : List ValidationFinding) → map line xs ≡ [] → xs ≡ []
    errors [] e = refl
    errors (x ∷ xs) e = cc

pub receipt_after-ok :
    (receipt : Result DepositReceipt) (a : Result Fields × Store) (r : DepositReceipt)
    → (receipt_after receipt a).0 ≡ ok r
    → receipt ≡ ok r
receipt_after-ok receipt (err e, s) r h = cc
receipt_after-ok receipt (ok fields, s) r h = h

module _ {R : Type 0} (digest_of : Event → Digest) (hash : String → String) (words : Error → String)
    (self : PublicationAgent R) (store : Store) (job : String) (drafted : R)
    (artefacts : List PurePath) (gate : GateState) (findings : List ValidationFinding)
    (human : Orcid) where
  abbrev sent_files : List PurePath
  sent_files = to_upload self job artefacts (excluded_artefacts gate.items gate.resolutions)

  -- What an answer rests on.
  pub record Publishable (r : DepositReceipt) : Type 0 where
    pub settled : unresolved gate ≡ []
    pub valid : keep_if is_error findings ≡ []
    pub concluded : self.has_store ≡ true → unfinished digest_of store job ≡ ok []
    pub sent : self.driver job drafted sent_files human ≡ ok r

  call_driver-ok :
      (files : List PurePath) (r : DepositReceipt)
      → (call_driver digest_of hash words self store job drafted files human).0 ≡ ok r
      → self.driver job drafted files human ≡ ok r
  unfolding call_driver
  call_driver-ok files r h = by_store self.has_store h
    where
      by_store :
          (b : Bool)
          → (if b
              then receipt_after (self.driver job drafted files human) (
                  attempt digest_of words store job "effects/0.1.0"
                    (intent_of hash self job files)
                    (driver_body (self.driver job drafted files human)))
              else (self.driver job drafted files human, store)).0
            ≡ ok r
          → self.driver job drafted files human ≡ ok r
      by_store true h = receipt_after-ok _ _ r h
      by_store false h = h

  completion-ok :
      (files : List PurePath) (excluded : List String) (a : Result DepositReceipt × Store)
      (r : DepositReceipt) (events : List Event)
      → (completion job human files excluded a).0 ≡ ok (published r events)
      → a.0 ≡ ok r
  completion-ok files excluded (err e, s) r events h = cc
  completion-ok files excluded (ok q, s) r events h = cc

  upload-ok :
      (excluded : List String) (files : List PurePath) (r : DepositReceipt) (events : List Event)
      → (upload_or_close digest_of hash words self store job drafted human excluded files).0
        ≡ ok (published r events)
      → self.driver job drafted files human ≡ ok r
  upload-ok excluded [] r events h = cc
  upload-ok excluded (p ∷ ps) r events h =
      call_driver-ok (p ∷ ps) r (completion-ok (p ∷ ps) excluded _ r events h)

  module _ (r : DepositReceipt) (events : List Event) where
    ready-ok :
        (blocking : List String)
        → (deposit_if_ready digest_of hash words self store job drafted artefacts gate human
            blocking).0
          ≡ ok (published r events)
        → (blocking ≡ []) × (self.driver job drafted sent_files human ≡ ok r)
    ready-ok (b ∷ bs) h = cc
    ready-ok [] h =
        (refl, upload-ok (excluded_artefacts gate.items gate.resolutions) sent_files r events h)

    settled-ok :
        (open' : Result (List UnfinishedAttempt))
        → (deposit_if_settled digest_of hash words self store job drafted artefacts gate findings
            human open').0
          ≡ ok (published r events)
        → (open' ≡ ok [])
          × (check_ready gate findings ≡ [])
          × (self.driver job drafted sent_files human ≡ ok r)
    settled-ok (err e) h = cc
    settled-ok (ok (a ∷ more)) h = cc
    settled-ok (ok []) h =
        let (none_blocks, sent) = ready-ok (check_ready gate findings) h in
        (refl, none_blocks, sent)

    -- An answer that a deposit was made rests on a gate with nothing unresolved, on findings with no
    -- error, on a log with no open attempt where the agent has the store, and on the driver's receipt
    -- for the files that were not excluded.
    pub publish-Publishable :
        (publish digest_of hash words self store job drafted artefacts gate findings human).0
          ≡ ok (published r events)
        → Publishable r
    unfolding publish
    publish-Publishable h =
        let (closed, none_blocks, sent) =
          settled-ok (if self.has_store then unfinished digest_of store job else ok []) h in
        let (settled, valid) = check_ready-nil gate findings none_blocks in
        record { settled = settled; valid = valid; concluded = λ stored. ground arith; sent = sent }
