-- ===== src/Api/Service/Gate.antt =====
-- The gate behind the service: items and decisions that are written to the log are the gate that is
-- read from it.
use rda_data_director.Prelude.{
  ℕ, ◌≡◌, refl, sym, ap, ◌∙◌, subst, String, true, List, ◌++◌, Option, none, some, Result, ok, err,
  Error, bind_ok, All,
}
use rda_data_director.Contracts.Primitives.{Orcid, Digest, is_job_id}
use rda_data_director.Contracts.Events.{Event, EventKind}
use rda_data_director.Contracts.Gate.{GateItem, GateState, ItemDecision, Resolution}
use rda_data_director.Contracts.Gate.Open.{decided}
use rda_data_director.State.Store.{Store, load, placed}
use rda_data_director.State.Store.Tail.{Holds}
use rda_data_director.Gate.Items.{add, resolve}
use rda_data_director.Gate.Items.Resolve.{resolve_exact, resolve-IsAdmissible}
use rda_data_director.Job.Items.Roundtrip.{decision_of-decision_text, text_or_null-null_or}
use rda_data_director.Job.Log.{items_in, unique_items, resolution_of, note_gate, build_gate}
use rda_data_director.Job.Log.Gate.{
  build_gate-snoc, unique_gate-append, IsConstructed, validate_all-dump_list,
}
use rda_data_director.Workflow.Effects.Attempt.{then_return-Holds}
use rda_data_director.Api.Service.{
  items_payload, decision_payload, items_event, decision_event, add_gate_items, gate_of,
  record_resolution, resolve_at, resolve_in_log,
}

pub note_gate-decision :
    (digest_of : Event → Digest) (log : List Event) (agent job : String) (now : ℕ) (raw : GateState)
    (human : Orcid) (item_id : String) (decision : ItemDecision) (reason : Option String)
    → note_gate raw EventKind.redaction_decided
        (placed digest_of log (decision_event agent job now human item_id decision reason))
      ≡ ok (
          decided raw (record {
            item_id = item_id;
            decision = decision;
            decided_by = human;
            reason = reason;
            decided_at = now;
          }))
unfolding note_gate resolution_of
note_gate-decision digest_of log agent job now raw human item_id decision reason =
    rw (decision_of-decision_text decision, text_or_null-null_or reason) refl

module _ (digest_of : Event → Digest) (agent job : String) (named : is_job_id job ≡ true)
    (store : Store) (log : List Event) (holds : Holds digest_of job store log) {gate : GateState}
    (built : build_gate log ≡ ok gate) where
  gate_of-Holds :
      (s : Store) (l : List Event)
      → Holds digest_of job s l
      → gate_of digest_of s job ≡ build_gate l
  unfolding gate_of
  gate_of-Holds s l h = bind_ok (load digest_of job s) build_gate h.loads

  note_gate-items :
      (raw : GateState) (items : List GateItem)
      → All IsConstructed items
      → note_gate raw EventKind.redaction_proposed
          (placed digest_of log (items_event agent job store.clock items))
        ≡ ok (record raw { items = raw.items ++ items })
  unfolding note_gate items_in
  note_gate-items raw items good = rw (validate_all-dump_list items good) refl

  -- Items that the service writes to the log are read back: the gate of the job is then the one
  -- before it with those items added as `Gate.add` adds them, each once and in their order.
  pub gate_of-add_gate_items :
      (items : List GateItem)
      → All IsConstructed items
      → let after = add_gate_items digest_of agent store job items in
        (after.0 ≡ ok tt) × (gate_of digest_of after.1 job ≡ ok (add gate (unique_items items)))
  unfolding add_gate_items
  gate_of-add_gate_items items good =
      let (answer, after) =
        then_return-Holds digest_of job named EventKind.redaction_proposed agent none
          (items_payload items) store log (ok tt) refl holds in
      let (raw, same, next) =
        build_gate-snoc log (placed digest_of log (items_event agent job store.clock items))
          built in
      (
        answer,
        gate_of-Holds _ _ after
            ∙ next _ (note_gate-items raw items good)
            ∙ ap ok
                (unique_gate-append raw items ∙ ap (λ g. add g (unique_items items)) (sym same)),
      )

  module _ (item_id : String) (decision : ItemDecision) (human : Orcid)
      (reason : Option String) where
    abbrev answer : Resolution
    answer = record {
      item_id = item_id;
      decision = decision;
      decided_by = human;
      reason = reason;
      decided_at = store.clock;
    }

    abbrev Commutes : Result Resolution × GateState → Result Resolution × Store → Type 0
    Commutes decided' after =
        (after.0 ≡ decided'.0)
        × (gate_of digest_of after.1 job ≡ ok decided'.1)
        × ((e : Error) → decided'.0 ≡ err e → after.1 ≡ store)

    recorded-Commutes :
        Commutes
          (ok answer, decided gate answer)
          (record_resolution digest_of agent store job human (ok answer, decided gate answer))
    recorded-Commutes =
        let event = decision_event agent job store.clock human item_id decision reason in
        let (answered, after) =
          then_return-Holds digest_of job named EventKind.redaction_decided agent (some human)
            (decision_payload item_id decision reason) store log (ok answer) refl holds in
        let (raw, same, next) = build_gate-snoc log (placed digest_of log event) built in
        (
          answered,
          gate_of-Holds _ _ after
              ∙ next _ (
                  note_gate-decision digest_of log agent job store.clock raw human item_id decision
                    reason)
              ∙ ap (λ g. ok (decided g answer)) (sym same),
          λ e h. cc,
        )

    by_answer :
        (a : Result Resolution × GateState)
        → resolve gate item_id decision human reason store.clock ≡ a
        → Commutes a (record_resolution digest_of agent store job human a)
    by_answer (err e, g) h =
        let kept : g ≡ gate =
          ap (λ (p : Result Resolution × GateState). p.1) (sym h)
          ∙ (resolve_exact gate item_id decision human reason store.clock).1 e
              (ap (λ (p : Result Resolution × GateState). p.0) h) in
        (refl, gate_of-Holds store log holds ∙ built ∙ ap ok (sym kept), λ e h. refl)
    by_answer (ok r, g) h =
        let admissible =
          (resolve_exact gate item_id decision human reason store.clock).0 r
            (ap (λ (p : Result Resolution × GateState). p.0) h) in
        subst (λ p. Commutes p (record_resolution digest_of agent store job human p))
          (sym (resolve-IsAdmissible gate item_id decision human reason store.clock admissible) ∙ h)
          recorded-Commutes

    -- A decision through the service is the decision of `Gate.resolve` on the gate that the log
    -- describes: it answers or raises as that does, the gate read from the log afterwards is the gate
    -- that `Gate.resolve` leaves, and nothing is written if it raises.
    pub resolve_in_log-refines :
        let decided' = resolve gate item_id decision human reason store.clock in
        let after = resolve_in_log digest_of agent store job item_id decision human reason in
        (after.0 ≡ decided'.0)
        × (gate_of digest_of after.1 job ≡ ok decided'.1)
        × ((e : Error) → decided'.0 ≡ err e → after.1 ≡ store)
    unfolding resolve_in_log
    resolve_in_log-refines =
        subst
          (λ g.
            Commutes (resolve gate item_id decision human reason store.clock)
              (resolve_at digest_of agent store job item_id decision human reason g))
          (sym (gate_of-Holds store log holds ∙ built))
          (by_answer (resolve gate item_id decision human reason store.clock) refl)
