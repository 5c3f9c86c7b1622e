-- ===== src/Gate/Review/Hold.antt =====
-- What a decision on a draft, recorded in the log, does to the agents that wait.
use mathlib.Core.List.{append_assoc}
use rda_data_director.Prelude.{
  ℕ, ◌≡◌, refl, sym, ap, ◌∙◌, true, false, String, List, [], ◌∷◌, ◌++◌, Option, some, Result, ok,
  ◌>>=◌, bind_ok, bind_inversion, arith, contains, str_eq_refl,
}
use rda_data_director.Contracts.Primitives.{Orcid, Digest}
use rda_data_director.Contracts.Events.{Event, EventKind}
use rda_data_director.Contracts.Gate.{
  GateItem, GateState, ItemDecision, request_rerun, counts_as_validation, Resolution,
  review_agent_id, unresolved,
}
use rda_data_director.Contracts.Gate.Open.{ids, decided, unresolved-rerun, unresolved-decided}
use rda_data_director.State.Store.{placed}
use rda_data_director.Contracts.Payload.{text}
use rda_data_director.Gate.Items.{decision_text}
use rda_data_director.Job.Items.Roundtrip.{decision_of-decision_text, text_or_null-null_or}
use rda_data_director.Job.Log.{raised_by, raised_in, log_items}
use rda_data_director.State.Store.Listing.{construct_same}
use rda_data_director.Gate.Review.Folds.{resolution_by-parts}
use rda_data_director.Gate.Review.{
  one_or_none, is_review_id, decided_in, review_resolutions, review_gate, pending, newest_request,
  reason_of, rerun_request, review_decision, decision_event,
}

raised_in-snoc :
    (log : List Event) (ev : Event) {items : List GateItem}
    → raised_by ev ≡ ok []
    → raised_in log ≡ ok items
    → raised_in (log ++ ev ∷ []) ≡ ok items
unfolding raised_in
raised_in-snoc [] ev plain h = rw plain h
raised_in-snoc (e ∷ log) ev plain h =
    let (first, a, h') = bind_inversion (raised_by e) _ h in
    let (rest, b, same) = bind_inversion (raised_in log) _ h' in
    rw (a, raised_in-snoc log ev plain b) same

log_items-snoc :
    (log : List Event) (ev : Event) {items : List GateItem}
    → raised_by ev ≡ ok []
    → log_items log ≡ ok items
    → log_items (log ++ ev ∷ []) ≡ ok items
unfolding log_items
log_items-snoc log ev plain h =
    let (raised, a, same) = bind_inversion (raised_in log) _ h in
    bind_ok (raised_in (log ++ ev ∷ [])) _ (raised_in-snoc log ev plain a) ∙ same

review_resolutions-snoc :
    (log : List Event) (ev : Event) (r : Resolution) {rs : List Resolution}
    → decided_in ev.kind ev ≡ ok (r ∷ [])
    → review_resolutions log ≡ ok rs
    → review_resolutions (log ++ ev ∷ []) ≡ ok (rs ++ r ∷ [])
unfolding review_resolutions
review_resolutions-snoc [] ev r {rs} own h =
    let same : ◌≡◌ {A = List Resolution} [] rs = cc in
    rw own (ap (λ (l : List Resolution). ok (l ++ r ∷ [])) same)
review_resolutions-snoc (e ∷ log) ev r {rs} own h =
    let (first, a, h') = bind_inversion (decided_in e.kind e) _ h in
    let (rest, b, same) = bind_inversion (review_resolutions log) _ h' in
    let same' : first ++ rest ≡ rs = cc in
    rw (a, review_resolutions-snoc log ev r own b)
      (ap ok (sym (append_assoc first rest (r ∷ []))) ∙ ap (λ l. ok (l ++ r ∷ [])) same')

review_gate-snoc :
    (log : List Event) (ev : Event) (r : Resolution) {gate : GateState}
    → raised_by ev ≡ ok []
    → decided_in ev.kind ev ≡ ok (r ∷ [])
    → review_gate log ≡ ok gate
    → review_gate (log ++ ev ∷ []) ≡ ok (decided gate r)
unfolding review_gate
review_gate-snoc log ev r plain own h =
    let (items, a, h') = bind_inversion (log_items log) _ h in
    let (rs, b, same) = bind_inversion (review_resolutions log) _ h' in
    rw (log_items-snoc log ev plain a, review_resolutions-snoc log ev r own b)
      (ap (λ (g : Result GateState). g >>= λ s. ok (decided s r)) same)

newest_request-snoc :
    (agent : String) (rs : List Resolution) (r : Resolution)
    → r.decision ≡ request_rerun
    → review_agent_id r.item_id ≡ some agent
    → newest_request agent (rs ++ r ∷ []) ≡ some r
unfolding newest_request
newest_request-snoc agent [] r asks own = ground (arith, str_eq_refl agent)
newest_request-snoc agent (q ∷ rs) r asks own = rw (newest_request-snoc agent rs r asks own) refl

-- The entry that `decision_event` makes is read back as the decision, wherever it is placed.
module _ (digest_of : Event → Digest) (log : List Event) (job item_id : String)
    (decision : ItemDecision) (human : Orcid) (reason : Option String) (agent : String)
    (now : ℕ) where
  abbrev pub entry : Event
  entry = placed digest_of log (review_decision job item_id decision (some human) reason agent now)

  abbrev pub given : Resolution
  given = record {
    item_id = item_id;
    decision = decision;
    decided_by = human;
    reason = reason;
    decided_at = now;
  }

  decided_in-entry :
      is_review_id item_id ≡ true → decided_in EventKind.redaction_decided entry ≡ ok (given ∷ [])
  unfolding decided_in
  decided_in-entry is_id = rw is_id (
      ap (λ (r : Result Resolution). ok (one_or_none r))
        (resolution_by-parts item_id human entry (text (decision_text decision)) decision reason
          refl (decision_of-decision_text decision) (text_or_null-null_or reason)))

  pub review_gate-entry :
      {gate : GateState}
      → is_review_id item_id ≡ true
      → review_gate log ≡ ok gate
      → review_gate (log ++ entry ∷ []) ≡ ok (decided gate given)
  review_gate-entry is_id h = review_gate-snoc log entry given refl (decided_in-entry is_id) h

  pending-entry :
      {gate : GateState}
      → is_review_id item_id ≡ true
      → review_gate log ≡ ok gate
      → pending (log ++ entry ∷ []) ≡ ok (unresolved (decided gate given))
  unfolding pending
  pending-entry is_id h =
      bind_ok (review_gate (log ++ entry ∷ [])) (λ gate. ok (unresolved gate))
        (review_gate-entry is_id h)

  rerun_request-entry :
      (name : String) {gate : GateState}
      → is_review_id item_id ≡ true
      → review_gate log ≡ ok gate
      → decision ≡ request_rerun
      → review_agent_id item_id ≡ some name
      → rerun_request (log ++ entry ∷ []) name ≡ ok reason
  unfolding review_gate rerun_request
  rerun_request-entry name is_id h asks own =
      let (items, a, h') = bind_inversion (log_items log) _ h in
      let (rs, b, same) = bind_inversion (review_resolutions log) _ h' in
      bind_ok (review_resolutions (log ++ entry ∷ []))
        (λ rs. ok (reason_of (newest_request name rs)))
        (review_resolutions-snoc log entry given (decided_in-entry is_id) b)
      ∙ ap (λ o. ok (reason_of o)) (newest_request-snoc name rs given asks own)

-- A decision on a draft that `decision_event` makes, once it stands in the log: a request for
-- another attempt leaves everything that waited waiting, and is what the agent of the draft is told
-- was wrong; a decision that validates takes the draft off the list; and no decision puts
-- anything on it.
pub decision_event-holds :
    (digest_of : Event → Digest) (log : List Event) (job item_id : String) (decision : ItemDecision)
    (human : Orcid) (reason : Option String) (agent : String) (now : ℕ) (ev : Event)
    {items : List GateItem}
    → is_review_id item_id ≡ true
    → decision_event job item_id decision (some human) reason agent now ≡ ok ev
    → pending log ≡ ok items
    → let after = log ++ placed digest_of log ev ∷ [] in
      (decision ≡ request_rerun
        → (pending after ≡ ok items)
          × ((name : String)
              → review_agent_id item_id ≡ some name
              → rerun_request after name ≡ ok reason))
      × ((left : List GateItem) × (pending after ≡ ok left)
          × (counts_as_validation decision ≡ true → contains (ids left) item_id ≡ false)
          × ((s : String) → contains (ids left) s ≡ true → contains (ids items) s ≡ true))
unfolding pending decision_event
decision_event-holds digest_of log job item_id decision human reason agent now ev {items} is_id made
      waits =
    let (gate, read, same) = bind_inversion (review_gate log) _ waits in
    let waits' : unresolved gate ≡ items = cc in
    let grown =
      ap (λ e. log ++ placed digest_of log e ∷ [])
        (construct_same (review_decision job item_id decision (some human) reason agent now) ev
          made) in
    let r = given digest_of log job item_id decision human reason agent now in
    let next =
      ap pending grown
      ∙ pending-entry digest_of log job item_id decision human reason agent now is_id read in
    let (closes, opens_none) = unresolved-decided gate r in
    (
      λ asks. (
        next ∙ ap ok (unresolved-rerun gate r asks ∙ waits'),
        λ name own.
            ap (λ l. rerun_request l name) grown
            ∙ rerun_request-entry digest_of log job item_id decision human reason agent now name
                is_id read asks own,
      ),
      (
        unresolved (decided gate r),
        next,
        closes,
        λ s h. ap (λ l. contains (ids l) s) (sym waits') ∙ opens_none s h,
      ),
    )
