-- ===== src/Gate/Review/Fresh.antt =====
-- A draft that is recorded for review holds the agents behind it until it is decided.
use mathlib.Core.List.{append_assoc, append-nil}
use rda_data_director.Prelude.{
  ℕ, ◌≡◌, refl, sym, ap, ◌∙◌, true, false, not, String, List, [], ◌∷◌, ◌++◌, Option, none, some, ok,
  bind_ok, bind_inversion, arith, contains, contains-append, str_eq_refl, eq_iff, keep_if,
}
use rda_data_director.Contracts.Primitives.{Digest}
use rda_data_director.Contracts.Payload.{Json}
use rda_data_director.Contracts.Events.{Event}
use rda_data_director.Contracts.Gate.{
  GateItem, GateState, Resolution, construct_item, review_agent, review_agent_id, resolved_ids,
  superseded_ids, is_open, unresolved,
}
use rda_data_director.Contracts.Gate.Open.{ids}
use rda_data_director.Contracts.Gate.Supersede.{
  is_replaced, replaced_ids, superseded_ids-eq-replaced_ids,
}
use rda_data_director.State.Store.{placed}
use rda_data_director.Gate.Items.{add}
use rda_data_director.Job.Log.{raised_by, raised_in, items_in, unique_items, log_items}
use rda_data_director.Job.Log.Gate.{unique_gate-append, validate_all-dump_list}
use rda_data_director.Api.Service.{items_event}
use rda_data_director.Gate.Review.Named.{
  IsAgentName, claimed_review-Named, review_agent_id-item_id_for,
}
use rda_data_director.Gate.Review.Claim.{
  LlmOutput, Outcome, claimed_review, agent_name, drafted, item_id_for,
}
use rda_data_director.Gate.Review.{
  review_resolutions, review_gate, is_draft, agents_of, pending, pending_agents, decided_in,
}

-- An entry with items more.
raised_in-snoc :
    (log : List Event) (ev : Event) (more : List GateItem) {items : List GateItem}
    → raised_by ev ≡ ok more
    → raised_in log ≡ ok items
    → raised_in (log ++ ev ∷ []) ≡ ok (items ++ more)
unfolding raised_in
raised_in-snoc [] ev more {items} own h =
    let same : ◌≡◌ {A = List GateItem} [] items = cc in
    rw own (ap ok (append-nil more) ∙ ap (λ l. ok (l ++ more)) same)
raised_in-snoc (e ∷ log) ev more {items} own h =
    let (first, a, h') = bind_inversion (raised_by e) _ h in
    let (rest, b, same) = bind_inversion (raised_in log) _ h' in
    let same' : first ++ rest ≡ items = cc in
    rw (a, raised_in-snoc log ev more own b)
      (ap ok (sym (append_assoc first rest more)) ∙ ap (λ l. ok (l ++ more)) same')

keep_if-fresh :
    (names : List String) (item : GateItem)
    → contains names item.item_id ≡ false
    → keep_if (λ i. not (contains names i.item_id)) (item ∷ []) ≡ item ∷ []
keep_if-fresh names item fresh = ground (arith, fresh)

unique_items-snoc :
    (items : List GateItem) (item : GateItem)
    → contains (ids (unique_items items)) item.item_id ≡ false
    → unique_items (items ++ item ∷ []) ≡ unique_items items ++ item ∷ []
unfolding add unique_items
unique_items-snoc items item fresh =
    ap (λ (g : GateState). g.items)
      (unique_gate-append (record { items = items; resolutions = [] }) (item ∷ []))
    ∙ ap (λ l. unique_items items ++ l) (keep_if-fresh (ids (unique_items items)) item fresh)

is_replaced-last :
    (names : List String) (item : GateItem) (o : Option String)
    → is_replaced names [] item o ≡ false
is_replaced-last names item none = refl
is_replaced-last names item (some agent) = ground arith

replaced_ids-earlier :
    (names : List String) (items : List GateItem) (item : GateItem) (s : String)
    → contains (replaced_ids names (items ++ item ∷ [])) s ≡ true
    → contains (ids items) s ≡ true
unfolding replaced_ids
replaced_ids-earlier names [] item s h =
    ground (arith, is_replaced-last names item (review_agent item))
replaced_ids-earlier names (i ∷ items) item s h =
    ground (arith, replaced_ids-earlier names items item s)

agents_of-contains :
    (items : List GateItem) (s agent : String)
    → contains (ids items) s ≡ true
    → review_agent_id s ≡ some agent
    → contains (agents_of items) agent ≡ true
agents_of-contains [] s agent h own = cc
agents_of-contains (i ∷ items) s agent h own =
    ground (arith, agents_of-contains items s agent, eq_iff i.item_id s, str_eq_refl agent)

contains-kept :
    (names : List String) (items : List GateItem) (s : String)
    → contains names s ≡ false
    → contains (ids items) s ≡ true
    → contains (ids (keep_if (is_open names) items)) s ≡ true
contains-kept names [] s open' h = cc
contains-kept names (i ∷ items) s open' h =
    ground (arith, contains-kept names items s, eq_iff i.item_id s, str_eq_refl s)

contains-last :
    (items : List GateItem) (item : GateItem)
    → contains (ids (items ++ item ∷ [])) item.item_id ≡ true
contains-last [] item = ground (arith, str_eq_refl item.item_id)
contains-last (i ∷ items) item = ground (arith, contains-last items item)

contains-drafts :
    (items : List GateItem) (s : String)
    → contains (ids items) s ≡ false
    → contains (ids (keep_if is_draft items)) s ≡ false
contains-drafts [] s h = refl
contains-drafts (i ∷ items) s h = ground (arith, contains-drafts items s)

keep_if-snoc :
    (items : List GateItem) (item : GateItem)
    → is_draft item ≡ true
    → keep_if is_draft (items ++ item ∷ []) ≡ keep_if is_draft items ++ item ∷ []
keep_if-snoc [] item h = ground arith
keep_if-snoc (i ∷ items) item h = ground (arith, keep_if-snoc items item h)

-- An item that comes last, that nobody has decided and whose name is new is open.
open-last :
    (gate : GateState) (item : GateItem)
    → contains (ids gate.items) item.item_id ≡ false
    → contains (resolved_ids gate.resolutions) item.item_id ≡ false
    → contains (ids (unresolved (record gate { items = gate.items ++ item ∷ [] }))) item.item_id
      ≡ true
unfolding unresolved
open-last gate item fresh undecided =
    let after : GateState = record gate { items = gate.items ++ item ∷ [] } in
    let names = resolved_ids gate.resolutions in
    contains-kept (names ++ superseded_ids after) (gate.items ++ item ∷ []) item.item_id
      (ap (λ l. contains (names ++ l) item.item_id) (superseded_ids-eq-replaced_ids after)
        ∙ contains-append names (replaced_ids names (gate.items ++ item ∷ [])) item.item_id
        ∙ ground (arith, replaced_ids-earlier names gate.items item item.item_id, fresh, undecided))
      (contains-last gate.items item)

raised_by-items_event :
    (digest_of : Event → Digest) (log : List Event) (job writer : String) (now : ℕ)
    (item : GateItem)
    → construct_item item ≡ ok item
    → raised_by (placed digest_of log (items_event writer job now (item ∷ []))) ≡ ok (item ∷ [])
unfolding items_in
raised_by-items_event digest_of log job writer now item good =
    rw (validate_all-dump_list (item ∷ []) (good, tt)) refl

review_resolutions-plain :
    (log : List Event) (ev : Event) {rs : List Resolution}
    → decided_in ev.kind ev ≡ ok []
    → review_resolutions log ≡ ok rs
    → review_resolutions (log ++ ev ∷ []) ≡ ok rs
unfolding review_resolutions
review_resolutions-plain [] ev plain h = rw plain h
review_resolutions-plain (e ∷ log) ev plain h =
    let (first, a, h') = bind_inversion (decided_in e.kind e) _ h in
    let (rest, b, same) = bind_inversion (review_resolutions log) _ h' in
    rw (a, review_resolutions-plain log ev plain b) same

pending_agents-of :
    (log : List Event) (items : List GateItem) (rs : List Resolution)
    → log_items log ≡ ok items
    → review_resolutions log ≡ ok rs
    → pending_agents log
      ≡ ok (agents_of (unresolved (record { items = keep_if is_draft items; resolutions = rs })))
unfolding pending_agents pending review_gate
pending_agents-of log items rs a b = rw (a, b) refl

-- What `claimed_review` raises holds the agents behind it: once the item stands in the log, the
-- agent it is about is among the pending ones. The log is one that is read without an error, no
-- item of it has the new identifier and no decision in it validates that, and the agent's name is
-- not empty and holds no colon. The identifier carries the digest of what the agent drafted.
pub fresh_draft-waits :
    (payload_digest : Json → String) (agent : String) (claim : LlmOutput) (outcome : Outcome)
    (item : GateItem) (digest_of : Event → Digest) (log : List Event) (job writer : String)
    (now : ℕ) {items : List GateItem} {rs : List Resolution}
    → claimed_review payload_digest agent (some claim) outcome ≡ ok (some item)
    → IsAgentName (agent_name agent)
    → log_items log ≡ ok items
    → review_resolutions log ≡ ok rs
    → contains (ids items) item.item_id ≡ false
    → contains (resolved_ids rs) item.item_id ≡ false
    → let after = log ++ placed digest_of log (items_event writer job now (item ∷ [])) ∷ [] in
      (names : List String) × (pending_agents after ≡ ok names)
      × (contains names (agent_name agent) ≡ true)
      × ((payloads : Json) × (drafted claim outcome ≡ ok payloads)
          × (item.item_id ≡ item_id_for (agent_name agent) (payload_digest payloads)))
unfolding log_items decided_in
fresh_draft-waits payload_digest agent claim outcome item digest_of log job writer now {items} {rs}
      raised name read decided' fresh undecided =
    let ev = placed digest_of log (items_event writer job now (item ∷ [])) in
    let (payloads, a, full, named, draft, constructed, permitted) =
      claimed_review-Named payload_digest agent claim outcome item raised in
    let (found, b, same) = bind_inversion (raised_in log) _ read in
    let same' : unique_items found ≡ items = cc in
    let gate : GateState = record { items = keep_if is_draft items; resolutions = rs } in
    let after : GateState = record gate { items = gate.items ++ item ∷ [] } in
    let own : raised_by ev ≡ ok (item ∷ []) =
      raised_by-items_event digest_of log job writer now item constructed in
    let plain : review_resolutions (log ++ ev ∷ []) ≡ ok rs =
      review_resolutions-plain log ev refl decided' in
    let read' : log_items (log ++ ev ∷ []) ≡ ok (items ++ item ∷ []) =
      bind_ok (raised_in (log ++ ev ∷ [])) (λ l. ok (unique_items l))
        (raised_in-snoc log ev (item ∷ []) own b)
      ∙ ap ok (unique_items-snoc found item (ap (λ l. contains (ids l) item.item_id) same' ∙ fresh))
      ∙ ap (λ l. ok (l ++ item ∷ [])) same' in
    let open' : contains (ids (unresolved after)) item.item_id ≡ true =
      open-last gate item (contains-drafts items item.item_id fresh) undecided in
    (
      agents_of (unresolved after),
      pending_agents-of (log ++ ev ∷ []) (items ++ item ∷ []) rs read' plain
          ∙ ap (λ l. ok (agents_of (unresolved (record { items = l; resolutions = rs }))))
              (keep_if-snoc items item draft),
      agents_of-contains (unresolved after) item.item_id (agent_name agent) open' (
          ap review_agent_id named
          ∙ review_agent_id-item_id_for (agent_name agent) (payload_digest payloads) name),
      (payloads, a, named),
    )
