-- ===== src/Job/Log.antt =====
-- job_handle.py, the module's functions: the gate, the status, the draft and the destination of a
-- job, each folded from its log.
pub mod Gate
pub mod Status
use Prim.Native.Char.{code}
use Prim.Native.String.{String}
use rda_data_director.Prelude.{
  ℕ, zero, suc, Bool, true, false, not, ◌&&◌, List, [], ◌∷◌, ◌++◌, Option, none, some, Result, ok,
  err, ◌>>=◌, value_error, key_error, other_exception, str_eq, ◌==◌, contains, any, keep_if,
  if◌then◌else◌,
}
use rda_data_director.Contracts.Primitives.{Orcid}
use rda_data_director.Contracts.Payload.{
  Json, null, bool, nat, neg, text, array, object, Items, nil, cons, Fields, end, field, get, find,
  truthy, is_text, is_null, list_at, a_text, text_or_null,
}
use rda_data_director.Contracts.Events.{Event, EventKind, is_none}
use rda_data_director.Contracts.Gate.{GateItem, Resolution, GateState}
use rda_data_director.Job.Items.{validate_item, decision_of}

-- `items.extend(GateItem.model_validate(raw) for raw in ...)`
unfoldable pub validate_all : List Json → Result (List GateItem)
validate_all [] = ok []
validate_all (raw ∷ more) = do
  item ← validate_item raw
  items ← validate_all more
  ok (item ∷ items)

abbrev pub is_items_added : Event → Bool
is_items_added ev = is_text "gate.items-added" (get "marker" ev.payload)

-- The items that an entry with the marker carries.
unfoldable pub items_in : Event → Result (List GateItem)
items_in ev = do raws ← list_at (find "items" ev.payload); validate_all raws

abbrev pub raised_by : Event → Result (List GateItem)
raised_by ev = if is_items_added ev then items_in ev else ok []

unfoldable pub raised_in : List Event → Result (List GateItem)
raised_in [] = ok []
raised_in (ev ∷ events) = do first ← raised_by ev; rest ← raised_in events; ok (first ++ rest)

-- The loop of `unique_items`, with the set `seen`.
unfoldable pub unique_from : List String → List GateItem → List GateItem
unique_from seen [] = []
unique_from seen (item ∷ items) = elim (contains seen item.item_id) [
  | true ↦ unique_from seen items
  | false ↦ item ∷ unique_from (item.item_id ∷ seen) items
]

unfoldable pub unique_items : List GateItem → List GateItem
unfolding unique_from
unique_items items = unique_from [] items

unfoldable pub log_items : List Event → Result (List GateItem)
unfolding raised_in items_in validate_all unique_items
log_items events = do items ← raised_in events; ok (unique_items items)

pub record JobStatus : Type 0 where
  pub blocked : Bool
  pub reasons : List String
  pub unresolved : List GateItem

-- A member of the set `resolved`: an item's id is a text, which a number never equals; a list or an
-- object cannot be in a set.
abbrev pub set_member : Json → Result (List String)
set_member (text s) = ok (if str_eq s "" then [] else s ∷ [])
set_member (array (cons v vs)) = err other_exception
set_member (object (field k v fs)) = err other_exception
set_member _ = ok []

unfoldable pub decided_by_kind : EventKind → Event → Result (List String)
decided_by_kind EventKind.redaction_decided ev = set_member (get "item_id" ev.payload)
decided_by_kind _ ev = ok []

unfoldable pub decided_ids : List Event → Result (List String)
decided_ids [] = ok []
decided_ids (ev ∷ events) = do
  first ← decided_by_kind ev.kind ev
  rest ← decided_ids events
  ok (first ++ rest)

abbrev pub is_confirmation : EventKind → Bool
is_confirmation EventKind.declaration_confirmed = true
is_confirmation _ = false

abbrev pub is_confirmed : List Event → Bool
is_confirmed events = any (λ ev. is_confirmation ev.kind) events

unfoldable pub job_status : List Event → Result JobStatus
unfolding decided_ids decided_by_kind log_items
job_status events = do
  resolved ← decided_ids events
  items ← log_items events
  ok (record {
    blocked = not (is_confirmed events);
    reasons =
        if is_confirmed events then [] else "the depositor's statement is not yet confirmed" ∷ [];
    unresolved = keep_if (λ item. not (contains resolved item.item_id)) items;
  })

abbrev pub item_id_of : Option Json → Result String
item_id_of none = err key_error
item_id_of (some v) = a_text v

abbrev pub required : Option Json → Result Json
required none = err key_error
required (some v) = ok v

-- `Resolution(item_id=event.payload["item_id"], ...)`: the two keys are read before the values are
-- validated.
unfoldable pub resolution_of : Event → Orcid → Result Resolution
resolution_of ev human = do
  id ← required (find "item_id" ev.payload)
  d ← required (find "decision" ev.payload)
  decision ← decision_of d
  item_id ← a_text id
  reason ← text_or_null (get "reason" ev.payload)
  ok (record {
    item_id = item_id;
    decision = decision;
    decided_by = human;
    reason = reason;
    decided_at = ev.occurred_at;
  })

abbrev pub with_decision : GateState → Event → Option Orcid → Result GateState
with_decision gate ev none = ok gate
with_decision gate ev (some human) = do
  r ← resolution_of ev human
  ok (record gate { resolutions = gate.resolutions ++ r ∷ [] })

abbrev pub with_items : GateState → Event → Result GateState
with_items gate ev = do items ← raised_by ev; ok (record gate { items = gate.items ++ items })

-- One round of the loop of `build_gate`.
unfoldable pub note_gate : GateState → EventKind → Event → Result GateState
unfolding resolution_of items_in validate_all
note_gate gate EventKind.redaction_proposed ev = with_items gate ev
note_gate gate EventKind.redaction_decided ev = with_decision gate ev ev.human
note_gate gate _ ev = ok gate

unfoldable pub gate_loop : GateState → List Event → Result GateState
gate_loop gate [] = ok gate
gate_loop gate (ev ∷ events) = do next ← note_gate gate ev.kind ev; gate_loop next events

abbrev pub empty_gate : GateState
empty_gate = record { items = []; resolutions = [] }

abbrev pub unique_gate : GateState → GateState
unique_gate gate = record gate { items = unique_items gate.items }

-- `build_gate`, and `JobService.gate` with the same body
unfoldable pub build_gate : List Event → Result GateState
unfolding gate_loop note_gate unique_items
build_gate events = do gate ← gate_loop empty_gate events; ok (unique_gate gate)
