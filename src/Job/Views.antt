-- ===== src/Job/Views.antt =====
-- job_handle.py, what the newest events of a log say: the draft, the documentation, the destination
-- and the depositor's own words.
use Prim.Native.Char.{code}
use Prim.Native.String.{String}
use rda_data_director.Prelude.{
  Bool, true, false, not, ◌&&◌, List, [], ◌∷◌, Option, none, some, Result, ok, err, ◌>>=◌,
  other_exception, str_eq, ◌==◌, if◌then◌else◌,
}
use rda_data_director.Contracts.Primitives.{strip}
use rda_data_director.Contracts.Payload.{
  Json, null, text, array, object, Fields, get, truthy, is_null, nil,
}
use rda_data_director.Contracts.Events.{Event, EventKind, is_none}
use rda_data_director.Contracts.Gate.{GateItem}
use rda_data_director.Job.Log.{log_items}

-- `for event in reversed(events)` up to the first of a kind: the newest one.
unfoldable pub newest : (Event → Bool) → List Event → Option Event
newest wanted [] = none
newest wanted (ev ∷ events) = elim (newest wanted events) [
  | some later ↦ some later
  | none ↦ if wanted ev then some ev else none
]

abbrev pub is_draft : EventKind → Bool
is_draft EventKind.metadata_drafted = true
is_draft _ = false

abbrev is_documentation : EventKind → Bool
is_documentation EventKind.documentation_drafted = true
is_documentation _ = false

abbrev is_selection : EventKind → Bool
is_selection EventKind.repository_selected = true
is_selection _ = false

-- The newest draft that carries a record; `validate` stands for `CanonicalRecord.model_validate`.
unfoldable pub latest_drafted_record :
    {R : Type 0} → (Json → Result R) → List Event → Result (Option R)
unfolding newest
latest_drafted_record validate events =
    elim (newest (λ ev. is_draft ev.kind && not (is_null (get "record" ev.payload))) events) [
      | none ↦ ok none
      | some ev ↦ do r ← validate (get "record" ev.payload); ok (some r)
    ]

unfoldable pub latest_draft_was_a_persons : List Event → Bool
unfolding newest
latest_draft_was_a_persons events = elim (newest (λ ev. is_draft ev.kind) events) [
  | none ↦ false
  | some ev ↦ not (is_none ev.human)
]

unfoldable pub latest_documentation : List Event → Option Fields
unfolding newest
latest_documentation events = elim (newest (λ ev. is_documentation ev.kind) events) [
  | none ↦ none
  | some ev ↦ some ev.payload
]

pub record Target : Type 0 where
  pub name : String
  pub identifier : Json
  pub source : String

-- `text[len(prefix):]` for a text that starts with the prefix
abbrev after_prefix : String → String → Option String
after_prefix String.[] s = some s
after_prefix (String.◌∷◌ p ps) String.[] = none
after_prefix (String.◌∷◌ p ps) (String.◌∷◌ c s) =
    let rest = after_prefix ps s in if code p == code c then rest else none

-- The newest item whose identifier has the prefix, as what follows it.
abbrev preference_in : List GateItem → Option String
preference_in [] = none
preference_in (item ∷ items) = elim (preference_in items) [
  | some later ↦ some later
  | none ↦ after_prefix "repository-preference:" item.item_id
]

abbrev preferred : Option String → Option Target
preferred none = none
preferred (some name) = some (record { name = name; identifier = null; source = "preference" })

-- `target_repository`; `show` is `str` of a value of a payload.
unfoldable pub target_repository : (Json → String) → List Event → Result (Option Target)
unfolding newest log_items
target_repository show events =
    elim (newest (λ ev. is_selection ev.kind && truthy (get "repository" ev.payload)) events) [
      | some ev ↦ ok (
          some (record {
            name = show (get "repository" ev.payload);
            identifier = get "identifier" ev.payload;
            source = "selected";
          }))
      | none ↦ do items ← log_items events; ok (preferred (preference_in items))
    ]

-- The dictionary of `depositor_context`; a key that is not there is `none`.
pub record DepositorContext : Type 0 where
  pub statement : Option String
  pub instruction : Option String
  pub claims : Option Json
  pub plan_commitments : Option Json

abbrev no_context : DepositorContext
no_context = record { statement = none; instruction = none; claims = none; plan_commitments = none }

-- `_DRAFTING_CHANNELS.get(...)`: TypeError for a value that Python cannot hash.
pub data DraftingChannel : Type 0 where
  statement_channel instruction_channel other_channel : DraftingChannel

abbrev drafting_channel : Json → Result DraftingChannel
drafting_channel (text s) = ok (
    if str_eq s "responsibility-and-compliance-statement"
    then statement_channel
    else if str_eq s "authenticated-depositor"
    then instruction_channel
    else other_channel)
drafting_channel (array vs) = err other_exception
drafting_channel (object fs) = err other_exception
drafting_channel _ = ok other_channel

-- What `context[key]` holds after a text: a text that is there stays, a blank one is left out.
abbrev keep_text : Option String → String → Option String
keep_text (some old) s = some old
keep_text none s = if str_eq s "" then none else some s

abbrev keep_value : Option Json → Json → Option Json
keep_value (some old) v = some old
keep_value none v = some v

-- `payload.get(key) or []`
abbrev or_empty : Json → Json
or_empty v = if truthy v then v else array nil

abbrev with_claims : DepositorContext → Option Json → Json → DepositorContext
with_claims context (some old) v = context
with_claims context none v = if truthy v then record context { claims = some v } else context

module _ (show : Json → String) where
  -- `str(payload.get(key) or "").strip()`
  abbrev said : Json → String
  said v = strip (if truthy v then show v else "")

  abbrev with_instruction : DepositorContext → Fields → DraftingChannel → DepositorContext
  with_instruction context payload statement_channel = record context {
    statement = keep_text context.statement (said (get "statement" payload));
  }
  with_instruction context payload instruction_channel = record context {
    instruction = keep_text context.instruction (said (get "instruction" payload));
  }
  with_instruction context payload other_channel = context

  -- One round of the loop of `depositor_context`.
  unfoldable pub note_context : DepositorContext → EventKind → Fields → Result DepositorContext
  note_context context EventKind.instructions_received payload = do
    channel ← drafting_channel (get "channel" payload)
    ok (with_instruction context payload channel)
  note_context context EventKind.declaration_parsed payload =
      ok (with_claims context context.claims (get "claims" payload))
  note_context context EventKind.dmp_commitments_read payload = ok (record context {
    plan_commitments =
        keep_value context.plan_commitments (or_empty (get "commitments_read" payload));
  })
  note_context context _ payload = ok context

  -- `depositor_context`, from the newest event to the oldest
  unfoldable pub depositor_context : List Event → Result DepositorContext
  unfolding note_context
  depositor_context [] = ok no_context
  depositor_context (ev ∷ events) = do
    later ← depositor_context events
    note_context later ev.kind ev.payload
