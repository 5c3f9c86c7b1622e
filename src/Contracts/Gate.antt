-- ===== src/Contracts/Gate.antt =====
-- gate.py: everything that waits for a decision of a person, and what is still open. Sets of
-- identifiers are lists that are only asked for membership.
pub mod Supersede
pub mod Open
use Prim.Native.String.{String}
use rda_data_director.Prelude.{
  ℕ, zero, suc, Bool, true, false, not, ◌&&◌, List, [], ◌∷◌, ◌++◌, Option, none, some, Result, ok,
  err, value_error, str_eq, ltb, ◌==◌, max, contains, any, keep_if, split_on, if◌then◌else◌,
}
use rda_data_director.Contracts.Primitives.{Orcid}

pub data GateItemKind : Type 0 where
  care_referral uninspected_file redaction_proposal declaration_discrepancy : GateItemKind
  dmp_discrepancy llm_output : GateItemKind

pub data Treatment : Type 0 where
  suppress generalise pseudonymise coarsen : Treatment

-- provenance.py: why material is withheld.
pub data ReasonCode : Type 0 where
  personal_data third_party_rights embargo indigenous_governance commercial : ReasonCode

pub data ItemDecision : Type 0 where
  approve reject consulted not_applicable acknowledge inspected_externally : ItemDecision
  publish_as_is exclude_from_deposit classify_sensitive edited request_rerun : ItemDecision

-- `decision not in NON_VALIDATING_DECISIONS`
abbrev pub counts_as_validation : ItemDecision → Bool
counts_as_validation request_rerun = false
counts_as_validation _ = true

pub record RedactionProposal : Type 0 where
  pub artefact : String
  pub location : String
  pub reason_code : ReasonCode
  pub treatment : Treatment
  pub evidence : String

pub record GateItem : Type 0 where
  pub item_id : String
  pub kind : GateItemKind
  pub artefact : Option String
  pub summary : String
  pub detail : List String
  pub proposal : Option RedactionProposal
  pub permitted_decisions : List ItemDecision

-- The check of `GateItem(...)`.
unfoldable pub construct_item : GateItem → Result GateItem
construct_item item = elim item.permitted_decisions [ [] ↦ err value_error | d ∷ ds ↦ ok item ]

pub record Resolution : Type 0 where
  pub item_id : String
  pub decision : ItemDecision
  pub decided_by : Orcid
  pub reason : Option String
  pub decided_at : ℕ

pub record GateState : Type 0 where
  pub items : List GateItem
  pub resolutions : List Resolution

-- `parts[1] or None`
abbrev pub non_empty : String → Option String
non_empty String.[] = none
non_empty (String.◌∷◌ c s) = some (String.◌∷◌ c s)

abbrev pub agent_segment : List String → Option String
agent_segment (family ∷ agent ∷ digest ∷ more) = elim (str_eq family "llm-output") [
  | true ↦ non_empty agent
  | false ↦ none
]
agent_segment _ = none

unfoldable pub review_agent_id : String → Option String
review_agent_id item_id = agent_segment (split_on b':' item_id)

abbrev pub agent_of_kind : GateItemKind → String → Option String
agent_of_kind llm_output item_id = review_agent_id item_id
agent_of_kind _ item_id = none

unfoldable pub review_agent : GateItem → Option String
review_agent item = agent_of_kind item.kind item.item_id

-- `GateState.resolved_ids`
abbrev pub resolved_ids : List Resolution → List String
resolved_ids [] = []
resolved_ids (r ∷ rs) =
    let rest = resolved_ids rs in
    elim (counts_as_validation r.decision) [ true ↦ r.item_id ∷ rest | false ↦ rest ]

-- The dictionary `latest`: for each agent the position of its newest validated draft.
abbrev pub Latest : Type 0
Latest = List (String × ℕ)

abbrev pub latest_of : Latest → String → Option ℕ
latest_of [] agent = none
latest_of ((a, n) ∷ l) agent = if str_eq a agent then some n else latest_of l agent

-- `latest[agent] = max(latest.get(agent, -1), position)`
abbrev pub raise_latest : Latest → String → ℕ → Latest
raise_latest [] agent position = (agent, position) ∷ []
raise_latest ((a, n) ∷ l) agent position =
    if str_eq a agent then (a, max n position) ∷ l else (a, n) ∷ raise_latest l agent position

abbrev note_validated : List String → Latest → ℕ → GateItem → Option String → Latest
note_validated resolved latest position item none = latest
note_validated resolved latest position item (some agent) =
    if contains resolved item.item_id then raise_latest latest agent position else latest

-- The first loop of `superseded_ids`, from a position.
unfoldable pub latest_from : List String → Latest → ℕ → List GateItem → Latest
latest_from resolved latest position [] = latest
latest_from resolved latest position (item ∷ items) =
    latest_from resolved (note_validated resolved latest position item (review_agent item))
      (suc position) items

-- `position < latest.get(agent, -1)`
abbrev pub before_latest : ℕ → Option ℕ → Bool
before_latest position none = false
before_latest position (some n) = ltb position n

abbrev pub is_superseded : List String → Latest → ℕ → GateItem → Option String → Bool
is_superseded resolved latest position item none = false
is_superseded resolved latest position item (some agent) =
    not (contains resolved item.item_id) && before_latest position (latest_of latest agent)

-- The second loop.
unfoldable pub superseded_from : List String → Latest → ℕ → List GateItem → List String
superseded_from resolved latest position [] = []
superseded_from resolved latest position (item ∷ items) =
    let rest = superseded_from resolved latest (suc position) items in
    elim (is_superseded resolved latest position item (review_agent item)) [
      | true ↦ item.item_id ∷ rest
      | false ↦ rest
    ]

unfoldable pub superseded_ids : GateState → List String
unfolding latest_from superseded_from
superseded_ids state =
    let resolved = resolved_ids state.resolutions in
    superseded_from resolved (latest_from resolved [] 0 state.items) 0 state.items

abbrev pub is_open : List String → GateItem → Bool
is_open settled item = not (contains settled item.item_id)

-- `GateState.unresolved`
unfoldable pub unresolved : GateState → List GateItem
unresolved state =
    keep_if (is_open (resolved_ids state.resolutions ++ superseded_ids state)) state.items

unfoldable pub blocks_deposit : GateState → Bool
blocks_deposit state = elim (unresolved state) [ [] ↦ false | item ∷ items ↦ true ]

abbrev pub is_exclusion : ItemDecision → Bool
is_exclusion exclude_from_deposit = true
is_exclusion _ = false

-- `by_id.get(item_id)`: the last item of a name wins.
abbrev pub item_by_id : String → List GateItem → Option GateItem
item_by_id id [] = none
item_by_id id (item ∷ items) = elim (item_by_id id items) [
  | some later ↦ some later
  | none ↦ if str_eq item.item_id id then some item else none
]

abbrev pub artefact_named : Option GateItem → List String
artefact_named none = []
artefact_named (some item) = elim item.artefact [
  | none ↦ []
  | some a ↦ if str_eq a "" then [] else a ∷ []
]

-- `GateState.excluded_artefacts`, as a set.
unfoldable pub excluded_artefacts : List GateItem → List Resolution → List String
excluded_artefacts items [] = []
excluded_artefacts items (r ∷ rs) =
    (if is_exclusion r.decision then artefact_named (item_by_id r.item_id items) else [])
    ++ excluded_artefacts items rs
