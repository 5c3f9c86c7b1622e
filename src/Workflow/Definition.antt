-- ===== src/Workflow/Definition.antt =====
-- workflow/definition.py: the workflow that the system performs. `show` is Python's `str` of a JSON
-- value and `lower` its lower case, which follows the tables of Unicode.
pub mod Order
use rda_data_director.Prelude.{
  String, Bool, true, false, ◌||◌, List, [], ◌∷◌, Option, none, some, Result, ltb, leb, any, str_eq,
  if◌then◌else◌,
}
use rda_data_director.Contracts.Payload.{Json}
use rda_data_director.Contracts.Sensitivity.{Classification, sensitive, level_value}
use rda_data_director.Contracts.Events.{EventKind}
use rda_data_director.State.Projection.{JobState}
use rda_data_director.Workflow.Graph.{
  Condition, always, Node, Edge, WorkflowGraph, entry, construct_graph,
}

abbrev is_drafted : EventKind → Bool
is_drafted EventKind.metadata_drafted = true
is_drafted _ = false

abbrev is_validated : EventKind → Bool
is_validated EventKind.validation_completed = true
is_validated _ = false

abbrev some_material : List Json → Bool
some_material [] = false
some_material (m ∷ ms) = true

abbrev pub material_received : Condition
material_received = record {
  description = "material has been registered";
  holds = λ s. some_material s.material;
}

abbrev pub is_classified : Option Classification → Bool
is_classified none = false
is_classified (some c) = true

abbrev pub declaration_confirmed : Condition
declaration_confirmed = record {
  description = "the depositor has confirmed their statement";
  holds = λ s. is_classified s.classification;
}

-- `s.endswith(suffix)`
abbrev ends_with : String → String → Bool
ends_with String.[] suffix = str_eq "" suffix
ends_with (String.◌∷◌ c s) suffix = str_eq (String.◌∷◌ c s) suffix || ends_with s suffix

abbrev media_suffixes : List String
media_suffixes =
    ".jpg" ∷ ".jpeg" ∷ ".png" ∷ ".tif" ∷ ".tiff" ∷ ".gif" ∷ ".webp" ∷ ".mp3" ∷ ".wav" ∷ ".flac"
    ∷ ".dcm" ∷ []

abbrev at_least_sensitive : Option Classification → Bool
at_least_sensitive none = false
at_least_sensitive (some c) = leb (level_value sensitive) (level_value c.level)

abbrev is_sensitive : Condition
is_sensitive = record {
  description = "the material was classified sensitive";
  holds = λ s. at_least_sensitive s.classification;
}

abbrev is_open : Option String → Bool
is_open none = true
is_open (some String.[]) = true
is_open (some (String.◌∷◌ c t)) = false

abbrev not_terminal : Condition
not_terminal = record {
  description = "the job has not already concluded";
  holds = λ s. is_open s.terminal;
}

abbrev statement_recorded : Condition
statement_recorded = record {
  description = "the depositor has recorded their own statement";
  holds = λ s. s.has_statement;
}

abbrev record_drafted : Condition
record_drafted = record {
  description = "a metadata record has been drafted";
  holds = λ s. any is_drafted s.seen_kinds;
}

abbrev record_validated : Condition
record_validated = record {
  description = "the record has been validated";
  holds = λ s. any is_validated s.seen_kinds;
}

abbrev node :
    String → String → Option String → Bool → List String → List EventKind → List Condition → Node
node name label agent human serves produces requires = record {
  name = name;
  label = label;
  agent = agent;
  serves = serves;
  produces = produces;
  requires = requires;
  human = human;
}

abbrev pub workflow_nodes : List Node
workflow_nodes =
    node "ingest" "Take in the submission" (some "ingestion") false ("R1" ∷ [])
      (EventKind.material_registered ∷ []) []
    ∷ node "dmp" "Read the data management plan" (some "dmp") false ("R8" ∷ [])
        (EventKind.dmp_commitments_read ∷ []) []
    ∷ node "declaration" "Your statement about the data" (some "declaration") false
        ("C2" ∷ "P2" ∷ []) (EventKind.declaration_parsed ∷ []) (statement_recorded ∷ [])
    ∷ node "confirm_declaration" "Confirm the proposed claims" none true ("P4" ∷ [])
        (EventKind.declaration_confirmed ∷ []) []
    ∷ node "classification" "Work out what is sensitive" (some "classification") false
        ("C2" ∷ "P3" ∷ []) (EventKind.classification_completed ∷ []) []
    ∷ node "media" "Inspect images and audio" (some "media") false ("C2" ∷ []) [] []
    ∷ node "redaction" "Propose redactions" (some "redaction") false ("C2" ∷ []) [] []
    ∷ node "metadata" "Draft metadata" (some "metadata") false ("R2" ∷ "R3" ∷ [])
        (EventKind.metadata_drafted ∷ []) []
    ∷ node "documentation" "Draft documentation" (some "documentation") false ("R5" ∷ [])
        (EventKind.documentation_drafted ∷ []) (record_drafted ∷ [])
    ∷ node "validation" "Validate the record" (some "validation") false ("R4" ∷ "C15" ∷ [])
        (EventKind.validation_completed ∷ []) (record_drafted ∷ [])
    ∷ node "repository" "Choose where to deposit" (some "repository") false ("R1" ∷ []) [] []
    ∷ node "review" "Your review" none true ("P4" ∷ "C13" ∷ []) (EventKind.redaction_decided ∷ [])
        []
    ∷ node "deposit" "Publish" (some "publication") true ("R7" ∷ "R9" ∷ [])
        (EventKind.deposit_completed ∷ []) (record_validated ∷ [])
    ∷ []

abbrev pub edge : String → String → Condition → Edge
edge source target when = record { source = source; target = target; when = when }

module _ (show : Json → String) (lower : String → String) where
  abbrev is_media : Json → Bool
  is_media p = any (λ suffix. ends_with (lower (show p)) suffix) media_suffixes

  abbrev pub has_images : Condition
  has_images = record {
    description = "the submission contains images or audio";
    holds = λ s. any is_media s.material;
  }

  abbrev pub workflow_edges : List Edge
  workflow_edges =
      edge entry "ingest" always
      ∷ edge "ingest" "dmp" material_received
      ∷ edge "dmp" "declaration" material_received
      ∷ edge "declaration" "confirm_declaration" always
      ∷ edge "confirm_declaration" "classification" declaration_confirmed
      ∷ edge "classification" "media" has_images
      ∷ edge "classification" "metadata" not_terminal
      ∷ edge "media" "metadata" not_terminal
      ∷ edge "classification" "redaction" is_sensitive
      ∷ edge "redaction" "review" always
      ∷ edge "metadata" "documentation" always
      ∷ edge "documentation" "validation" always
      ∷ edge "validation" "repository" always
      ∷ edge "repository" "review" always
      ∷ edge "review" "deposit" always
      ∷ []

  unfoldable pub build : List String → Result WorkflowGraph
  unfolding construct_graph
  build agents = construct_graph workflow_nodes workflow_edges agents
