-- ===== src/Samples/GraphWitnesses.antt =====
-- The theorems on the graph of the workflow at concrete inputs.
use rda_data_director.Prelude.{
  ◌≡◌, ◌≢◌, ◌↔◌, refl, String, true, false, List, [], ◌∷◌, some, ok, err, recursion_error, contains,
  ◌⊎◌, inl,
}
use rda_data_director.Contracts.Payload.{Json}
use rda_data_director.Contracts.Events.{EventKind}
use rda_data_director.Workflow.Graph.{
  Node, WorkflowGraph, construct_graph, reachable, orphans, walk, scan_edges, is_next, next_node,
  blocking_human_node,
}
use rda_data_director.Workflow.Graph.Ends.{next_node-ends}
use rda_data_director.Workflow.Graph.Reach.{Reaches, reachable_exact}
use rda_data_director.Workflow.Graph.Walk.{IsReached, next_node-IsReached}
use rda_data_director.Workflow.Definition.{is_classified, workflow_nodes, workflow_edges, build}
use rda_data_director.Workflow.Definition.Order.{
  comes_first, nothing_before_confirmation, build-orphans,
}
use rda_data_director.Samples.StateWitnesses.{base_state}

abbrev shown : Json → String
shown v = "obs.csv"

abbrev same_text : String → String
same_text s = s

abbrev the_graph : WorkflowGraph
the_graph = record { nodes = workflow_nodes; edges = workflow_edges shown same_text }

the_graph_built : build shown same_text [] ≡ ok the_graph
unfolding build construct_graph
the_graph_built = refl

abbrev ingest : Node
ingest = record {
  name = "ingest";
  label = "Take in the submission";
  agent = some "ingestion";
  serves = "R1" ∷ [];
  produces = EventKind.material_registered ∷ [];
  requires = [];
  human = false;
}

ingest_next : next_node the_graph base_state [] ≡ ok (some ingest)
unfolding next_node walk scan_edges
ingest_next = refl

reachable_exact_example :
    (r : List String) × (reachable the_graph ≡ some r)
    × ((n : String) → (contains r n ≡ true) ↔ (Reaches the_graph n × (n ≢ "start")))
reachable_exact_example = reachable_exact the_graph

next_node-IsReached_example : IsReached the_graph base_state (is_next base_state []) ingest
next_node-IsReached_example = (next_node-IsReached the_graph base_state [] ingest).0 ingest_next

nothing_before_confirmation_example :
    (comes_first "ingest" ≡ true) ⊎ (is_classified base_state.classification ≡ true)
nothing_before_confirmation_example =
    nothing_before_confirmation shown same_text [] the_graph base_state [] ingest the_graph_built
      (inl ingest_next)

build-orphans_example : orphans the_graph ≡ some []
build-orphans_example = build-orphans shown same_text [] the_graph the_graph_built

next_node-ends_example :
    (next_node the_graph base_state [] ≢ err recursion_error)
    × (blocking_human_node the_graph base_state [] ≢ err recursion_error)
next_node-ends_example = next_node-ends the_graph base_state []
