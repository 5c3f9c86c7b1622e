-- ===== src/Workflow/Graph.antt =====
-- workflow/graph.py: the workflow as nodes and conditional edges. The dictionary `nodes` is the list
-- that it is made from, of which the last node of a name counts.
pub mod Edges
pub mod Reach
pub mod Walk
pub mod Ends
use rda_data_director.Prelude.{
  ℕ, zero, suc, String, Bool, true, false, not, ◌&&◌, ◌||◌, List, [], ◌∷◌, ◌++◌, map, Option, none,
  some, Result, ok, err, ◌>>=◌, ◌>>◌, value_error, key_error, recursion_error, raise_if, str_eq,
  contains, keep_if, any, all, length, if◌then◌else◌,
}
use rda_data_director.Contracts.Events.{EventKind}
use rda_data_director.State.Store.{insert_text}
use rda_data_director.State.Projection.{JobState}

pub record Condition : Type 0 where
  pub description : String
  pub holds : JobState → Bool

abbrev pub always : Condition
always = record { description = "always"; holds = λ state. true }

pub record Node : Type 0 where
  pub name : String
  pub label : String
  pub agent : Option String
  pub serves : List String
  pub produces : List EventKind
  pub requires : List Condition
  pub human : Bool

abbrev pub automatic : Node → Bool
automatic node = not node.human

-- `node(state)`
abbrev pub own_conditions : Node → JobState → Bool
own_conditions node state = all (λ c. c.holds state) node.requires

pub record Edge : Type 0 where
  pub source : String
  pub target : String
  pub when : Condition

pub record WorkflowGraph : Type 0 where
  pub nodes : List Node
  pub edges : List Edge

abbrev pub entry : String
entry = "start"

abbrev pub node_names : List Node → List String
node_names nodes = map (λ n. n.name) nodes

-- `self.nodes[name]`
abbrev pub find_node : String → List Node → Option Node
find_node name [] = none
find_node name (n ∷ ns) = elim (find_node name ns) [
  | some later ↦ some later
  | none ↦ if str_eq n.name name then some n else none
]

abbrev is_end : List Node → String → Bool
is_end nodes name = contains (node_names nodes) name || str_eq name entry

abbrev pub validates : List Node → List Edge → Bool
validates nodes edges = all (λ e. is_end nodes e.source && is_end nodes e.target) edges

-- `node.agent or node.name`
abbrev agent_key : Node → Option String → String
agent_key node none = node.name
agent_key node (some a) = if str_eq a "" then node.name else a

abbrev is_registered : List String → Node → Bool
is_registered agents node =
    if node.human && no_agent node.agent then true else contains agents (agent_key node node.agent)
  where
    no_agent : Option String → Bool
    no_agent none = true
    no_agent (some a) = false

abbrev none_registered : List String → Bool
none_registered [] = true
none_registered (a ∷ agents) = false

-- `_require_registered`; a missing registry is an empty one
abbrev pub registered : List String → List Node → Bool
registered agents nodes = none_registered agents || all (is_registered agents) nodes

-- `WorkflowGraph(nodes, edges, agents)`
unfoldable pub construct_graph : List Node → List Edge → List String → Result WorkflowGraph
construct_graph nodes edges agents = do
  raise_if (not (validates nodes edges)) value_error
  raise_if (not (registered agents nodes)) value_error
  ok (record { nodes = nodes; edges = edges })

abbrev pub successors : WorkflowGraph → String → List Edge
successors g name = keep_if (λ e. str_eq e.source name) g.edges

abbrev pub predecessors : WorkflowGraph → String → List String
predecessors g name = map (λ e. e.source) (keep_if (λ e. str_eq e.target name) g.edges)

-- `stack += [e.target for e in ...]`: the end of the Python list is the head of this one.
abbrev pub push_targets : List Edge → List String → List String
push_targets [] stack = stack
push_targets (e ∷ es) stack = push_targets es (e.target ∷ stack)

-- The loop of `reachable`. Each round takes one name off the stack, and each edge puts its target
-- on it once, so one more round than there are edges is enough.
unfoldable pub reach_loop : WorkflowGraph → ℕ → List String → List String → Option (List String)
reach_loop g fuel [] seen = some seen
reach_loop g zero (name ∷ stack) seen = none
reach_loop g (suc fuel) (name ∷ stack) seen =
    let known = reach_loop g fuel stack seen in
    let fresh = reach_loop g fuel (push_targets (successors g name) stack) (name ∷ seen) in
    if contains seen name then known else fresh

abbrev without_entry : List String → List String
without_entry seen = keep_if (λ n. not (str_eq n entry)) seen

-- `reachable`, as a set
unfoldable pub reachable : WorkflowGraph → Option (List String)
unfolding reach_loop
reachable g = elim (reach_loop g (suc (length g.edges)) (entry ∷ []) []) [
  | none ↦ none
  | some seen ↦ some (without_entry seen)
]

abbrev sort_names : List String → List String
sort_names [] = []
sort_names (n ∷ ns) = insert_text n (sort_names ns)

-- The names of a dictionary: each once.
abbrev distinct : List String → List String
distinct [] = []
distinct (n ∷ ns) = let rest = distinct ns in if contains ns n then rest else n ∷ rest

unfoldable pub orphans : WorkflowGraph → Option (List String)
unfolding reachable
orphans g = elim (reachable g) [
  | none ↦ none
  | some seen ↦
      some (sort_names (keep_if (λ n. not (contains seen n)) (distinct (node_names g.nodes))))
]

-- What the loop over the edges of one node comes to: a node to return, or targets to walk to.
pub data Scanned : Type 0 where
  taken : Node → Scanned
  onward : List String → Scanned

abbrev pub scan_node : (Node → Bool) → Option Node → List String → Result Scanned
scan_node test none ahead = err key_error
scan_node test (some node) ahead = if test node then ok (taken node) else ok (onward ahead)

abbrev pub and_then : Result Scanned → (List String → Result Scanned) → Result Scanned
and_then (err e) next = err e
and_then (ok (taken node)) next = ok (taken node)
and_then (ok (onward ahead)) next = next ahead

unfoldable pub scan_edges :
    WorkflowGraph → JobState → (Node → Bool) → List Edge → List String → Result Scanned
scan_edges g state test [] ahead = ok (onward ahead)
scan_edges g state test (e ∷ es) ahead =
    let skipped = scan_edges g state test es ahead in
    if e.when.holds state
    then and_then (scan_node test (find_node e.target g.nodes) (ahead ++ e.target ∷ []))
        (λ more. scan_edges g state test es more)
    else skipped

abbrev pub walk_on : Result Scanned → (List String → Result (Option Node)) → Result (Option Node)
walk_on (err e) next = err e
walk_on (ok (taken node)) next = ok (some node)
walk_on (ok (onward ahead)) next = next ahead

-- The walk that `next_node` and `blocking_human_node` share, each with its own test.
unfoldable pub walk :
    WorkflowGraph → JobState → (Node → Bool) → ℕ → List String → List String → Result (Option Node)
unfolding scan_edges
walk g state test fuel [] seen = ok none
walk g state test zero (name ∷ frontier) seen = err recursion_error
walk g state test (suc fuel) (name ∷ frontier) seen =
    let known = walk g state test fuel frontier seen in
    if contains seen name
    then known
    else walk_on (scan_edges g state test (successors g name) frontier)
        (λ ahead. walk g state test fuel ahead (name ∷ seen))

abbrev pub is_next : JobState → List String → Node → Bool
is_next state done node =
    not (contains done node.name) && automatic node && own_conditions node state

abbrev pub is_blocking : List String → Node → Bool
is_blocking done node = node.human && not (contains done node.name)

unfoldable pub next_node : WorkflowGraph → JobState → List String → Result (Option Node)
next_node g state done = walk g state (is_next state done) (suc (length g.edges)) (entry ∷ []) []

unfoldable pub blocking_human_node : WorkflowGraph → JobState → List String → Result (Option Node)
blocking_human_node g state done =
    walk g state (is_blocking done) (suc (length g.edges)) (entry ∷ []) []
