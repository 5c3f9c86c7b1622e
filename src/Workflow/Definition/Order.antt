-- ===== src/Workflow/Definition/Order.antt =====
-- In which order the workflow of the definition can run.
use mathlib.Core.List.{Memᴰ}
use mathlib.Core.List.Memᴰ
use mathlib.Core.List.Memᴰ.{head, tail}
use rda_data_director.Prelude.{
  ◌≡◌, refl, sym, ap, ◌∙◌, subst, ◌⊎◌, inl, inr, String, Bool, true, false, not, List, [], ◌∷◌,
  Option, none, some, ok, All, contains, str_eq, eq_iff, bind_inversion, raise_if, value_error,
  if◌then◌else◌,
}
use rda_data_director.Contracts.Payload.{Json}
use rda_data_director.State.Projection.{JobState}
use rda_data_director.Workflow.Graph.{
  Node, Edge, WorkflowGraph, construct_graph, validates, registered, reach_loop,
  blocking_human_node, find_node, orphans, reachable, next_node,
}
use rda_data_director.Workflow.Graph.Walk.{Leads, at_entry, along, next_node-IsReached}
use rda_data_director.Workflow.Definition.{is_classified, workflow_nodes, workflow_edges, build}

-- The nodes that come before the depositor has confirmed what the data is.
abbrev pub comes_first : String → Bool
comes_first name =
    contains ("start" ∷ "ingest" ∷ "dmp" ∷ "declaration" ∷ "confirm_declaration" ∷ []) name

All-lookup {ℓ κ} : {A : Type ℓ} (P : A → Type κ) {a : A} (xs : List A) → All P xs → Memᴰ a xs → P a
All-lookup P (x ∷ xs) (here, more) (head same) = subst P (sym same) here
All-lookup P (x ∷ xs) (here, more) (tail m) = All-lookup P xs more m
All-lookup P [] ps m = absurd (Memᴰ.not-nil m)

construct_graph-same :
    (nodes : List Node) (edges : List Edge) (agents : List String) (g : WorkflowGraph)
    → construct_graph nodes edges agents ≡ ok g
    → record { nodes = nodes; edges = edges } ≡ g
unfolding construct_graph
construct_graph-same nodes edges agents g h =
    let (_, _, h1) = bind_inversion (raise_if (not (validates nodes edges)) value_error) _ h in
    let (_, _, h2) = bind_inversion (raise_if (not (registered agents nodes)) value_error) _ h1 in
    cc

find_node-name :
    (name : String) (nodes : List Node) (node : Node)
    → find_node name nodes ≡ some node
    → node.name ≡ name
find_node-name name [] node h = cc
find_node-name name (n ∷ ns) node h =
    by_later (find_node name ns) refl (str_eq n.name name) refl (find_node-name name ns node) h
  where
    by_later :
        (o : Option Node)
        → find_node name ns ≡ o
        → (t : Bool) → str_eq n.name name ≡ t
        → (find_node name ns ≡ some node → node.name ≡ name)
        → elim o [ some later ↦ some later | none ↦ if t then some n else none ] ≡ some node
        → node.name ≡ name
    by_later (some later) e t f below h = below (e ∙ h)
    by_later none e true f below h =
        let same : n ≡ node = cc in ap (λ (m : Node). m.name) (sym same) ∙ (eq_iff n.name name).0 f
    by_later none e false f below h = cc

module _ (show : Json → String) (lower : String → String) where
  -- An edge from the first nodes to the others asks for the confirmation.
  unfoldable IsOrdered : JobState → Edge → Type 0
  IsOrdered state e =
      (comes_first e.target ≡ true)
      ⊎ ((comes_first e.source ≡ false)
          ⊎ (e.when.holds state ≡ true → is_classified state.classification ≡ true))

  All-IsOrdered : (state : JobState) → All (IsOrdered state) (workflow_edges show lower)
  unfolding IsOrdered
  All-IsOrdered state = (
    inl refl,
    (
      inl refl,
      (
        inl refl,
        (
          inl refl,
          (
            inr (inr (λ h. h)),
            (
              inr (inl refl),
              (
                inr (inl refl),
                (
                  inr (inl refl),
                  (
                    inr (inl refl),
                    (
                      inr (inl refl),
                      (
                        inr (inl refl),
                        (inr (inl refl), (inr (inl refl), (inr (inl refl), (inr (inl refl), tt)))),
                      ),
                    ),
                  ),
                ),
              ),
            ),
          ),
        ),
      ),
    ),
  )

  Leads-confirmed :
      (nodes : List Node) (state : JobState) (name : String)
      → Leads (record { nodes = nodes; edges = workflow_edges show lower }) state name
      → comes_first name ≡ false
      → is_classified state.classification ≡ true
  unfolding IsOrdered
  Leads-confirmed nodes state name at_entry late = cc
  Leads-confirmed nodes state name (along e m holds path) late =
      by_order (All-lookup (IsOrdered state) (workflow_edges show lower) (All-IsOrdered state) m)
        (Leads-confirmed nodes state e.source path)
    where
      by_order :
          (comes_first e.target ≡ true)
            ⊎ ((comes_first e.source ≡ false)
                ⊎ (e.when.holds state ≡ true → is_classified state.classification ≡ true))
          → (comes_first e.source ≡ false → is_classified state.classification ≡ true)
          → is_classified state.classification ≡ true
      by_order (inl first) before = cc
      by_order (inr (inl late_source)) before = before late_source
      by_order (inr (inr asks)) before = asks holds

  build-graph :
      (agents : List String) (g : WorkflowGraph)
      → build show lower agents ≡ ok g
      → record { nodes = workflow_nodes; edges = workflow_edges show lower } ≡ g
  unfolding build
  build-graph agents g h =
      construct_graph-same workflow_nodes (workflow_edges show lower) agents g h

  -- Nothing that reads the data comes before the depositor's confirmation: in the workflow that
  -- `build` makes, with whatever registry, a node that `next_node` returns, or that blocks on a
  -- person, is one of the first four, or the job has a classification, which a confirmed
  -- declaration gives it.
  pub nothing_before_confirmation :
      (agents : List String) (g : WorkflowGraph) (state : JobState) (done : List String)
      (node : Node)
      → build show lower agents ≡ ok g
      → (next_node g state done ≡ ok (some node))
        ⊎ (blocking_human_node g state done ≡ ok (some node))
      → (comes_first node.name ≡ true) ⊎ (is_classified state.classification ≡ true)
  nothing_before_confirmation agents g state done node built h = by_kind h
    where
      confirmed :
          (name : String)
          → Leads g state name
          → find_node name g.nodes ≡ some node
          → (comes_first node.name ≡ true) ⊎ (is_classified state.classification ≡ true)
      confirmed name path found = by_place (comes_first node.name) refl (
          subst (λ g. Leads g state node.name) (sym (build-graph agents g built))
            (subst (Leads g state) (sym (find_node-name name g.nodes node found)) path))
        where
          by_place :
              (b : Bool)
              → comes_first node.name ≡ b
              → Leads
                  (record { nodes = workflow_nodes; edges = workflow_edges show lower })
                  state
                  node.name
              → (b ≡ true) ⊎ (is_classified state.classification ≡ true)
          by_place true e path = inl refl
          by_place false e path = inr (Leads-confirmed workflow_nodes state node.name path e)

      by_kind :
          (next_node g state done ≡ ok (some node))
            ⊎ (blocking_human_node g state done ≡ ok (some node))
          → (comes_first node.name ≡ true) ⊎ (is_classified state.classification ≡ true)
      by_kind (inl h) =
          let r = (next_node-IsReached g state done node).0 h in confirmed r.name r.path r.found
      by_kind (inr h) =
          let r = (next_node-IsReached g state done node).1 h in confirmed r.name r.path r.found

  no_orphan :
      orphans (record { nodes = workflow_nodes; edges = workflow_edges show lower }) ≡ some []
  unfolding orphans reachable reach_loop
  no_orphan = refl

  -- The workflow that `build` makes, with whatever registry, has no orphan.
  pub build-orphans :
      (agents : List String) (g : WorkflowGraph)
      → build show lower agents ≡ ok g
      → orphans g ≡ some []
  build-orphans agents g built =
      subst (λ g. orphans g ≡ some []) (build-graph agents g built) no_orphan
