-- ===== src/Workflow/Graph/Walk.antt =====
-- Which node `next_node` and `blocking_human_node` return.
use mathlib.Core.List.{Memᴰ}
use mathlib.Core.List.Memᴰ.{head, tail}
use rda_data_director.Prelude.{
  ℕ, zero, suc, ◌≡◌, refl, sym, subst, String, Bool, true, false, List, [], ◌∷◌, ◌++◌, Option, none,
  some, Result, ok, err, eq_iff, str_eq, contains, Memᴰ-keep_if, length, All, All-append,
  if◌then◌else◌,
}
use rda_data_director.State.Projection.{JobState}
use rda_data_director.Workflow.Graph.{
  Node, Edge, WorkflowGraph, entry, find_node, successors, Scanned, taken, onward, scan_node,
  and_then, scan_edges, walk_on, walk, is_next, is_blocking, next_node, blocking_human_node,
}

-- A path of edges from the entry whose conditions all hold on the state.
pub data Leads (g : WorkflowGraph) (state : JobState) : String → Type 0 where
  at_entry : Leads g state entry
  along :
      (e : Edge)
      → Memᴰ e g.edges
      → e.when.holds state ≡ true
      → Leads g state e.source
      → Leads g state e.target

-- The node passes the test, and such a path ends at it.
pub record IsReached (g : WorkflowGraph) (state : JobState) (test : Node → Bool) (node : Node)
    : Type 0 where
  pub name : String
  pub path : Leads g state name
  pub found : find_node name g.nodes ≡ some node
  pub passes : test node ≡ true

module _ (g : WorkflowGraph) (state : JobState) (test : Node → Bool) where
  abbrev IsAhead : List String → Type 0
  IsAhead names = All (Leads g state) names

  abbrev IsSound : Scanned → Type 0
  IsSound (taken node) = IsReached g state test node
  IsSound (onward ahead) = IsAhead ahead

  scan_edges-IsSound :
      (es : List Edge) (ahead : List String) (s : Scanned)
      → ((e : Edge) → Memᴰ e es → Memᴰ e g.edges × Leads g state e.source)
      → IsAhead ahead
      → scan_edges g state test es ahead ≡ ok s
      → IsSound s
  unfolding scan_edges
  scan_edges-IsSound [] ahead s own led h = subst IsSound (ok-same h) led
    where
      ok-same : {a b : Scanned} → ok a ≡ ok b → a ≡ b
      ok-same e = cc
  scan_edges-IsSound (e ∷ es) ahead s own led h =
      by_condition (e.when.holds state) refl
        (λ k. scan_edges-IsSound es ahead s (λ d m. own d (tail m)) led k)
        (λ more led' k. scan_edges-IsSound es more s (λ d m. own d (tail m)) led' k) h
    where
      by_test :
          (o : Option Node)
          → find_node e.target g.nodes ≡ o
          → e.when.holds state ≡ true
          → ((more : List String)
              → IsAhead more
              → scan_edges g state test es more ≡ ok s
              → IsSound s)
          → and_then
              (scan_node test o (ahead ++ e.target ∷ []))
              (λ more. scan_edges g state test es more)
            ≡ ok s
          → IsSound s
      by_test none found holds rest h = cc
      by_test (some node) found holds rest h = by_result (test node) refl h
        where
          path : Leads g state e.target
          path = let (place, source) = own e (head refl) in along e place holds source

          by_result :
              (t : Bool)
              → test node ≡ t
              → and_then
                  (if t then ok (taken node) else ok (onward (ahead ++ e.target ∷ [])))
                  (λ more. scan_edges g state test es more)
                ≡ ok s
              → IsSound s
          by_result true passes h =
              subst IsSound (ok-same h)
                (record { name = e.target; path = path; found = found; passes = passes })
            where
              ok-same : {a b : Scanned} → ok a ≡ ok b → a ≡ b
              ok-same e = cc
          by_result false passes h =
              rest (ahead ++ e.target ∷ [])
                (All-append (Leads g state) ahead (e.target ∷ []) led (path, tt)) h

      by_condition :
          (c : Bool)
          → e.when.holds state ≡ c
          → (scan_edges g state test es ahead ≡ ok s → IsSound s)
          → ((more : List String)
              → IsAhead more
              → scan_edges g state test es more ≡ ok s
              → IsSound s)
          → (if c
              then and_then
                  (scan_node test (find_node e.target g.nodes) (ahead ++ e.target ∷ []))
                  (λ more. scan_edges g state test es more)
              else scan_edges g state test es ahead)
            ≡ ok s
          → IsSound s
      by_condition false holds skip rest h = skip h
      by_condition true holds skip rest h = by_test (find_node e.target g.nodes) refl holds rest h

  walk-IsReached :
      (fuel : ℕ) (frontier seen : List String) (node : Node)
      → IsAhead frontier
      → walk g state test fuel frontier seen ≡ ok (some node)
      → IsReached g state test node
  unfolding walk
  walk-IsReached fuel [] seen node led h = cc
  walk-IsReached zero (name ∷ frontier) seen node led h = cc
  walk-IsReached (suc fuel) (name ∷ frontier) seen node (here, more) h =
      by_seen (contains seen name) h (λ k. walk-IsReached fuel frontier seen node more k)
        (λ ahead led k. walk-IsReached fuel ahead (name ∷ seen) node led k)
    where
      own : (e : Edge) → Memᴰ e (successors g name) → Memᴰ e g.edges × Leads g state e.source
      own e m =
          let (place, same) = Memᴰ-keep_if (λ e. str_eq e.source name) g.edges m in
          (place, subst (Leads g state) (sym ((eq_iff e.source name).0 same)) here)

      by_scan :
          (r : Result Scanned)
          → scan_edges g state test (successors g name) frontier ≡ r
          → ((ahead : List String)
              → IsAhead ahead
              → walk g state test fuel ahead (name ∷ seen) ≡ ok (some node)
              → IsReached g state test node)
          → walk_on r (λ ahead. walk g state test fuel ahead (name ∷ seen)) ≡ ok (some node)
          → IsReached g state test node
      by_scan (err e) same rest h = cc
      by_scan (ok (taken n)) same rest h =
          subst (IsReached g state test) (node-same h)
            (scan_edges-IsSound (successors g name) frontier (taken n) own more same)
        where
          node-same : {a b : Node} → ok (some a) ≡ ok (some b) → a ≡ b
          node-same e = cc
      by_scan (ok (onward ahead)) same rest h =
          rest ahead (scan_edges-IsSound (successors g name) frontier (onward ahead) own more same)
            h

      by_seen :
          (t : Bool)
          → (if t
              then walk g state test fuel frontier seen
              else walk_on
                  (scan_edges g state test (successors g name) frontier)
                  (λ ahead. walk g state test fuel ahead (name ∷ seen)))
            ≡ ok (some node)
          → (walk g state test fuel frontier seen ≡ ok (some node) → IsReached g state test node)
          → ((ahead : List String)
              → IsAhead ahead
              → walk g state test fuel ahead (name ∷ seen) ≡ ok (some node)
              → IsReached g state test node)
          → IsReached g state test node
      by_seen true h skip rest = skip h
      by_seen false h skip rest =
          by_scan (scan_edges g state test (successors g name) frontier) refl rest h

-- A node that `next_node` returns is not done, needs no person and has its own conditions hold; a
-- node that `blocking_human_node` returns needs a person and is not done; to both leads a path
-- of edges from the entry whose conditions hold on the state.
pub next_node-IsReached :
    (g : WorkflowGraph) (state : JobState) (done : List String) (node : Node)
    → (next_node g state done ≡ ok (some node) → IsReached g state (is_next state done) node)
      × (blocking_human_node g state done ≡ ok (some node)
          → IsReached g state (is_blocking done) node)
unfolding next_node blocking_human_node
next_node-IsReached g state done node = (
  λ h.
      walk-IsReached g state (is_next state done) (suc (length g.edges)) (entry ∷ []) [] node
        (at_entry, tt) h,
  λ h.
      walk-IsReached g state (is_blocking done) (suc (length g.edges)) (entry ∷ []) [] node
        (at_entry, tt) h,
)
