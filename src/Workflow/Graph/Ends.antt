-- ===== src/Workflow/Graph/Ends.antt =====
-- The two walks of the graph end.
use rda_data_director.Prelude.{
  ℕ, zero, suc, ◌+◌, ◌≤◌, ◌≡◌, ◌≢◌, refl, String, Bool, true, false, List, [], ◌∷◌, ◌++◌, Option,
  none, some, Result, ok, err, key_error, recursion_error, arith, contains, length, length-append,
  if◌then◌else◌,
}
use rda_data_director.State.Projection.{JobState}
use rda_data_director.Workflow.Graph.{
  Node, Edge, WorkflowGraph, entry, find_node, successors, Scanned, taken, onward, scan_node,
  and_then, scan_edges, walk_on, walk, is_next, is_blocking, next_node, blocking_human_node,
}
use rda_data_director.Workflow.Graph.Edges.{unwalked, unwalked-visit, all-unwalked}

module _ (g : WorkflowGraph) (state : JobState) (test : Node → Bool) where
  -- The only error is a missing node, and no more than the given number of names is ahead.
  abbrev IsBounded : ℕ → Result Scanned → Type 0
  IsBounded n (err e) = e ≡ key_error
  IsBounded n (ok (taken node)) = Unit
  IsBounded n (ok (onward ahead)) = length ahead ≤ n

  IsBounded-weaken : (m n : ℕ) (r : Result Scanned) → m ≤ n → IsBounded m r → IsBounded n r
  IsBounded-weaken m n (err e) le b = b
  IsBounded-weaken m n (ok (taken node)) le b = tt
  IsBounded-weaken m n (ok (onward ahead)) le b = omega arith

  scan_edges-IsBounded :
      (es : List Edge) (ahead : List String)
      → IsBounded (length ahead + length es) (scan_edges g state test es ahead)
  unfolding scan_edges
  scan_edges-IsBounded [] ahead = omega arith
  scan_edges-IsBounded (e ∷ es) ahead =
      by_condition (e.when.holds state) (find_node e.target g.nodes) (scan_edges-IsBounded es ahead)
        (scan_edges-IsBounded es (ahead ++ e.target ∷ []))
    where
      by_test :
          (t : Bool) (node : Node)
          → IsBounded
              (length (ahead ++ e.target ∷ []) + length es)
              (scan_edges g state test es (ahead ++ e.target ∷ []))
          → IsBounded (length ahead + suc (length es)) (
              and_then
                (if t then ok (taken node) else ok (onward (ahead ++ e.target ∷ [])))
                (λ more. scan_edges g state test es more))
      by_test true node b = tt
      by_test false node b =
          IsBounded-weaken (length (ahead ++ e.target ∷ []) + length es)
            (length ahead + suc (length es)) (scan_edges g state test es (ahead ++ e.target ∷ []))
            (omega (arith, length-append ahead (e.target ∷ []))) b

      by_condition :
          (c : Bool) (o : Option Node)
          → IsBounded (length ahead + length es) (scan_edges g state test es ahead)
          → IsBounded
              (length (ahead ++ e.target ∷ []) + length es)
              (scan_edges g state test es (ahead ++ e.target ∷ []))
          → IsBounded (length ahead + suc (length es)) (
              if c
              then and_then
                  (scan_node test o (ahead ++ e.target ∷ []))
                  (λ more. scan_edges g state test es more)
              else scan_edges g state test es ahead)
      by_condition false o skip rest =
          IsBounded-weaken (length ahead + length es) (length ahead + suc (length es))
            (scan_edges g state test es ahead) (omega arith) skip
      by_condition true none skip rest = refl
      by_condition true (some node) skip rest = by_test (test node) node rest

  walk-ends :
      (fuel : ℕ) (frontier seen : List String)
      → length frontier + unwalked seen g.edges ≤ fuel
      → walk g state test fuel frontier seen ≢ err recursion_error
  unfolding walk
  walk-ends fuel [] seen le h = cc
  walk-ends zero (name ∷ frontier) seen le h = absurd (omega arith)
  walk-ends (suc fuel) (name ∷ frontier) seen le h =
      by_seen (contains seen name) refl (walk-ends fuel frontier seen (omega arith))
        (λ ahead le. walk-ends fuel ahead (name ∷ seen) le) h
    where
      by_scan :
          (r : Result Scanned)
          → contains seen name ≡ false
          → IsBounded (length frontier + length (successors g name)) r
          → ((ahead : List String)
              → length ahead + unwalked (name ∷ seen) g.edges ≤ fuel
              → walk g state test fuel ahead (name ∷ seen) ≢ err recursion_error)
          → walk_on r (λ ahead. walk g state test fuel ahead (name ∷ seen)) ≢ err recursion_error
      by_scan (err e) fresh b rest h = cc
      by_scan (ok (taken node)) fresh b rest h = cc
      by_scan (ok (onward ahead)) fresh b rest h =
          rest ahead (omega (arith, unwalked-visit name seen g.edges fresh)) h

      by_seen :
          (t : Bool)
          → contains seen name ≡ t
          → walk g state test fuel frontier seen ≢ err recursion_error
          → ((ahead : List String)
              → length ahead + unwalked (name ∷ seen) g.edges ≤ fuel
              → walk g state test fuel ahead (name ∷ seen) ≢ err recursion_error)
          → (if t
              then walk g state test fuel frontier seen
              else walk_on
                  (scan_edges g state test (successors g name) frontier)
                  (λ ahead. walk g state test fuel ahead (name ∷ seen)))
            ≢ err recursion_error
      by_seen true e skip rest = skip
      by_seen false e skip rest =
          by_scan (scan_edges g state test (successors g name) frontier) e
            (scan_edges-IsBounded (successors g name) frontier) rest

-- `next_node` and `blocking_human_node` end on every graph, also on one with cycles: the rounds that
-- their loops are given are enough.
pub next_node-ends :
    (g : WorkflowGraph) (state : JobState) (done : List String)
    → (next_node g state done ≢ err recursion_error)
      × (blocking_human_node g state done ≢ err recursion_error)
unfolding next_node blocking_human_node
next_node-ends g state done =
    let enough : length (entry ∷ []) + unwalked [] g.edges ≤ suc (length g.edges) =
      omega (arith, all-unwalked g.edges) in
    (
      walk-ends g state (is_next state done) (suc (length g.edges)) (entry ∷ []) [] enough,
      walk-ends g state (is_blocking done) (suc (length g.edges)) (entry ∷ []) [] enough,
    )
