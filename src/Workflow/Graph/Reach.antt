-- ===== src/Workflow/Graph/Reach.antt =====
-- What `reachable` finds, against the paths of the graph.
use mathlib.Core.List.{Memᴰ}
use mathlib.Core.List.Memᴰ.{head, tail}
use rda_data_director.Prelude.{
  ℕ, zero, suc, ◌+◌, ◌≤◌, ◌≡◌, ◌≢◌, ◌↔◌, refl, sym, ap, ◌∙◌, subst, String, Bool, true, false, not,
  ◌&&◌, ◌||◌, List, [], ◌∷◌, Option, none, some, arith, eq_iff, str_eq, contains, Memᴰ-keep_if,
  length, All, if◌then◌else◌,
}
use rda_data_director.Workflow.Graph.{
  Edge, WorkflowGraph, entry, successors, push_targets, reach_loop, without_entry, reachable,
}
use rda_data_director.Workflow.Graph.Edges.{
  from_name, unwalked, unwalked-visit, length-push_targets, contains-push_targets, contains-targets,
  all-unwalked,
}

-- There is a path of edges from the entry.
pub data Reaches (g : WorkflowGraph) : String → Type 0 where
  at_entry : Reaches g entry
  along : (e : Edge) → Memᴰ e g.edges → Reaches g e.source → Reaches g e.target

module _ (g : WorkflowGraph) where
  abbrev IsFound : List String → Type 0
  IsFound seen = All (Reaches g) seen

  IsFound-push_targets :
      (name : String) (es : List Edge) (stack : List String)
      → Reaches g name
      → ((e : Edge) → Memᴰ e es → Memᴰ e g.edges × (from_name name e ≡ true))
      → IsFound stack
      → IsFound (push_targets es stack)
  IsFound-push_targets name [] stack r own found = found
  IsFound-push_targets name (e ∷ es) stack r own found =
      let (place, same) = own e (head refl) in
      let source = (eq_iff e.source name).0 same in
      IsFound-push_targets name es (e.target ∷ stack) r (λ d m. own d (tail m))
        (along e place (subst (Reaches g) (sym source) r), found)

  Memᴰ-successors :
      (name : String) (e : Edge)
      → Memᴰ e (successors g name)
      → Memᴰ e g.edges × (from_name name e ≡ true)
  Memᴰ-successors name e m = Memᴰ-keep_if (from_name name) g.edges m

  reach_loop-IsFound :
      (fuel : ℕ) (stack seen r : List String)
      → reach_loop g fuel stack seen ≡ some r
      → IsFound stack
      → IsFound seen
      → IsFound r
  unfolding reach_loop
  reach_loop-IsFound fuel [] seen r h ahead behind = subst IsFound (some-same h) behind
    where
      some-same : {a b : List String} → some a ≡ some b → a ≡ b
      some-same e = cc
  reach_loop-IsFound zero (name ∷ stack) seen r h ahead behind = cc
  reach_loop-IsFound (suc fuel) (name ∷ stack) seen r h (here, more) behind =
      by_test (contains seen name) h (λ k. reach_loop-IsFound fuel stack seen r k more behind)
        (λ k.
          reach_loop-IsFound fuel (push_targets (successors g name) stack) (name ∷ seen) r k
            (IsFound-push_targets name (successors g name) stack here (Memᴰ-successors name) more)
            (here, behind))
    where
      by_test :
          {known fresh : Option (List String)} (t : Bool)
          → (if t then known else fresh) ≡ some r
          → (known ≡ some r → IsFound r)
          → (fresh ≡ some r → IsFound r)
          → IsFound r
      by_test true h yes_case no_case = yes_case h
      by_test false h yes_case no_case = no_case h

  -- The name is seen or will be.
  abbrev covered : List String → List String → String → Bool
  covered seen stack x = contains seen x || contains stack x

  record IsClosed (seen stack : List String) : Type 0 where
    entered : covered seen stack entry ≡ true
    walked :
        (e : Edge)
        → Memᴰ e g.edges
        → contains seen e.source ≡ true
        → covered seen stack e.target ≡ true

  IsClosed-known :
      (name : String) (seen stack : List String)
      → contains seen name ≡ true
      → IsClosed seen (name ∷ stack)
      → IsClosed seen stack
  IsClosed-known name seen stack known c = record {
    entered = ground (arith, eq_iff name entry, c.entered);
    walked = λ e m h. ground (arith, eq_iff name e.target, c.walked e m h);
  }

  IsClosed-fresh :
      (name : String) (seen stack : List String)
      → IsClosed seen (name ∷ stack)
      → IsClosed (name ∷ seen) (push_targets (successors g name) stack)
  IsClosed-fresh name seen stack c = record {
    entered = ground (arith, c.entered, contains-push_targets (successors g name) stack entry);
    walked = λ e m h. ground (
      arith,
      contains-push_targets (successors g name) stack e.target,
      c.walked e m,
      contains-targets name g.edges m,
      eq_iff name e.source,
      eq_iff e.source name,
    );
  }

  reach_loop-IsClosed :
      (fuel : ℕ) (stack seen r : List String)
      → reach_loop g fuel stack seen ≡ some r
      → IsClosed seen stack
      → IsClosed r []
  unfolding reach_loop
  reach_loop-IsClosed fuel [] seen r h c = subst (λ s. IsClosed s []) (some-same h) c
    where
      some-same : {a b : List String} → some a ≡ some b → a ≡ b
      some-same e = cc
  reach_loop-IsClosed zero (name ∷ stack) seen r h c = cc
  reach_loop-IsClosed (suc fuel) (name ∷ stack) seen r h c =
      by_test (contains seen name) refl h
        (λ known k.
          reach_loop-IsClosed fuel stack seen r k (IsClosed-known name seen stack known c))
        (λ k.
          reach_loop-IsClosed fuel (push_targets (successors g name) stack) (name ∷ seen) r k
            (IsClosed-fresh name seen stack c))
    where
      by_test :
          {known fresh : Option (List String)} (t : Bool)
          → contains seen name ≡ t
          → (if t then known else fresh) ≡ some r
          → (contains seen name ≡ true → known ≡ some r → IsClosed r [])
          → (fresh ≡ some r → IsClosed r [])
          → IsClosed r []
      by_test true e h yes_case no_case = yes_case e h
      by_test false e h yes_case no_case = no_case h

  reach_loop-ends :
      (fuel : ℕ) (stack seen : List String)
      → length stack + unwalked seen g.edges ≤ fuel
      → (r : List String) × (reach_loop g fuel stack seen ≡ some r)
  unfolding reach_loop
  reach_loop-ends fuel [] seen h = (seen, refl)
  reach_loop-ends zero (name ∷ stack) seen h = absurd (omega arith)
  reach_loop-ends (suc fuel) (name ∷ stack) seen h =
      by_test (contains seen name) refl (reach_loop-ends fuel stack seen (omega arith))
        (λ le. reach_loop-ends fuel (push_targets (successors g name) stack) (name ∷ seen) le)
    where
      by_test :
          {known fresh : Option (List String)} (t : Bool)
          → contains seen name ≡ t
          → (r : List String) × (known ≡ some r)
          → (length (push_targets (successors g name) stack) + unwalked (name ∷ seen) g.edges ≤ fuel
              → (r : List String) × (fresh ≡ some r))
          → (r : List String) × ((if t then known else fresh) ≡ some r)
      by_test true e yes_case no_case = yes_case
      by_test false e yes_case no_case = no_case (
          omega (
            arith,
            length-push_targets (successors g name) stack,
            unwalked-visit name seen g.edges e,
          ))

  contains-found : (n : String) (r : List String) → IsFound r → contains r n ≡ true → Reaches g n
  contains-found n [] found h = cc
  contains-found n (x ∷ r) (here, more) h = by_test (str_eq x n) refl (contains-found n r more) h
    where
      by_test :
          (t : Bool)
          → str_eq x n ≡ t
          → (contains r n ≡ true → Reaches g n)
          → (t || contains r n) ≡ true
          → Reaches g n
      by_test true e below h = subst (Reaches g) ((eq_iff x n).0 e) here
      by_test false e below h = below h

  Reaches-closed :
      (n : String) (r : List String) → IsClosed r [] → Reaches g n → contains r n ≡ true
  Reaches-closed n r c at_entry = ground (arith, c.entered)
  Reaches-closed n r c (along e m path) =
      ground (arith, c.walked e m, Reaches-closed e.source r c path)

contains-without_entry :
    (seen : List String) (n : String)
    → contains (without_entry seen) n ≡ (contains seen n && not (str_eq n entry))
contains-without_entry [] n = refl
contains-without_entry (x ∷ seen) n = ground (arith, contains-without_entry seen n, eq_iff x n)

-- A test that leaves the entry out.
but_entry_iff :
    (b : Bool) (n : String) → ((b && not (str_eq n entry)) ≡ true) ↔ ((b ≡ true) × (n ≢ entry))
but_entry_iff b n = (
  λ h. (ground arith, λ same. ground (arith, eq_iff n entry)),
  λ (h, other). ground (arith, eq_iff n entry),
)

seen_exact :
    (g : WorkflowGraph) (fuel : ℕ) (seen : List String) (n : String)
    → reach_loop g fuel (entry ∷ []) [] ≡ some seen
    → (contains (without_entry seen) n ≡ true) ↔ (Reaches g n × (n ≢ entry))
seen_exact g fuel seen n ended =
    let found = reach_loop-IsFound g fuel (entry ∷ []) [] seen ended (at_entry, tt) tt in
    let closed =
      reach_loop-IsClosed g fuel (entry ∷ []) [] seen ended
        (record { entered = refl; walked = λ e m h. cc }) in
    (
      λ h.
          let (here, other) =
            (but_entry_iff (contains seen n) n).0 (sym (contains-without_entry seen n) ∙ h) in
          (contains-found g n seen found here, other),
      λ (path, other).
          contains-without_entry seen n
          ∙ (but_entry_iff (contains seen n) n).1 (Reaches-closed g n seen closed path, other),
    )

-- `reachable` ends, on every graph, and finds exactly the names to which a path of edges leads from
-- the entry, the entry itself left out.
pub reachable_exact :
    (g : WorkflowGraph)
    → (r : List String) × (reachable g ≡ some r)
      × ((n : String) → (contains r n ≡ true) ↔ (Reaches g n × (n ≢ entry)))
unfolding reachable
reachable_exact g =
    from_loop (
      reach_loop-ends g (suc (length g.edges)) (entry ∷ []) []
        (omega (arith, all-unwalked g.edges)))
  where
    from_loop :
        (seen : List String) × (reach_loop g (suc (length g.edges)) (entry ∷ []) [] ≡ some seen)
        → (r : List String) × (reachable g ≡ some r)
          × ((n : String) → (contains r n ≡ true) ↔ (Reaches g n × (n ≢ entry)))
    from_loop (seen, ended) = (
      without_entry seen,
      ap
          (λ (o : Option (List String)). elim o [
            | none ↦ none
            | some seen ↦ some (without_entry seen)
          ])
          ended,
      λ n. seen_exact g (suc (length g.edges)) seen n ended,
    )
