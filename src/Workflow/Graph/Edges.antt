-- ===== src/Workflow/Graph/Edges.antt =====
-- Counting the edges that a walk of the graph has still to take, and where their targets go.
use mathlib.Core.List.{Memᴰ}
use mathlib.Core.List.Memᴰ
use mathlib.Core.List.Memᴰ.{head, tail}
use rda_data_director.Prelude.{
  ℕ, ◌+◌, ◌≡◌, refl, ap, String, Bool, true, false, not, ◌||◌, List, [], ◌∷◌, map, arith, eq_iff,
  str_eq, str_eq_refl, contains, keep_if, length,
}
use rda_data_director.Workflow.Graph.{Edge, push_targets}

abbrev pub from_name : String → Edge → Bool
from_name name e = str_eq e.source name

abbrev pub targets : List Edge → List String
targets es = map (λ e. e.target) es

-- The edges that the loop has still to walk.
abbrev pub unwalked : List String → List Edge → ℕ
unwalked seen es = length (keep_if (λ e. not (contains seen e.source)) es)

pub unwalked-visit :
    (name : String) (seen : List String) (es : List Edge)
    → contains seen name ≡ false
    → unwalked (name ∷ seen) es + length (keep_if (from_name name) es) ≡ unwalked seen es
unwalked-visit name seen [] h = refl
unwalked-visit name seen (e ∷ es) h =
    ground (arith, unwalked-visit name seen es h, eq_iff name e.source, eq_iff e.source name)

pub length-push_targets :
    (es : List Edge) (stack : List String)
    → length (push_targets es stack) ≡ length es + length stack
length-push_targets [] stack = omega arith
length-push_targets (e ∷ es) stack = omega (arith, length-push_targets es (e.target ∷ stack))

pub contains-push_targets :
    (es : List Edge) (stack : List String) (x : String)
    → contains (push_targets es stack) x ≡ (contains (targets es) x || contains stack x)
contains-push_targets [] stack x = refl
contains-push_targets (e ∷ es) stack x =
    ground (arith, contains-push_targets es (e.target ∷ stack) x)

pub contains-targets :
    {e : Edge} (name : String) (es : List Edge)
    → Memᴰ e es
    → str_eq e.source name ≡ true
    → contains (targets (keep_if (from_name name) es)) e.target ≡ true
contains-targets name [] m h = absurd (Memᴰ.not-nil m)
contains-targets name (d ∷ es) (head same) h =
    ground (arith, ap (λ e. e.source) same, ap (λ e. e.target) same, str_eq_refl d.target)
contains-targets name (d ∷ es) (tail m) h = ground (arith, contains-targets name es m h)

pub all-unwalked : (es : List Edge) → unwalked [] es ≡ length es
all-unwalked [] = refl
all-unwalked (e ∷ es) = omega (arith, all-unwalked es)
